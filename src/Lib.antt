-- ===== src/Lib.antt =====
-- The Nitro Enclaves command line program and its enclave process: a verification of the parts that
-- decide what an enclave is given and who may use it.
--
-- HOW THE PROGRAM WORKS. The command line program parses its arguments and sends a command to an
-- enclave process over a socket (src/common). Each enclave has a process of its own (src/enclave_proc):
-- it reads commands, checks that the sender may run them, and keeps the resources of the enclave: a
-- descriptor of the driver, memory of huge pages, CPUs, and the image that boots. A library waits for
-- the heart beat of the booted enclave (eif_loader). A proxy beside them lets an enclave talk to one
-- host that a list allows (vsock_proxy).
--
-- THE MODEL.
--   Common, Common/*   numbers, lists and integers that the other files share
--   Failure, Exec      the error codes of src/common/mod.rs, results, and methods that change an
--                      object and may fail; an `exit` ends the process
--   Text               text as lists of code points, with the parts of the standard library used
--   Args, Args/*       src/common/commands_parser.rs: the arguments of the commands
--   Command            src/common/mod.rs: the commands of the enclave process
--   Memory             src/enclave_proc/resource_manager.rs: `MemoryRegion`
--   Memory/Sort, Memory/Allocator, Memory/Allocator/*
--                      `ResourceAllocator::allocate` and `free`: the two passes over the huge pages,
--                      the sort, and the drop of the regions that are not needed
--   Image, Image/*     `write_eif_to_regions` and `fill_from_file`
--   Cpu, Cpu/*         src/enclave_proc/cpu_info.rs: the CPU pool and the CPU configuration
--   EifLoader          eif_loader/src/lib.rs, and `calculate_necessary_timeout`
--   EnclaveId, EnclaveId/*
--                      src/enclave_proc/utils.rs: `generate_enclave_id` and `get_slot_id`
--   Enclave, Enclave/* `EnclaveHandle` and `EnclaveManager` of
--                      src/enclave_proc/resource_manager.rs, and the requests of
--                      src/enclave_proc/commands.rs: `run_enclaves`, `terminate_enclaves` and
--                      `describe_enclaves`
--   Wire, Wire/*       src/common/mod.rs: length and bytes of a message on a socket
--   Connection, Connection/*
--                      src/enclave_proc/connection.rs: the access policy, and the connection of a
--                      request with its replies
--   Host               the files, sockets and libraries that an enclave process calls, as parameters
--   Listener, Listener/*
--                      src/enclave_proc/connection_listener.rs and socket.rs: the listener, its
--                      `epoll` set and the file of its socket
--   EventLoop, EventLoop/*
--                      src/enclave_proc/mod.rs: `handle_command` (Handle), the thread of a
--                      termination (Terminate) and `process_event_loop` (Loop)
--   Comm, Comm/*       src/enclave_proc_comm.rs: the command line program's side of the sockets, the
--                      broadcast of a command and the replies to it
--   Cli, Cli/*         src/lib.rs and src/utils.rs: the names of enclaves, the termination of all
--                      enclaves, and the console; src/main.rs: the commands that talk to enclave
--                      processes (Main)
--   Errors, Errors/*   src/common/document_errors.rs: the codes of the errors and their texts
--   Proxy, Proxy/*     vsock_proxy: the allow list, the resolution of names with its cache, and the
--                      relay between two sockets
--   Executer, Executer/*
--                      samples/command_executer: the loops around `send` and `recv` (Socket), the
--                      server (Server) and the client (Client) that run commands and copy files, and
--                      the arguments (Options)
-- The modules named Tests, and Host/Machine, hold concrete machines, files and requests.
--
-- STATE AND FAILURE. A method that changes an object is a function from the state to a result and the
-- state, so what was written before a failure is seen after it. The kernel, the driver, the encoder of
-- messages and the files are parameters: records of functions with a state of their own, of which
-- nothing is assumed but what a theorem names.
--
-- READS. What a stream has coming in is all that the other side sends on it. A read that wants more than that
-- finds the connection closed; only for the replies to a broadcast it is told whether the process closes the
-- connection, and a read of a part of a reply on an open one does not return.
--
-- NUMBERS. Numbers are natural numbers; where the source computes on 64 bits, the wrap or the check
-- of the overflow is written out. The need of memory in `allocate` is a signed number, as in the
-- source. Sums of region sizes do not wrap in the model: a region is at most 16 GiB.
--
-- THREADS. The event loop is run over a list of turns: a round of the main thread with the answers of
-- `epoll_wait`, or a thread of a termination that runs to its end. Such a thread holds a clone of the
-- manager, which shares the handle of the enclave with the process until the process replaces it. The
-- thread of the listener is run where it is joined. What the process drops when the loop has returned is
-- not followed.
--
-- THE SAMPLE. The kernel's answers to `send`, `recv` and `connect` are lists: how many bytes a call moves,
-- an interruption or an error. A call that needs an answer beyond the list is blocked; a thread of the
-- sample has no other way to wait. Of the client and the server, each runs against what the other one
-- has sent.
--
-- FUEL. The two `while` loops of `allocate` run on a fuel of one more than the bytes still needed:
-- each round takes a page of at least one byte off the need or breaks off. `show_digits` and `show_hex`
-- run on a fuel above the number that they print, which loses a digit in each round. The loop over
-- the replies of a process runs on one more than the bytes that it has sent, of which each reply takes
-- at least eight. The loops of the sample over a file or an output run on its size, of which each round
-- takes a byte at least. The loop of `new_enclave_name` runs on one more than there are names: the names that it
-- tries differ.
--
-- NOT MODELLED. The daemonization of the enclave process and the thread for signals, which sends one
-- command on a stream; the loop of the listener's thread and the monitor of the socket's file; the
-- measurement and the description of images, which the image library does; log messages and the
-- additional texts in errors, of which the code stays; the delays between packets; the build of
-- images from containers, which is calls of other programs; the parsers of configuration files,
-- which belong to libraries.
mod Common
pub mod Failure
pub mod Exec
pub mod Text
pub mod Args
pub mod Command
pub mod Memory
pub mod Image
pub mod Cpu
pub mod EifLoader
pub mod EnclaveId
pub mod Enclave
pub mod Executer
pub mod Wire
pub mod Connection
pub mod Proxy
pub mod Comm
pub mod Host
pub mod Listener
pub mod EventLoop
pub mod Cli
pub mod Errors
