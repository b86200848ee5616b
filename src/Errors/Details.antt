-- ===== src/Errors/Details.antt =====
-- src/common/document_errors.rs: `get_detailed_info`.
use Prim.Native.String.{String, ◌++◌ as append}
use aws_nitro_enclaves_cli.Common.{
  Option, none, some, List, [], ◌∷◌, ◌++◌, length, leb, if◌then◌else◌,
}
use aws_nitro_enclaves_cli.Errors.{find_text, info_at, concat_all}

-- E19, with the file where it is known.
abbrev file_operation : List String → String
file_operation info =
    append
      "File operation failure. Such error appears when the system fails to perform the requested file operations, such as opening the EIF file when launching an enclave, or seeking to a specific offset in the EIF file, or writing to the log file."
      (if leb 2 (length info)
        then concat_all
            ("\nFile: '" ∷ info_at 0 info ∷ "', failing operation: '" ∷ info_at 1 info ∷ "'." ∷ [])
        else "")

-- E26, with the least memory where it is known.
abbrev memory_requested : List String → String
memory_requested info =
    if leb 3 (length info)
    then concat_all (
        "Insufficient memory requested. User provided `"
        ∷ info_at 0 info
        ∷ "` is "
        ∷ info_at 1 info
        ∷ " MB, but based on the EIF file size, the minimum memory should be "
        ∷ info_at 2 info
        ∷ " MB"
        ∷ [])
    else concat_all (
        "Insufficient memory requested. User provided `"
        ∷ info_at 0 info
        ∷ "` is "
        ∷ info_at 1 info
        ∷ " MB, and memory should be greater than 0 MB."
        ∷ [])

unfoldable pub details_to_29 : List (String × (List String → String))
details_to_29 =
    (
      "E00",
      λ info.
          "Unspecified error. This is used as a catch-all error and should not be used in the code.",
    )
    ∷ (
      "E01",
      λ info. concat_all (
          "Missing mandatory argument. User did not provide the `"
          ∷ info_at 0 info
          ∷ "` argument."
          ∷ []),
    )
    ∷ (
      "E02",
      λ info. concat_all (
          "Conflicting arguments. User provided both `"
          ∷ info_at 0 info
          ∷ "` and `"
          ∷ info_at 1 info
          ∷ "`."
          ∷ []),
    )
    ∷ (
      "E03",
      λ info. concat_all (
          "Invalid argument provided. The parameter `"
          ∷ info_at 0 info
          ∷ "` is not a valid integer (`"
          ∷ info_at 1 info
          ∷ "`)"
          ∷ []),
    )
    ∷ (
      "E04",
      λ info.
          "Socket pair creation failure. Such error appears when the Nitro CLI process attempts to open a stream pair in order to send a command to the enclave process but the stream initialization fails.",
    )
    ∷ (
      "E05",
      λ info.
          "Process spawn failure. Such error appears when the main Nitro CLI process fails to spawn the enclave process, in order to complete a `run-enclave` command.",
    )
    ∷ (
      "E06",
      λ info.
          "Daemonize process failure. Such error appears when the system fails to daemonize a newly spawned enclave process.",
    )
    ∷ (
      "E07",
      λ info.
          "Read from disk failure. Such error appears when the Nitro CLI process fails to read the content of the enclave sockets directory (usually '/run/nitro_enclaves/') in order to perform a `describe-enclave` operation. Check that the directory exists and it has proper permissions, or run the Nitro Enclaves configuration script in order to (re)configure the environment.",
    )
    ∷ (
      "E08",
      λ info.
          "Unusable connection error. Such error appears when the Nitro CLI process attempts to open a connection to a non-existing or previously closed enclave descriptor",
    )
    ∷ (
      "E09",
      λ info.
          "Socket close error. Such error appears when the system fails to successfully close a communication channel.",
    )
    ∷ (
      "E10",
      λ info.
          "Socket connect set timeout error. Such error appears when the system fails to configure a specific timeout for a given socket. May arise when trying to connect to an enclave's console.",
    )
    ∷ (
      "E11",
      λ info.
          "Socket error. This is used as an error for catching any other socket operation errors not covered by previous custom errors.",
    )
    ∷ (
      "E12",
      λ info.
          "Epoll error. Such error appears, for instance, when the system fails to register a specific enclave descriptor with epoll in order to monitor events for it.",
    )
    ∷ (
      "E13",
      λ info.
          "Inotify error. Such error appears when the system fails to configure a socket for monitorization.",
    )
    ∷ (
      "E14",
      λ info.
          "Invalid command. Such error appears when an unknown command and / or unknown arguments are sent through a socket.",
    )
    ∷ (
      "E15",
      λ info.
          "Lock acquire failure. Such error appears when the system fails to obtain the lock for an object with concurrent access, such as a structure containing information about a running enclave.",
    )
    ∷ (
      "E16",
      λ info.
          "Thread join failure. Such error appears when the system fails to successfully join a thread, after it finished executing.",
    )
    ∷ (
      "E17",
      λ info.
          "Serde error. Such error appears when serializing / deserializing a command or response fails.",
    )
    ∷ (
      "E18",
      λ info.
          "File permissions error. Such error appears when a user other than the owner of the logging file (usually '/var/log/nitro_enclaves/nitro_enclaves.log') attempts to change the file permissions",
    )
    ∷ ("E19", λ info. file_operation info)
    ∷ (
      "E20",
      λ info. concat_all (
          "Invalid CPU configuration. User provided `"
          ∷ info_at 0 info
          ∷ "` contains same CPU(s) (CPU(s) "
          ∷ info_at 1 info
          ∷ ") multiple times."
          ∷ []),
    )
    ∷ (
      "E21",
      λ info. concat_all (
          "No such CPU available in the pool. User provided `"
          ∷ info_at 0 info
          ∷ "` contains CPU "
          ∷ info_at 1 info
          ∷ ", which is not available in the pool.\nYou can add a specific CPU to the CPU pool by editing the `cpu_pool` value from '/etc/nitro_enclaves/allocator.yaml' and then enable the nitro-enclaves-allocator.service."
          ∷ []),
    )
    ∷ (
      "E22",
      λ info. concat_all (
          "Insufficient CPUs available in the pool. User provided `"
          ∷ info_at 0 info
          ∷ "` is "
          ∷ info_at 1 info
          ∷ ", which is more than the configured CPU pool size.\nYou can increase the CPU pool size by editing the `cpu_count` value from '/etc/nitro_enclaves/allocator.yaml' and then enable the nitro-enclaves-allocator.service."
          ∷ []),
    )
    ∷ (
      "E23",
      λ info.
          "Malformed CPU ID error. Such error appears when a `lscpu` line is malformed and reports an invalid online CPUs list.",
    )
    ∷ (
      "E24",
      λ info.
          "CPU error. Such error appears when a CPU line interval is invalid (for instance, 0-3-7)",
    )
    ∷ (
      "E25",
      λ info.
          "No such hugepage flag error. Such error appears when the enclave process attempts to use an invalid hugepage size (size other than the known hugepage sizes) for initializing the enclave memory.",
    )
    ∷ ("E26", λ info. memory_requested info)
    ∷ (
      "E27",
      λ info. concat_all (
          "Insufficient memory available. User provided `"
          ∷ info_at 0 info
          ∷ "` is "
          ∷ info_at 1 info
          ∷ " MB, which is more than the available hugepage memory.\nYou can increase the available memory by editing the `memory_mib` value from '/etc/nitro_enclaves/allocator.yaml' and then restart the nitro-enclaves-allocator.service."
          ∷ []),
    )
    ∷ (
      "E28",
      λ info.
          "Invalid enclave descriptor. Such error appears when the NE_CREATE_VM ioctl returns with an error.",
    )
    ∷ (
      "E29",
      λ info.
          "Ioctl failure. Such error is used as a general ioctl error and appears whenever an ioctl fails. In this case, the error backtrace provides detailed information on what specifically failed during the ioctl.",
    )
    ∷ []

unfoldable pub details_from_30 : List (String × (List String → String))
details_from_30 =
    (
      "E30",
      λ info.
          "Ioctl image get load info failure. Such error appears when the ioctl used for getting the memory load information fails. In this case, the error backtrace provides detailed information on what specifically failed during the ioctl.",
    )
    ∷ (
      "E31",
      λ info.
          "Ioctl set memory region failure. Such error appears when the ioctl used for setting a given memory region fails. In this case, the error backtrace provides detailed information on what specifically failed during the ioctl.",
    )
    ∷ (
      "E32",
      λ info.
          "Ioctl add vCPU failure. Such error appears when the ioctl used for adding a vCPU fails. In this case, the error backtrace provides detailed information on what specifically failed during the ioctl.",
    )
    ∷ (
      "E33",
      λ info.
          "Ioctl start enclave failure. Such error appears when the ioctl used for starting an enclave fails. In this case, the error backtrace provides details information on what specifically failed during the ioctl.",
    )
    ∷ (
      "E34",
      λ info.
          "Memory overflow. Such error may appear during loading the EIF in the memory regions which will be conceded to the future enclave, if the regions offset plus the EIF file size exceeds the maximum address of the target platform.",
    )
    ∷ (
      "E35",
      λ info.
          "EIF file parsing error. Such errors appear when attempting to fill a memory region with a section of the EIF file, but reading the entire section fails. This might indicate that the required hugepages are not available.",
    )
    ∷ (
      "E36",
      λ info.
          "Enclave boot failure. Such error appears when attempting to receive the `ready` signal from a freshly booted enclave. It arises in several contexts, for instance, when the enclave is booted from an invalid EIF file and the enclave process immediately exits, failing to submit the `ready` signal. In this case, the error backtrace provides detailed information on what specifically failed during the enclave boot process.",
    )
    ∷ (
      "E37",
      λ info.
          "Enclave event wait error. Such error appears when monitoring an enclave descriptor for events fails.",
    )
    ∷ (
      "E38",
      λ info.
          "Enclave process command not executed error. Such error appears when at least one enclave fails to provide the description information.",
    )
    ∷ (
      "E39",
      λ info.
          "Enclave process connection failure. Such error appears when the enclave manager fails to connect to at least one enclave process for retrieving the description information.",
    )
    ∷ (
      "E40",
      λ info.
          "Socket path not found. Such error appears when the Nitro CLI process fails to build the corresponding socket path starting from a given enclave ID.",
    )
    ∷ (
      "E41",
      λ info.
          "Enclave process send reply failure. Such error appears when the enclave process fails to submit the status code to the Nitro CLI process after performing a run / describe / terminate command.",
    )
    ∷ (
      "E42",
      λ info. "Enclave mmap error. Such error appears when allocating the enclave memory fails.",
    )
    ∷ (
      "E43",
      λ info. "Enclave munmap error. Such error appears when unmapping the enclave memory fails.",
    )
    ∷ (
      "E44",
      λ info.
          "Enclave console connection failure. Such error appears when the Nitro CLI process fails to establish a connection to a running enclave's console.",
    )
    ∷ (
      "E45",
      λ info.
          "Enclave console read error. Such error appears when reading from a running enclave's console fails.",
    )
    ∷ (
      "E46",
      λ info.
          "Enclave console write output error. Such error appears when writing the information retrieved from a running enclave's console (to a given stream) fails.",
    )
    ∷ (
      "E47",
      λ info.
          "Integer parsing error. Such error appears when trying to connect to a running enclave's console, but the enclave CID cannot be parsed correctly.",
    )
    ∷ (
      "E48",
      λ info.
          "EIF building error. Such error appears when trying to build an EIF file. In this case, the error backtrace provides detailed information on the failure reason.",
    )
    ∷ (
      "E49",
      λ info.
          "Docker image build error. Such error appears when trying to build and EIF file, but building the corresponding docker image fails. In this case, the error backtrace provides detailed information on the failure reason.",
    )
    ∷ (
      "E50",
      λ info.
          "Docker image pull error. Such error appears when trying to build an EIF file, but pulling the corresponding docker image fails. In this case, the error backtrace provides detailed informatino on the failure reason.",
    )
    ∷ (
      "E51",
      λ info.
          "Artifacts path environment variable not set. Such error appears when trying to build an EIF file, but the artifacts path environment variable is not set.",
    )
    ∷ (
      "E52",
      λ info.
          "Blobs path environment variable not set. Such error appears when trying to build an EIF file, but the blobs path environment variable is not set.",
    )
    ∷ (
      "E53",
      λ info.
          "Clock skew error. Such error appears when continuously reading from a running enclave's console, but measuring the time elapsed between consecutive reads failed.",
    )
    ∷ (
      "E54",
      λ info.
          "Signal masking error. Such error appears if attempting to mask specific signals before creating an enclave process fails.",
    )
    ∷ (
      "E55",
      λ info.
          "Signal unmasking error. Such error appears if attempting to unmask specific signals after creating an enclave process fails.",
    )
    ∷ (
      "E56",
      λ info.
          "Logger error. Such error appears when attempting to initialize the underlying logging system fails.",
    )
    ∷ (
      "E57",
      λ info.
          "Hasher error. Such error appears when trying to initialize a hasher or write bytes to it, resulting in a IO error.",
    )
    ∷ (
      "E58",
      λ info.
          "Naming error. Such error appears when trying to perform an enclave operation using the enclave name and the name is invalid.",
    )
    ∷ (
      "E59",
      λ info.
          "EIF signature checker error. Such error appears when validation of the signing certificate fails.",
    )
    ∷ []

unfoldable pub details : List (String × (List String → String))
unfolding details_to_29 details_from_30
details = details_to_29 ++ details_from_30

abbrev text_of : String → Option (List String → String) → List String → String
text_of code none info = append "No such error code " code
text_of code (some text) info = text info

unfoldable pub get_detailed_info : String → List String → String
unfolding find_text details
get_detailed_info error_code_str additional_info = concat_all (
    "[ "
    ∷ error_code_str
    ∷ " ] "
    ∷ text_of error_code_str (find_text details error_code_str) additional_info
    ∷ [])
