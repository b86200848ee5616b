-- ===== src/Cpu.antt =====
-- src/enclave_proc/cpu_info.rs: the CPU pool of the driver and the CPU configuration of a request.
-- Text is the list of its code points.
pub mod Pool
pub mod UniqueIds
pub mod Config
mod Tests
