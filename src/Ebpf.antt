-- ===== src/Ebpf.antt =====
-- crates/slice-ebpf/src/lib.rs: the userspace half of the Linux adapter.
pub mod Adapter
pub mod Events
pub mod Resolver
pub mod Host
pub mod Ring
pub mod Replay
pub mod Doctor
pub mod Process
pub mod Session
pub mod Attach
pub mod Capture
