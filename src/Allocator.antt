-- ===== src/Allocator.antt =====
-- crates/service-runtime-guest/src/guest_allocator.rs: the allocator of the guest, which grows a
-- buddy heap within the memory budget and keeps a record of the first fault.
pub mod Layout
pub mod Platform
pub mod Runtime
pub mod Growth
pub mod Calls
pub mod Sound
pub mod Abi
pub mod Reaching
