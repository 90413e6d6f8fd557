-- ===== src/Tests.antt =====
-- Runs at concrete inputs, and the theorems applied there.
mod Diffs
mod Ownerships
mod States
mod Guests
mod Formats
mod Plans
mod Refines
mod Faults
mod Allocs
mod Codecs
