-- ===== src/State.antt =====
-- crates/service-runtime-state/src/lib.rs: the managed state of a service, as a full trie with a
-- transaction over it, and as a proof-backed state.
pub mod Trie
pub mod Overlay
pub mod Full
pub mod Transaction
pub mod Proof
pub mod Access
use jam_script.Prelude.{ℕ, Bytes}

pub data StateError : Type 0 where
  invalid_root missing_witness invalid_proof backend unsupported reserved_key : StateError

-- `StateAccessError` of crates/service-runtime-core/src/lib.rs.
pub data StateAccessError : Type 0 where
  missing_witness invalid_proof backend reserved_key : StateAccessError
  need_state : Bytes → StateAccessError
  need_external_state : ℕ → Bytes → StateAccessError
  rejected application_failed : ℕ → StateAccessError

unfoldable pub state_access_error : StateError → StateAccessError
state_access_error StateError.missing_witness = StateAccessError.missing_witness
state_access_error StateError.invalid_proof = StateAccessError.invalid_proof
state_access_error StateError.reserved_key = StateAccessError.reserved_key
state_access_error _ = StateAccessError.backend
