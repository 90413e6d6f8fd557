-- ===== src/RefineOutput.antt =====
-- `RuntimeRefineOutputV1` of crates/service-runtime-core/src/lib.rs, with the receipts of the actions and
-- the dependencies on the state of other services.
pub mod Read
pub mod Header
pub mod Dependencies
use jam_script.Prelude.{
  ℕ, List, [], ◌∷◌, ◌++◌, Bool, true, false, ◌||◌, not, Option, none, some, Bytes, bytes_eq, length,
  ltb, ◌==◌, le_bytes, Result, ok, err, ◌>>=◌, ◌>>◌, reject, if◌then◌else◌,
}
use jam_script.Wire.{WireError, too_many_items, invalid_encoding, duplicate_service_id}
use jam_script.Wire.Limits.{managed_state_protocol_version, max_recovery_bytes}
use jam_script.Wire.Writer
use jam_script.Diff.{StateDiff}
use jam_script.Recovery

abbrev pub max_runtime_actions : ℕ
max_runtime_actions = 1024

abbrev pub max_external_state_witnesses : ℕ
max_external_state_witnesses = 64

pub data ActionStatus : Type 0 where
  applied failed rejected : ActionStatus

-- `status as u8`
unfoldable pub status_byte : ActionStatus → ℕ
status_byte applied = 0
status_byte failed = 1
status_byte rejected = 2

pub record ActionReceipt : Type 0 where
  pub action_hash : Bytes
  pub status : ActionStatus
  pub error_code : Option ℕ

pub record ExternalStateDependency : Type 0 where
  pub service_id : ℕ
  pub state_root : Bytes

pub record RefineOutput : Type 0 where
  pub version : ℕ
  pub parent_root : Bytes
  pub new_root : Bytes
  pub external_dependencies : List ExternalStateDependency
  pub transition_valid_until : Option ℕ
  pub receipts : List ActionReceipt
  pub recovery_commitment : Bytes
  pub recovery_payload : Bytes

pub record RefineTransitionHeader : Type 0 where
  pub version : ℕ
  pub parent_root : Bytes
  pub new_root : Bytes
  pub external_dependencies : List ExternalStateDependency
  pub transition_valid_until : Option ℕ
  pub recovery_commitment : Bytes

-- `sort_by_key`, which keeps the order of equal keys.
unfoldable pub insert_dependency :
    ExternalStateDependency → List ExternalStateDependency → List ExternalStateDependency
insert_dependency x [] = x ∷ []
insert_dependency x (y ∷ ys) =
    if ltb y.service_id x.service_id then y ∷ insert_dependency x ys else x ∷ y ∷ ys

unfoldable pub sort_dependencies : List ExternalStateDependency → List ExternalStateDependency
sort_dependencies [] = []
sort_dependencies (x ∷ xs) = insert_dependency x (sort_dependencies xs)

-- The loop over the sorted dependencies, after `last` was pushed.
unfoldable pub push_rest :
    ExternalStateDependency
    → List ExternalStateDependency
    → Result WireError (List ExternalStateDependency)
push_rest last [] = ok []
push_rest last (d ∷ ds) =
    if last.service_id == d.service_id
    then (if bytes_eq last.state_root d.state_root
        then push_rest last ds
        else err duplicate_service_id)
    else (do more ← push_rest d ds; ok (d ∷ more))

unfoldable pub push_all :
    List ExternalStateDependency → Result WireError (List ExternalStateDependency)
push_all [] = ok []
push_all (d ∷ ds) = do more ← push_rest d ds; ok (d ∷ more)

unfoldable pub canonicalize_dependencies :
    List ExternalStateDependency → Result WireError (List ExternalStateDependency)
canonicalize_dependencies ds = push_all (sort_dependencies ds)

unfoldable pub write_dependencies : List ExternalStateDependency → Bytes
write_dependencies [] = []
write_dependencies (d ∷ ds) = Writer.u32 d.service_id ++ (d.state_root ++ write_dependencies ds)

unfoldable pub write_validity : Option ℕ → Bytes
write_validity none = 0 ∷ []
write_validity (some valid_until) = 1 ∷ le_bytes 8 valid_until

unfoldable pub write_error_code : Option ℕ → Bytes
write_error_code none = 0 ∷ []
write_error_code (some error) = 1 ∷ Writer.u32 error

unfoldable pub write_receipts : List ActionReceipt → Bytes
write_receipts [] = []
write_receipts (r ∷ rs) =
    r.action_hash ++ (status_byte r.status ∷ write_error_code r.error_code) ++ write_receipts rs

unfoldable pub encode : RefineOutput → Result WireError Bytes
encode o = do
  reject
      (not (o.version == managed_state_protocol_version)
        || (ltb max_runtime_actions (length o.receipts)
            || ltb max_recovery_bytes (length o.recovery_payload)))
      too_many_items
  dependencies ← canonicalize_dependencies o.external_dependencies
  reject (ltb max_external_state_witnesses (length dependencies)) too_many_items
  count ← Writer.u32_len (length dependencies)
  payload ← Writer.bytes_u32 o.recovery_payload
  ok (
      o.version
      ∷ (o.parent_root
          ++ o.new_root
          ++ Writer.u32 count
          ++ write_dependencies dependencies
          ++ write_validity o.transition_valid_until
          ++ o.recovery_commitment
          ++ Writer.u32 (length o.receipts)
          ++ write_receipts o.receipts
          ++ payload))

module _ (blake2_256 : Bytes → Bytes) where
  unfoldable pub from_diff_with_dependencies_and_validity :
      Bytes
      → Bytes
      → List ActionReceipt
      → StateDiff
      → List ExternalStateDependency
      → Option ℕ
      → Result WireError RefineOutput
  from_diff_with_dependencies_and_validity parent_root new_root receipts diff dependencies
        validity =
      do
        canonical ← canonicalize_dependencies dependencies
        reject (ltb max_external_state_witnesses (length canonical)) too_many_items
        recovery ← Recovery.new diff
        payload ← Recovery.encode recovery
        ok (record {
          version = managed_state_protocol_version;
          parent_root = parent_root;
          new_root = new_root;
          external_dependencies = canonical;
          transition_valid_until = validity;
          receipts = receipts;
          recovery_commitment = blake2_256 payload;
          recovery_payload = payload;
        })

  unfoldable pub from_diff_with_validity :
      Bytes → Bytes → List ActionReceipt → StateDiff → Option ℕ → Result WireError RefineOutput
  from_diff_with_validity parent_root new_root receipts diff validity =
      from_diff_with_dependencies_and_validity parent_root new_root receipts diff [] validity

  unfoldable pub from_diff :
      Bytes → Bytes → List ActionReceipt → StateDiff → Result WireError RefineOutput
  from_diff parent_root new_root receipts diff =
      from_diff_with_validity parent_root new_root receipts diff none

  -- The tests of `decode` on the output that was read.
  unfoldable pub check_recovery : RefineOutput → Result WireError RefineOutput
  check_recovery o = do
    reject (not (bytes_eq (blake2_256 o.recovery_payload) o.recovery_commitment)) invalid_encoding
    recovery ← Recovery.decode o.recovery_payload
    ok o
