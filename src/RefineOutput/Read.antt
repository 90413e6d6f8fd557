-- ===== src/RefineOutput/Read.antt =====
-- The two decoders of `RuntimeRefineOutputV1` in crates/service-runtime-core/src/lib.rs. They begin with the
-- same statements, which are `read_head` here.
use jam_script.Prelude.{
  ℕ, zero, suc, ◌+◌, ◌*◌, List, [], ◌∷◌, Bool, false, not, Option, none, some, Bytes, bytes_eq,
  length, ltb, ◌==◌, Result, ok, err, if◌then◌else◌,
}
use jam_script.Wire.{
  WireError, unsupported_version, too_many_items, invalid_encoding, unsorted_dependencies,
  duplicate_service_id,
}
use jam_script.Wire.Limits.{managed_state_protocol_version, max_recovery_bytes}
use jam_script.Wire.Reader.{
  Read, ◌>>=◌, ◌>>◌, pure, fail, lift, u8, u32, u64, array, bytes_limited, repeat, finish, run,
}
use jam_script.RefineOutput.{
  ActionStatus, applied, failed, rejected, ActionReceipt, ExternalStateDependency, RefineOutput,
  RefineTransitionHeader, check_recovery, max_runtime_actions, max_external_state_witnesses,
}

-- `previous.is_some_and(|previous| service_id < previous)`; `previous` is the service of the dependency
-- that was pushed last.
unfoldable pub is_before : ℕ → Option ExternalStateDependency → Bool
is_before service_id none = false
is_before service_id (some last) = ltb service_id last.service_id

unfoldable pub is_repeated : ℕ → Option ExternalStateDependency → Bool
is_repeated service_id none = false
is_repeated service_id (some last) = last.service_id == service_id

unfoldable pub is_conflict : Bytes → Option ExternalStateDependency → Bool
is_conflict state_root none = false
is_conflict state_root (some last) = not (bytes_eq last.state_root state_root)

-- The loop, after `last` was pushed.
unfoldable pub read_rest : Option ExternalStateDependency → ℕ → Read (List ExternalStateDependency)
read_rest last zero = pure []
read_rest last (suc n) = do
  service_id ← u32
  if is_before service_id last then fail unsorted_dependencies else (do
    state_root ← array 32
    if is_repeated service_id last
        then (if is_conflict state_root last then fail duplicate_service_id else read_rest last n)
        else (do
          let dependency : ExternalStateDependency = record {
            service_id = service_id;
            state_root = state_root;
          }
          more ← read_rest (some dependency) n
          pure (dependency ∷ more)))

unfoldable pub decode_dependencies : Read (List ExternalStateDependency)
decode_dependencies = do
  count ← u32
  if ltb max_external_state_witnesses count then fail too_many_items else read_rest none count

unfoldable pub read_validity : ℕ → Read (Option ℕ)
read_validity tag =
    if tag == 0
    then pure none
    else if tag == 1
    then (do valid_until ← u64; pure (some valid_until))
    else fail invalid_encoding

unfoldable pub read_head : Read RefineTransitionHeader
read_head = do
  version ← u8
  if version == managed_state_protocol_version
      then (do
        parent_root ← array 32
        new_root ← array 32
        external_dependencies ← decode_dependencies
        tag ← u8
        transition_valid_until ← read_validity tag
        recovery_commitment ← array 32
        pure (record {
          version = version;
          parent_root = parent_root;
          new_root = new_root;
          external_dependencies = external_dependencies;
          transition_valid_until = transition_valid_until;
          recovery_commitment = recovery_commitment;
        }))
      else fail unsupported_version

unfoldable pub status_from : ℕ → Result WireError ActionStatus
status_from b =
    if b == 0
    then ok applied
    else if b == 1
    then ok failed
    else if b == 2
    then ok rejected
    else err invalid_encoding

unfoldable pub read_error_code : ℕ → Read (Option ℕ)
read_error_code tag =
    if tag == 0
    then pure none
    else if tag == 1
    then (do error ← u32; pure (some error))
    else fail invalid_encoding

unfoldable pub read_receipt : Read ActionReceipt
read_receipt = do
  action_hash ← array 32
  b ← u8
  status ← lift (status_from b)
  tag ← u8
  error_code ← read_error_code tag
  pure (record { action_hash = action_hash; status = status; error_code = error_code })

unfoldable pub read_receipts : Read (List ActionReceipt)
read_receipts = do
  count ← u32
  if ltb max_runtime_actions count then fail too_many_items else repeat count read_receipt

unfoldable pub skip_error_code : ℕ → Read (Unit {0})
skip_error_code tag =
    if tag == 0
    then pure tt
    else if tag == 1
    then (do error ← u32; pure tt)
    else fail invalid_encoding

-- `status > ActionStatusV1::Rejected as u8`
unfoldable pub skip_receipt : Read (Unit {0})
skip_receipt = do
  action_hash ← array 32
  status ← u8
  if ltb 2 status then fail invalid_encoding else (do tag ← u8; skip_error_code tag)

unfoldable pub skip_receipts : Read (List (Unit {0}))
skip_receipts = do
  count ← u32
  if ltb max_runtime_actions count then fail too_many_items else repeat count skip_receipt

unfoldable pub decode_transition_header : Bytes → Result WireError RefineTransitionHeader
decode_transition_header bytes =
    run
      (do
        header ← read_head
        skipped ← skip_receipts
        payload ← bytes_limited max_recovery_bytes
        finish
        pure header)
      bytes

unfoldable pub read_output : Read RefineOutput
read_output = do
  header ← read_head
  receipts ← read_receipts
  payload ← bytes_limited max_recovery_bytes
  finish
  pure (record {
    version = header.version;
    parent_root = header.parent_root;
    new_root = header.new_root;
    external_dependencies = header.external_dependencies;
    transition_valid_until = header.transition_valid_until;
    receipts = receipts;
    recovery_commitment = header.recovery_commitment;
    recovery_payload = payload;
  })

module _ (blake2_256 : Bytes → Bytes) where
  unfoldable pub decode : Bytes → Result WireError RefineOutput
  decode bytes =
      if ltb (max_recovery_bytes + 128 * max_runtime_actions) (length bytes)
      then err too_many_items
      else run (do output ← read_output; lift (check_recovery blake2_256 output)) bytes
