-- ===== src/ActionResult.antt =====
-- `ScriptActionResultV1` of crates/service-runtime-core/src/lib.rs: what a script answers to an action.
pub mod Encoded
pub mod Decoded
pub mod RoundTrip
use jam_script.Prelude.{
  ℕ, ◌-◌, ◌^◌, List, [], ◌∷◌, Bool, true, false, ◌||◌, ◌&&◌, not, Bytes, length, ltb, leb, ◌==◌,
  Result, ok, err, ◌>>=◌, ◌>>◌, reject, if◌then◌else◌,
}
use jam_script.Wire.{WireError, unsupported_version, too_many_items, invalid_encoding, reserved_key}
use jam_script.Wire.Limits.{max_recovery_bytes, max_state_key_bytes}
use jam_script.Wire.Writer
use jam_script.Wire.Reader
use jam_script.Wire.Reader.{Read}
use jam_script.Keys.{application_key_class}
use jam_script.Entry.{StateChange}
use jam_script.Diff
use jam_script.Diff.{StateDiff}

abbrev pub script_action_result_version : ℕ
script_action_result_version = 1

abbrev pub max_script_action_result_bytes : ℕ
max_script_action_result_bytes = max_recovery_bytes

abbrev pub max_application_abort_code : ℕ
max_application_abort_code = 2 ^ 24 - 1

abbrev pub min_fatal_error_code : ℕ
min_fatal_error_code = 2 ^ 31

pub data ScriptActionResult : Type 0 where
  applied : StateDiff → ScriptActionResult
  abort : ℕ → ScriptActionResult
  need_state : Bytes → ScriptActionResult
  fatal : ℕ → ScriptActionResult

-- `change.key.first() != Some(&APPLICATION_KEY_CLASS_V1)`
unfoldable pub is_foreign : Bytes → Bool
is_foreign [] = true
is_foreign (b ∷ bs) = not (b == application_key_class)

unfoldable pub any_foreign : List StateChange → Bool
any_foreign [] = false
any_foreign (change ∷ rest) = is_foreign change.key || any_foreign rest

unfoldable pub validate_application_diff : StateDiff → Result WireError (Unit {0})
validate_application_diff diff = do
  Diff.validate_canonical diff
  reject (any_foreign diff.changes) reserved_key

unfoldable pub is_abort_code : ℕ → Bool
is_abort_code code = leb 1 code && leb code max_application_abort_code

-- The kind of a result and what follows it.
unfoldable pub encode_body : ScriptActionResult → Result WireError Bytes
encode_body (applied diff) = do
  validate_application_diff diff
  bytes ← Diff.encode diff
  field ← Writer.bytes_u32 bytes
  ok (0 ∷ field)
encode_body (abort code) =
    if is_abort_code code then ok (1 ∷ Writer.u32 code) else err invalid_encoding
encode_body (need_state key) =
    if leb (length key) max_state_key_bytes
    then (do field ← Writer.bytes_u32 key; ok (2 ∷ field))
    else err invalid_encoding
encode_body (fatal code) =
    if leb min_fatal_error_code code then ok (3 ∷ Writer.u32 code) else err invalid_encoding

unfoldable pub encode : ScriptActionResult → Result WireError Bytes
encode result = do
  body ← encode_body result
  reject (ltb max_script_action_result_bytes (length (script_action_result_version ∷ body)))
      too_many_items
  ok (script_action_result_version ∷ body)

unfoldable pub check_applied : StateDiff → Result WireError ScriptActionResult
check_applied diff = do validate_application_diff diff; ok (applied diff)

unfoldable pub check_abort : ℕ → Result WireError ScriptActionResult
check_abort code = if is_abort_code code then ok (abort code) else err invalid_encoding

unfoldable pub check_fatal : ℕ → Result WireError ScriptActionResult
check_fatal code = if ltb code min_fatal_error_code then err invalid_encoding else ok (fatal code)

-- What is read once the kind is known.
unfoldable pub read_kind : ℕ → Read ScriptActionResult
read_kind kind =
    if kind == 0
    then Reader.◌>>=◌
        (Reader.◌>>=◌ (Reader.bytes_limited max_recovery_bytes)
          (λ diff. Reader.lift (Diff.decode diff)))
        (λ diff. Reader.lift (check_applied diff))
    else if kind == 1
    then Reader.◌>>=◌ Reader.u32 (λ code. Reader.lift (check_abort code))
    else if kind == 2
    then Reader.◌>>=◌ (Reader.bytes_limited max_state_key_bytes)
        (λ key. Reader.pure (need_state key))
    else if kind == 3
    then Reader.◌>>=◌ Reader.u32 (λ code. Reader.lift (check_fatal code))
    else Reader.fail invalid_encoding

unfoldable pub read_result : Read ScriptActionResult
read_result = Reader.◌>>=◌ Reader.u8 λ version.
    if version == script_action_result_version
    then Reader.◌>>=◌ Reader.u8 read_kind
    else Reader.fail unsupported_version

unfoldable pub decode : Bytes → Result WireError ScriptActionResult
decode bytes =
    if ltb max_script_action_result_bytes (length bytes)
    then err too_many_items
    else Reader.run
        (Reader.◌>>=◌ read_result λ result. Reader.◌>>=◌ Reader.finish λ _. Reader.lift (ok result))
        bytes
