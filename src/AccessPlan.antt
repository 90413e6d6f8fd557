-- ===== src/AccessPlan.antt =====
-- `StateAccessPlanV1` of crates/service-runtime-core/src/lib.rs: the keys that an action may touch.
pub mod Read
pub mod Order
pub mod Made
pub mod RoundTrip
use jam_script.Prelude.{
  ℕ, List, [], ◌∷◌, ◌++◌, Bool, true, false, ◌||◌, ◌&&◌, not, Bytes, bytes_eq, bytes_lt, length,
  ltb, ◌==◌, Result, ok, err, ◌>>=◌, ◌>>◌, reject, if◌then◌else◌,
}
use jam_script.Wire.{WireError, unsorted_keys, too_many_items}
use jam_script.Wire.Limits.{
  managed_state_protocol_version, max_recovery_changes, max_state_key_bytes,
}
use jam_script.Wire.Writer
use jam_script.Wire.Reader
use jam_script.Keys.{wallet_nonce_key}
use jam_script.AccessPlan.Read.{read_keys}

pub record StateAccessPlan : Type 0 where
  pub version : ℕ
  pub keys : List Bytes

-- `Vec::sort`
unfoldable pub insert_key : Bytes → List Bytes → List Bytes
insert_key x [] = x ∷ []
insert_key x (y ∷ ys) = if bytes_lt y x then y ∷ insert_key x ys else x ∷ y ∷ ys

unfoldable pub sort_keys : List Bytes → List Bytes
sort_keys [] = []
sort_keys (x ∷ xs) = insert_key x (sort_keys xs)

-- `Vec::dedup`: an element equal to the one kept last is left out.
unfoldable pub dedup_from : Bytes → List Bytes → List Bytes
dedup_from x [] = []
dedup_from x (y ∷ ys) = if bytes_eq x y then dedup_from x ys else y ∷ dedup_from y ys

unfoldable pub dedup : List Bytes → List Bytes
dedup [] = []
dedup (x ∷ xs) = x ∷ dedup_from x xs

unfoldable pub any_too_long : List Bytes → Bool
any_too_long [] = false
any_too_long (key ∷ keys) = ltb max_state_key_bytes (length key) || any_too_long keys

unfoldable pub from_keys : List Bytes → Result WireError StateAccessPlan
from_keys keys =
    let keys = dedup (sort_keys keys) in
    do
      reject (ltb max_recovery_changes (length keys) || any_too_long keys) too_many_items
      ok (record { version = managed_state_protocol_version; keys = keys })

unfoldable pub for_wallet : Bytes → List Bytes → Result WireError StateAccessPlan
for_wallet sender application_keys = from_keys (wallet_nonce_key sender ∷ application_keys)

unfoldable pub for_public : List Bytes → Result WireError StateAccessPlan
for_public application_keys = from_keys application_keys

unfoldable pub write_keys : List Bytes → Result WireError Bytes
write_keys [] = ok []
write_keys (key ∷ keys) = do
  reject (ltb max_state_key_bytes (length key)) too_many_items
  bytes ← Writer.bytes_u32 key
  more ← write_keys keys
  ok (bytes ++ more)

unfoldable pub encode : StateAccessPlan → Result WireError Bytes
encode plan = do
  reject
      (not (plan.version == managed_state_protocol_version)
        || ltb max_recovery_changes (length plan.keys))
      too_many_items
  keys ← write_keys plan.keys
  ok (plan.version ∷ Writer.u32 (length plan.keys) ++ keys)

unfoldable pub keys_eq : List Bytes → List Bytes → Bool
keys_eq [] [] = true
keys_eq [] (y ∷ ys) = false
keys_eq (x ∷ xs) [] = false
keys_eq (x ∷ xs) (y ∷ ys) = bytes_eq x y && keys_eq xs ys

-- The tests of `decode` once the keys are read.
unfoldable pub check_decoded : List Bytes → Result WireError StateAccessPlan
check_decoded keys = do
  canonical ← from_keys keys
  reject (not (keys_eq canonical.keys keys)) unsorted_keys
  ok (record { version = managed_state_protocol_version; keys = keys })

unfoldable pub decode : Bytes → Result WireError StateAccessPlan
decode bytes =
    Reader.run
      (Reader.◌>>=◌ read_keys
        λ keys. Reader.◌>>=◌ Reader.finish λ _. Reader.lift (check_decoded keys))
      bytes
