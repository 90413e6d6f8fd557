-- ===== src/AccessPlan/Made.antt =====
-- The plans that `from_keys` and `for_wallet` make.
use jam_script.Prelude.{
  ◌≤◌, List, [], ◌∷◌, ◌≡◌, refl, sym, ap, subst, ◌∙◌, true, false, ◌||◌, Bytes, ok, reject-eq-ok,
  All, length, ltb, le→ltb_not, arith, bytes_eq_refl,
}
use jam_script.Wire.{too_many_items}
use jam_script.Wire.Limits.{max_recovery_changes, max_state_key_bytes}
use jam_script.Keys.{wallet_nonce_key}
use jam_script.AccessPlan.{StateAccessPlan, sort_keys, dedup, any_too_long, from_keys, for_wallet}
use jam_script.AccessPlan.Order.{
  StrictlySortedKeys, dedup-sort_keys, dedup-sort_keys-same, contains, contains-dedup-sort_keys,
}

abbrev pub KeyFits : Bytes → Type 0
KeyFits key = length key ≤ max_state_key_bytes

-- A plan of the current version with few, short keys, each above the one before it.
pub record IsPlan (p : StateAccessPlan) : Type 0 where
  pub version : p.version ≡ 1
  pub few : length p.keys ≤ max_recovery_changes
  pub fits : All KeyFits p.keys
  pub sorted : StrictlySortedKeys p.keys

any_too_long→All : (keys : List Bytes) → any_too_long keys ≡ false → All KeyFits keys
unfolding any_too_long
any_too_long→All [] h = tt
any_too_long→All (k ∷ ks) h =
    let rest : any_too_long ks ≡ false = ground arith in (ground arith, any_too_long→All ks rest)

All→any_too_long : (keys : List Bytes) → All KeyFits keys → any_too_long keys ≡ false
unfolding any_too_long
All→any_too_long [] h = refl
All→any_too_long (k ∷ ks) (h, hs) =
    rw (le→ltb_not max_state_key_bytes (length k) h) (All→any_too_long ks hs)

-- If `from_keys` makes a plan, its keys strictly increase, are within the limits on their number
-- and length, and are exactly the keys that were given.
pub from_keys_lem :
    (keys : List Bytes) (p : StateAccessPlan)
    → from_keys keys ≡ ok p
    → IsPlan p × ((k : Bytes) → contains k p.keys ≡ contains k keys)
unfolding from_keys
from_keys_lem keys p h =
    let made : StateAccessPlan = record { version = 1; keys = dedup (sort_keys keys) } in
    let (small, h₁) =
      reject-eq-ok (ltb max_recovery_changes (length made.keys) || any_too_long made.keys)
        too_many_items (ok made) h in
    let same : made ≡ p = cc h₁ in
    let short : any_too_long made.keys ≡ false = ground arith in
    let few : length made.keys ≤ max_recovery_changes = ground arith in
    let valid : IsPlan made = record {
      version = refl;
      few = few;
      fits = any_too_long→All made.keys short;
      sorted = dedup-sort_keys keys;
    } in
    (
      subst IsPlan same valid,
      λ k.
          ap (λ (q : StateAccessPlan). contains k q.keys) (sym same)
          ∙ contains-dedup-sort_keys k keys,
    )

pub from_keys-IsPlan : (p : StateAccessPlan) → IsPlan p → from_keys p.keys ≡ ok p
unfolding from_keys
from_keys-IsPlan p h =
    let one = sym h.version in
    rw
      (
        dedup-sort_keys-same p.keys h.sorted,
        le→ltb_not max_recovery_changes (length p.keys) h.few,
        All→any_too_long p.keys h.fits,
      )
      (λ i. ok (record { version = one i; keys = p.keys }))

-- If `for_wallet` makes a plan, it contains the key of the sender's nonce and every key that the
-- application names.
for_wallet_lem :
    (sender : Bytes) (keys : List Bytes) (p : StateAccessPlan)
    → for_wallet sender keys ≡ ok p
    → (contains (wallet_nonce_key sender) p.keys ≡ true)
      × ((k : Bytes) → contains k keys ≡ true → contains k p.keys ≡ true)
unfolding for_wallet
for_wallet_lem sender keys p h =
    let (valid, same) = from_keys_lem (wallet_nonce_key sender ∷ keys) p h in
    (
      same (wallet_nonce_key sender) ∙ rw (bytes_eq_refl (wallet_nonce_key sender)) refl,
      λ k c. same k ∙ ground (arith, c),
    )
