-- ===== src/AccessPlan/RoundTrip.antt =====
-- The bytes of a plan.
use jam_script.Prelude.{
  ◌*◌, ◌≤◌, List, [], ◌∷◌, ◌++◌, ◌≡◌, refl, sym, ap, subst, ◌∙◌, not, Bytes, IsBytes, usize_max, ok,
  reject-eq-ok, >>=-eq-ok, All, length, length-append, flat_map, ltb, le→ltb_not, ◌==◌, arith,
  length-le_bytes, le_bytes,
}
use jam_script.Wire.{unsupported_version, too_many_items, unsorted_keys}
use jam_script.Wire.Limits.{
  managed_state_protocol_version, max_recovery_changes, max_state_key_bytes,
}
use jam_script.Wire.Writer
use jam_script.Wire.Reader
use jam_script.Wire.Reader.Rules.{
  Reads, Consumes, Reads-bind, Consumes-bind, Consumes-if, Consumes-fail, Consumes-mono,
}
use jam_script.Wire.Reader.Rules.Fields.{
  Reads-u8, Reads-u32, Consumes-u8, Consumes-u32, prefixed, length-prefixed, Reads-bytes_limited,
  Consumes-bytes_limited, Reads-repeat, Consumes-repeat,
}
use jam_script.Wire.Reader.Rules.Whole.{whole-Reads, whole-Consumes}
use jam_script.Entry.Codec.{bytes_u32-prefixed}
use jam_script.AccessPlan.{
  StateAccessPlan, from_keys, write_keys, encode, keys_eq, check_decoded, decode,
}
use jam_script.AccessPlan.Read.{read_keys}
use jam_script.AccessPlan.Order.{StrictlySortedKeys, keys_eq_refl, keys_eq→eq}
use jam_script.AccessPlan.Made.{KeyFits, IsPlan, from_keys_lem, from_keys-IsPlan}

-- The bytes of a plan.
abbrev pub plan_bytes : List Bytes → Bytes
plan_bytes keys = 1 ∷ Writer.u32 (length keys) ++ flat_map prefixed keys

write_keys-flat_map :
    (keys : List Bytes) → All KeyFits keys → write_keys keys ≡ ok (flat_map prefixed keys)
unfolding write_keys
write_keys-flat_map [] h = refl
write_keys-flat_map (k ∷ ks) (h, hs) = rw (
  le→ltb_not max_state_key_bytes (length k) h,
  bytes_u32-prefixed k (omega (arith, h)),
  write_keys-flat_map ks hs,
)

pub encode-IsPlan : (p : StateAccessPlan) → IsPlan p → encode p ≡ ok (plan_bytes p.keys)
unfolding encode
encode-IsPlan p h = rw (
  h.version,
  le→ltb_not max_recovery_changes (length p.keys) h.few,
  write_keys-flat_map p.keys h.fits,
)

Reads-read_keys :
    (keys : List Bytes)
    → length keys ≤ max_recovery_changes
    → All KeyFits keys
    → Reads read_keys (plan_bytes keys) keys
unfolding read_keys
Reads-read_keys keys few h =
    Reads-bind Reader.u8 _ (1 ∷ []) (Writer.u32 (length keys) ++ flat_map prefixed keys)
      (Reads-u8 1)
      (Reads-bind Reader.u32 _ (Writer.u32 (length keys)) (flat_map prefixed keys)
        (Reads-u32 (length keys) (omega arith))
        (rw (le→ltb_not max_recovery_changes (length keys) few) (
          Reads-repeat (Reader.bytes_limited max_state_key_bytes) prefixed keys
            (All-Reads keys h))))
  where
    All-Reads :
        (ks : List Bytes)
        → All KeyFits ks
        → All (λ k. Reads (Reader.bytes_limited max_state_key_bytes) (prefixed k) k) ks
    All-Reads [] h = tt
    All-Reads (k ∷ ks) (h, hs) =
        (Reads-bytes_limited max_state_key_bytes k h (omega (arith, h)), All-Reads ks hs)

Consumes-read_keys : Consumes read_keys (λ keys u. u ≡ plan_bytes keys)
unfolding read_keys
Consumes-read_keys = Consumes-bind Reader.u8 _ Consumes-u8 λ version u hu.
    Consumes-if (version == managed_state_protocol_version) _ _
      (λ one. Consumes-bind Reader.u32 _ Consumes-u32 λ count v hv.
        Consumes-if (ltb max_recovery_changes count) _ _ (λ p. Consumes-fail too_many_items)
          λ p.
            Consumes-mono
              (Consumes-repeat (Reader.bytes_limited max_state_key_bytes) prefixed {P = KeyFits}
                (Consumes-mono (Consumes-bytes_limited max_state_key_bytes)
                  (λ k w hk. (hk.0, hk.1)))
                count)
              (λ keys w hw.
                let is_one : version ≡ 1 = ground arith in
                rw (hu.0, hv.0, hw.0, hw.1, is_one) refl))
      (λ other. Consumes-fail unsupported_version)

length-keys :
    (keys : List Bytes) → All KeyFits keys → length (flat_map prefixed keys) ≤ 4100 * length keys
length-keys [] h = omega arith
length-keys (k ∷ ks) (h, hs) =
    omega (
      arith,
      length-prefixed k,
      length-keys ks hs,
      length-append (prefixed k) (flat_map prefixed ks),
    )

length-plan_bytes :
    (keys : List Bytes)
    → length keys ≤ max_recovery_changes
    → All KeyFits keys
    → length (plan_bytes keys) ≤ usize_max
unfolding Writer.u32
length-plan_bytes keys few h = omega (
  arith,
  length-keys keys h,
  length-append (le_bytes 4 (length keys)) (flat_map prefixed keys),
  length-le_bytes 4 (length keys),
)

check_decoded-IsPlan : (p : StateAccessPlan) → IsPlan p → check_decoded p.keys ≡ ok p
unfolding check_decoded
check_decoded-IsPlan p h =
    let one = sym h.version in
    rw (from_keys-IsPlan p h, keys_eq_refl p.keys)
      (λ i. ok (record { version = one i; keys = p.keys }))

-- Every plan that `from_keys` makes is encoded, and `decode` of the encoding returns it.
pub decode-encode_plan :
    (keys : List Bytes) (p : StateAccessPlan)
    → from_keys keys ≡ ok p
    → (bytes : Bytes) × (encode p ≡ ok bytes) × (decode bytes ≡ ok p)
unfolding decode
decode-encode_plan keys p h =
    let valid = (from_keys_lem keys p h).0 in
    (
      plan_bytes p.keys,
      encode-IsPlan p valid,
      whole-Reads read_keys check_decoded (plan_bytes p.keys)
            (length-plan_bytes p.keys valid.few valid.fits)
            (Reads-read_keys p.keys valid.few valid.fits)
          ∙ check_decoded-IsPlan p valid,
    )

check_decoded-eq-ok :
    (keys : List Bytes) (p : StateAccessPlan)
    → check_decoded keys ≡ ok p
    → IsPlan p × (p.keys ≡ keys)
unfolding check_decoded
check_decoded-eq-ok keys p h =
    let (canonical, h₁, h₂) = >>=-eq-ok (from_keys keys) _ h in
    let made : StateAccessPlan = record { version = 1; keys = keys } in
    let (equal, h₃) = reject-eq-ok (not (keys_eq canonical.keys keys)) unsorted_keys (ok made) h₂ in
    let same : canonical.keys ≡ keys = keys_eq→eq canonical.keys keys (ground arith) in
    let out : made ≡ p = cc h₃ in
    let valid = (from_keys_lem keys canonical h₁).0 in
    let valid' : IsPlan made = record {
      version = refl;
      few = subst (λ (ks : List Bytes). length ks ≤ max_recovery_changes) same valid.few;
      fits = subst (All KeyFits) same valid.fits;
      sorted = subst StrictlySortedKeys same valid.sorted;
    } in
    (subst IsPlan out valid', ap (λ (q : StateAccessPlan). q.keys) (sym out))

-- On any input of bytes, if `decode` returns a plan, its keys strictly increase and are within the
-- limits, and `encode` gives back the input.
pub encode-decode-IsPlan :
    (bytes : Bytes) (p : StateAccessPlan)
    → IsBytes bytes
    → decode bytes ≡ ok p
    → (encode p ≡ ok bytes) × IsPlan p
unfolding decode
encode-decode-IsPlan bytes p all h =
    let (keys, e, checked) =
      whole-Consumes read_keys check_decoded bytes p Consumes-read_keys all h in
    let (valid, same) = check_decoded-eq-ok keys p checked in
    (encode-IsPlan p valid ∙ ap ok (rw same (sym e)), valid)
