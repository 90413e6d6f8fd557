-- ===== src/Diff/Canonical.antt =====
-- What `validate_limits` and `validate_canonical` of crates/service-runtime-core/src/lib.rs accept.
use jam_script.Prelude.{
  ◌≤◌, List, [], ◌∷◌, Option, none, some, ◌≡◌, refl, false, ok, All, Bytes, length, ltb, arith,
  le→ltb_not, ltb_not→le, Bool-cases, inl, inr, >>=-eq-ok,
}
use jam_script.Wire.Limits.{max_recovery_changes, max_state_key_bytes, max_state_value_bytes}
use jam_script.Keys.{is_reserved_service_storage_key}
use jam_script.Entry.{Entry}
use jam_script.Entry.Order.{StrictlySorted, check_order→StrictlySorted, StrictlySorted→check_order}
use jam_script.Entry.Codec.{ValueFits, EntryFits}
use jam_script.Diff.{
  StateDiff, value_too_long, check_change, check_changes, validate_limits, validate_canonical,
}

-- A change that an application may record.
abbrev pub IsAllowed : Entry → Type 0
IsAllowed change = (is_reserved_service_storage_key change.key ≡ false) × EntryFits change

pub record IsWithinLimits (d : StateDiff) : Type 0 where
  pub few : length d.changes ≤ max_recovery_changes
  pub allowed : All IsAllowed d.changes

pub record IsCanonical (d : StateDiff) : Type 0 where
  pub limits : IsWithinLimits d
  pub sorted : StrictlySorted d.changes

pub ValueFits→value : (v : Option Bytes) → ValueFits v → value_too_long v ≡ false
unfolding value_too_long
ValueFits→value none h = refl
ValueFits→value (some value) h = le→ltb_not max_state_value_bytes (length value) h

pub value→ValueFits : (v : Option Bytes) → value_too_long v ≡ false → ValueFits v
unfolding value_too_long
value→ValueFits none h = tt
value→ValueFits (some value) h = ltb_not→le max_state_value_bytes (length value) h

check_change→IsAllowed : (e : Entry) → check_change e ≡ ok tt → IsAllowed e
unfolding check_change
check_change→IsAllowed e h =
    let long : value_too_long e.value ≡ false = ground arith in
    (ground arith, (ground arith, value→ValueFits e.value long))

IsAllowed→check_change : (e : Entry) → IsAllowed e → check_change e ≡ ok tt
unfolding check_change
IsAllowed→check_change e (hr, (hk, hv)) =
    rw (hr, le→ltb_not max_state_key_bytes (length e.key) hk, ValueFits→value e.value hv)

check_changes→All : (es : List Entry) → check_changes es ≡ ok tt → All IsAllowed es
unfolding check_changes
check_changes→All [] h = tt
check_changes→All (e ∷ es) h =
    let (u, h₁, h₂) = >>=-eq-ok (check_change e) _ h in
    (check_change→IsAllowed e h₁, check_changes→All es h₂)

All→check_changes : (es : List Entry) → All IsAllowed es → check_changes es ≡ ok tt
unfolding check_changes
All→check_changes [] h = refl
All→check_changes (e ∷ es) (h, hs) = rw (IsAllowed→check_change e h) (All→check_changes es hs)

pub validate_limits→IsWithinLimits : (d : StateDiff) → validate_limits d ≡ ok tt → IsWithinLimits d
unfolding validate_limits
validate_limits→IsWithinLimits d h =
    elim (Bool-cases (ltb max_recovery_changes (length d.changes))) [
      | inl many ↦ ground arith
      | inr few ↦ record {
        few = ltb_not→le max_recovery_changes (length d.changes) few;
        allowed = check_changes→All d.changes (ground arith);
      }
    ]

pub IsWithinLimits→validate_limits : (d : StateDiff) → IsWithinLimits d → validate_limits d ≡ ok tt
unfolding validate_limits
IsWithinLimits→validate_limits d h =
    rw (le→ltb_not max_recovery_changes (length d.changes) h.few)
      (All→check_changes d.changes h.allowed)

pub validate_canonical→IsCanonical : (d : StateDiff) → validate_canonical d ≡ ok tt → IsCanonical d
unfolding validate_canonical
validate_canonical→IsCanonical d h =
    let (u, h₁, h₂) = >>=-eq-ok (validate_limits d) _ h in
    record {
      limits = validate_limits→IsWithinLimits d h₁;
      sorted = check_order→StrictlySorted d.changes h₂;
    }

pub IsCanonical→validate_canonical : (d : StateDiff) → IsCanonical d → validate_canonical d ≡ ok tt
unfolding validate_canonical
IsCanonical→validate_canonical d h =
    rw (IsWithinLimits→validate_limits d h.limits) (StrictlySorted→check_order d.changes h.sorted)
