-- ===== src/ActionResult/Encoded.antt =====
-- The results that `encode` accepts, and their bytes.
use jam_script.Prelude.{
  ◌≤◌, ◌<◌, ◌^◌, ◌∷◌, ◌≡◌, sym, ap, subst, ◌∙◌, Bytes, ok, true, false, reject-eq-ok, >>=-eq-ok,
  length, ltb, leb, le→ltb_not, ltb_not→le, arith, Bool-cases, inl, inr,
}
use jam_script.Wire.{too_many_items}
use jam_script.Wire.Limits.{max_recovery_bytes, max_state_key_bytes}
use jam_script.Wire.Writer
use jam_script.Wire.Reader.Rules.Fields.{prefixed, length-prefixed}
use jam_script.Entry.Codec.{bytes_u32-prefixed}
use jam_script.Diff
use jam_script.Diff.{StateDiff}
use jam_script.Diff.Canonical.{
  IsCanonical, validate_canonical→IsCanonical, IsCanonical→validate_canonical,
}
use jam_script.Diff.RoundTrip.{changes_bytes, encode-IsCanonical}
use jam_script.Recovery.RoundTrip.{diff_field}
use jam_script.ActionResult.{
  ScriptActionResult, applied, abort, need_state, fatal, any_foreign, validate_application_diff,
  is_abort_code, encode_body, encode,
}

-- A canonical diff of application keys alone.
pub record IsApplicationDiff (d : StateDiff) : Type 0 where
  pub canonical : IsCanonical d
  pub own : any_foreign d.changes ≡ false

pub validate→IsApplicationDiff :
    (d : StateDiff) → validate_application_diff d ≡ ok tt → IsApplicationDiff d
unfolding validate_application_diff
validate→IsApplicationDiff d h =
    let (u, h₁, h₂) = >>=-eq-ok (Diff.validate_canonical d) _ h in
    record { canonical = validate_canonical→IsCanonical d h₁; own = ground arith }

pub IsApplicationDiff→validate :
    (d : StateDiff) → IsApplicationDiff d → validate_application_diff d ≡ ok tt
unfolding validate_application_diff
IsApplicationDiff→validate d h = rw (IsCanonical→validate_canonical d h.canonical, h.own)

-- The results that can be sent.
abbrev pub IsResult : ScriptActionResult → Type 0
IsResult (applied d) = IsApplicationDiff d
IsResult (abort code) = is_abort_code code ≡ true
IsResult (need_state key) = length key ≤ max_state_key_bytes
IsResult (fatal code) = (2 ^ 31 ≤ code) × (code < 2 ^ 32)

abbrev pub body_bytes : ScriptActionResult → Bytes
body_bytes (applied d) = 0 ∷ diff_field d
body_bytes (abort code) = 1 ∷ Writer.u32 code
body_bytes (need_state key) = 2 ∷ prefixed key
body_bytes (fatal code) = 3 ∷ Writer.u32 code

-- The codes are numbers of 32 bits.
abbrev pub InRange : ScriptActionResult → Type 0
InRange (applied d) = Unit
InRange (abort code) = code < 2 ^ 32
InRange (need_state key) = Unit
InRange (fatal code) = code < 2 ^ 32

bytes_u32-eq-ok : (b field : Bytes) → Writer.bytes_u32 b ≡ ok field → field ≡ prefixed b
unfolding Writer.bytes_u32 Writer.u32_len
bytes_u32-eq-ok b field h = ground arith

encode_body-eq-ok :
    (r : ScriptActionResult) (body : Bytes)
    → InRange r
    → encode_body r ≡ ok body
    → IsResult r × (body ≡ body_bytes r)
unfolding encode_body
encode_body-eq-ok (applied d) body range h =
    let (u, h₁, h₂) = >>=-eq-ok (validate_application_diff d) _ h in
    let valid = validate→IsApplicationDiff d h₁ in
    let (bytes, h₃, h₄) = >>=-eq-ok (Diff.encode d) _ h₂ in
    let (field, h₅, h₆) = >>=-eq-ok (Writer.bytes_u32 bytes) _ h₄ in
    let same : changes_bytes d.changes ≡ bytes = cc (encode-IsCanonical d valid.canonical, h₃) in
    let out : 0 ∷ field ≡ body = cc h₆ in
    let read : field ≡ diff_field d = bytes_u32-eq-ok bytes field h₅ ∙ ap prefixed (sym same) in
    (valid, sym out ∙ ap (λ (b : Bytes). 0 ∷ b) read)
encode_body-eq-ok (abort code) body range h = elim (Bool-cases (is_abort_code code)) [
  | inl allowed ↦ (allowed, ground arith)
  | inr denied ↦ absurd (ground arith)
]
encode_body-eq-ok (need_state key) body range h =
    elim (Bool-cases (leb (length key) max_state_key_bytes)) [
      | inl allowed ↦
          let (field, h₁, h₂) =
            >>=-eq-ok (Writer.bytes_u32 key) (λ f. ok (2 ∷ f)) (rw allowed at h) in
          let out : 2 ∷ field ≡ body = cc h₂ in
          (ground arith, sym out ∙ ap (λ (b : Bytes). 2 ∷ b) (bytes_u32-eq-ok key field h₁))
      | inr denied ↦ absurd (ground arith)
    ]
encode_body-eq-ok (fatal code) body range h = elim (Bool-cases (leb (2 ^ 31) code)) [
  | inl allowed ↦ ((ground arith, range), ground arith)
  | inr denied ↦ absurd (ground arith)
]

pub encode-eq-ok :
    (r : ScriptActionResult) (bytes : Bytes)
    → InRange r
    → encode r ≡ ok bytes
    → IsResult r × (bytes ≡ 1 ∷ body_bytes r) × (length bytes ≤ max_recovery_bytes)
unfolding encode
encode-eq-ok r bytes range h =
    let (body, h₁, h₂) = >>=-eq-ok (encode_body r) _ h in
    let (short, h₃) =
      reject-eq-ok (ltb max_recovery_bytes (length (1 ∷ body))) too_many_items (ok (1 ∷ body)) h₂ in
    let (valid, same) = encode_body-eq-ok r body range h₁ in
    let out : 1 ∷ body ≡ bytes = cc h₃ in
    (
      valid,
      sym out ∙ ap (λ (b : Bytes). 1 ∷ b) same,
      subst (λ (b : Bytes). length b ≤ max_recovery_bytes) out
          (ltb_not→le max_recovery_bytes (length (1 ∷ body)) short),
    )

encode_body-IsResult :
    (r : ScriptActionResult)
    → IsResult r
    → length (body_bytes r) ≤ max_recovery_bytes
    → encode_body r ≡ ok (body_bytes r)
unfolding encode_body
encode_body-IsResult (applied d) h short = rw (
  IsApplicationDiff→validate d h,
  encode-IsCanonical d h.canonical,
  bytes_u32-prefixed (changes_bytes d.changes)
      (omega (arith, short, length-prefixed (changes_bytes d.changes))),
)
encode_body-IsResult (abort code) h short = rw h
encode_body-IsResult (need_state key) h short =
    let fits : leb (length key) max_state_key_bytes ≡ true = ground arith in
    rw (fits, bytes_u32-prefixed key (omega (arith, h)))
encode_body-IsResult (fatal code) h short =
    let fits : leb (2 ^ 31) code ≡ true = ground arith in rw fits

pub encode-IsResult :
    (r : ScriptActionResult)
    → IsResult r
    → length (1 ∷ body_bytes r) ≤ max_recovery_bytes
    → encode r ≡ ok (1 ∷ body_bytes r)
unfolding encode
encode-IsResult r h short = rw (
  encode_body-IsResult r h (omega (arith, short)),
  le→ltb_not max_recovery_bytes (length (1 ∷ body_bytes r)) short,
)
