-- ===== src/ActionResult/Decoded.antt =====
-- What the decoder of a result reads and consumes.
use jam_script.Prelude.{
  ℕ, ◌≤◌, ◌^◌, [], ◌∷◌, ◌++◌, append-nil, ◌≡◌, refl, sym, ap, subst, ◌∙◌, Bytes, ok, true,
  >>=-eq-ok, length, ltb, le→ltb_not, ltb_not→le, ◌==◌, arith, Bool-cases, inl, inr,
}
use jam_script.Wire.{unsupported_version, invalid_encoding}
use jam_script.Wire.Limits.{max_recovery_bytes, max_state_key_bytes}
use jam_script.Wire.Writer
use jam_script.Wire.Reader
use jam_script.Wire.Reader.Rules.{
  Reads, Consumes, Reads-bind, Reads-lift, Reads-pure, Reads-cast, Consumes-bind, Consumes-if,
  Consumes-fail, Consumes-mono, Consumes-lift_end, Consumes-pure,
}
use jam_script.Wire.Reader.Rules.Fields.{
  Reads-u8, Consumes-u8, Reads-u32, Consumes-u32, prefixed, length-prefixed, Reads-bytes_limited,
  Consumes-bytes_limited,
}
use jam_script.Diff
use jam_script.Diff.{StateDiff}
use jam_script.Diff.RoundTrip.{changes_bytes}
use jam_script.Recovery.RoundTrip.{diff_field, Reads-diff_field, Consumes-diff_field}
use jam_script.ActionResult.{
  ScriptActionResult, applied, abort, need_state, fatal, validate_application_diff, is_abort_code,
  check_applied, check_abort, check_fatal, read_kind, read_result,
}
use jam_script.ActionResult.Encoded.{
  IsApplicationDiff, validate→IsApplicationDiff, IsApplicationDiff→validate, IsResult, body_bytes,
  InRange,
}

check_applied-IsApplicationDiff :
    (d : StateDiff) → IsApplicationDiff d → check_applied d ≡ ok (applied d)
unfolding check_applied
check_applied-IsApplicationDiff d h = rw (IsApplicationDiff→validate d h)

-- A version and a kind before what the kind reads.
Reads-kind :
    (kind : ℕ) (rest : Bytes) (r : ScriptActionResult)
    → Reads (read_kind kind) rest r
    → Reads read_result (1 ∷ kind ∷ rest) r
unfolding read_result
Reads-kind kind rest r h =
    Reads-bind Reader.u8 _ (1 ∷ []) (kind ∷ rest) (Reads-u8 1)
      (Reads-bind Reader.u8 read_kind (kind ∷ []) rest (Reads-u8 kind) h)

pub Reads-read_result :
    (r : ScriptActionResult)
    → IsResult r
    → InRange r
    → length (1 ∷ body_bytes r) ≤ max_recovery_bytes
    → Reads read_result (1 ∷ body_bytes r) r
unfolding read_kind check_abort check_fatal
Reads-read_result (applied d) h range short =
    let size = length-prefixed (changes_bytes d.changes) in
    Reads-kind 0 (diff_field d) (applied d) (
      Reads-cast
        (Reads-bind _ (λ diff. Reader.lift (check_applied diff)) (diff_field d) []
          (Reads-diff_field max_recovery_bytes d h.canonical (omega (arith, short, size))
            (omega (arith, short, size)))
          (Reads-lift (check_applied d) (check_applied-IsApplicationDiff d h)))
        (append-nil (diff_field d)))
Reads-read_result (abort code) h range short = Reads-kind 1 (Writer.u32 code) (abort code) (
    Reads-cast
      (Reads-bind Reader.u32 (λ c. Reader.lift (check_abort c)) (Writer.u32 code) []
        (Reads-u32 code range) (Reads-lift (check_abort code) (rw h refl)))
      (append-nil (Writer.u32 code)))
Reads-read_result (need_state key) h range short = Reads-kind 2 (prefixed key) (need_state key) (
    Reads-cast
      (Reads-bind (Reader.bytes_limited max_state_key_bytes) (λ k. Reader.pure (need_state k))
        (prefixed key) [] (Reads-bytes_limited max_state_key_bytes key h (omega (arith, h)))
        (Reads-pure (need_state key)))
      (append-nil (prefixed key)))
Reads-read_result (fatal code) h range short = Reads-kind 3 (Writer.u32 code) (fatal code) (
    Reads-cast
      (Reads-bind Reader.u32 (λ c. Reader.lift (check_fatal c)) (Writer.u32 code) []
        (Reads-u32 code range)
        (Reads-lift (check_fatal code) (rw (le→ltb_not code (2 ^ 31) h.0) refl)))
      (append-nil (Writer.u32 code)))

check_applied-eq-ok :
    (d : StateDiff) (r : ScriptActionResult)
    → check_applied d ≡ ok r
    → (applied d ≡ r) × IsApplicationDiff d
unfolding check_applied
check_applied-eq-ok d r h =
    let (u, h₁, h₂) = >>=-eq-ok (validate_application_diff d) _ h in
    (cc h₂, validate→IsApplicationDiff d h₁)

check_abort-eq-ok :
    (code : ℕ) (r : ScriptActionResult)
    → check_abort code ≡ ok r
    → (abort code ≡ r) × (is_abort_code code ≡ true)
unfolding check_abort
check_abort-eq-ok code r h = elim (Bool-cases (is_abort_code code)) [
  | inl allowed ↦ (cc (rw allowed at h), allowed)
  | inr denied ↦ absurd (ground arith)
]

check_fatal-eq-ok :
    (code : ℕ) (r : ScriptActionResult)
    → check_fatal code ≡ ok r
    → (fatal code ≡ r) × (2 ^ 31 ≤ code)
unfolding check_fatal
check_fatal-eq-ok code r h = elim (Bool-cases (ltb code (2 ^ 31))) [
  | inl small ↦ absurd (ground arith)
  | inr large ↦ (cc (rw large at h), ltb_not→le code (2 ^ 31) large)
]

-- What the kinds consume.
abbrev Written : ℕ → ScriptActionResult → Bytes → Type 0
Written kind r u = (kind ∷ u ≡ body_bytes r) × IsResult r

Consumes-applied :
    Consumes
      (Reader.◌>>=◌
        (Reader.◌>>=◌ (Reader.bytes_limited max_recovery_bytes) (λ b. Reader.lift (Diff.decode b)))
        (λ diff. Reader.lift (check_applied diff)))
      (Written 0)
Consumes-applied = Consumes-bind _ _ (Consumes-diff_field max_recovery_bytes) λ d u hu.
    Consumes-lift_end (check_applied d) λ r e.
      let (same, valid) = check_applied-eq-ok d r e in
      subst (λ x. Written 0 x (u ++ [])) same
        (ap (λ (b : Bytes). 0 ∷ b) (append-nil u ∙ hu.0), valid)

Consumes-abort :
    Consumes (Reader.◌>>=◌ Reader.u32 (λ code. Reader.lift (check_abort code))) (Written 1)
Consumes-abort = Consumes-bind Reader.u32 _ Consumes-u32 λ code u hu.
    Consumes-lift_end (check_abort code) λ r e.
      let (same, valid) = check_abort-eq-ok code r e in
      subst (λ x. Written 1 x (u ++ [])) same
        (ap (λ (b : Bytes). 1 ∷ b) (append-nil u ∙ hu.0), valid)

Consumes-need_state :
    Consumes
      (Reader.◌>>=◌
        (Reader.bytes_limited max_state_key_bytes)
        (λ key. Reader.pure (need_state key)))
      (Written 2)
Consumes-need_state =
    Consumes-bind (Reader.bytes_limited max_state_key_bytes) _
      (Consumes-bytes_limited max_state_key_bytes)
      λ key u hu.
        Consumes-pure (need_state key) (ap (λ (b : Bytes). 2 ∷ b) (append-nil u ∙ hu.0), hu.1)

Consumes-fatal :
    Consumes (Reader.◌>>=◌ Reader.u32 (λ code. Reader.lift (check_fatal code))) (Written 3)
Consumes-fatal = Consumes-bind Reader.u32 _ Consumes-u32 λ code u hu.
    Consumes-lift_end (check_fatal code) λ r e.
      let (same, large) = check_fatal-eq-ok code r e in
      subst (λ x. Written 3 x (u ++ [])) same
        (ap (λ (b : Bytes). 3 ∷ b) (append-nil u ∙ hu.0), (large, hu.1))

at_kind :
    {m : Reader.Read ScriptActionResult} (kind n : ℕ)
    → kind ≡ n
    → Consumes m (Written n)
    → Consumes m (Written kind)
at_kind {m} kind n e h = subst (λ k. Consumes m (Written k)) (sym e) h

Consumes-read_kind : (kind : ℕ) → Consumes (read_kind kind) (Written kind)
unfolding read_kind
Consumes-read_kind kind =
    Consumes-if (kind == 0) _ _ (λ h. at_kind kind 0 (ground arith) Consumes-applied)
      λ h.
        Consumes-if (kind == 1) _ _ (λ h. at_kind kind 1 (ground arith) Consumes-abort)
          λ h.
            Consumes-if (kind == 2) _ _ (λ h. at_kind kind 2 (ground arith) Consumes-need_state)
              λ h.
                Consumes-if (kind == 3) _ _ (λ h. at_kind kind 3 (ground arith) Consumes-fatal)
                  λ h. Consumes-fail invalid_encoding

pub Consumes-read_result : Consumes read_result (λ r u. (u ≡ 1 ∷ body_bytes r) × IsResult r)
unfolding read_result
Consumes-read_result = Consumes-bind Reader.u8 _ Consumes-u8 λ version u hu.
    Consumes-if (version == 1) _ _
      (λ one. Consumes-bind Reader.u8 read_kind Consumes-u8 λ kind v hv.
        Consumes-mono (Consumes-read_kind kind) λ r w hw.
          let is_one : version ≡ 1 = ground arith in
          (rw (hu.0, hv.0, is_one) (ap (λ (b : Bytes). 1 ∷ b) hw.0), hw.1))
      (λ other. Consumes-fail unsupported_version)
