-- ===== src/ActionResult/RoundTrip.antt =====
-- Results are read back as they were written, and a decoded diff touches only application keys.
use jam_script.Prelude.{
  ◌≤◌, ◌∷◌, ◌≡◌, sym, ap, subst, ◌∙◌, Bytes, IsBytes, ok, length, ltb, le→ltb_not, ltb_not→le,
  arith, Bool-cases, inl, inr,
}
use jam_script.Wire.Limits.{max_recovery_bytes}
use jam_script.Wire.Reader.Rules.Whole.{whole-Reads, whole-Consumes}
use jam_script.ActionResult.{ScriptActionResult, encode, read_result, decode}
use jam_script.ActionResult.Encoded.{IsResult, body_bytes, InRange, encode-eq-ok, encode-IsResult}
use jam_script.ActionResult.Decoded.{Reads-read_result, Consumes-read_result}

-- If the codes of a result fit in 32 bits and `encode` succeeds on it, `decode` of the output
-- returns the result.
pub decode-encode_result :
    (r : ScriptActionResult) (bytes : Bytes) → InRange r → encode r ≡ ok bytes → decode bytes ≡ ok r
unfolding decode
decode-encode_result r bytes range h =
    let (valid, e, short) = encode-eq-ok r bytes range h in
    let fits : length (1 ∷ body_bytes r) ≤ max_recovery_bytes =
      subst (λ (b : Bytes). length b ≤ max_recovery_bytes) e short in
    rw (e, le→ltb_not max_recovery_bytes (length (1 ∷ body_bytes r)) fits)
      (whole-Reads read_result (λ result. ok result) (1 ∷ body_bytes r) (omega (arith, fits))
        (Reads-read_result r valid range fits))

-- On any input of bytes, if `decode` returns a result, `encode` of it gives back the input, a diff
-- in it is canonical with application keys alone, and a code or key in it is within its limits.
pub encode-decode-IsResult :
    (bytes : Bytes) (r : ScriptActionResult)
    → IsBytes bytes
    → decode bytes ≡ ok r
    → (encode r ≡ ok bytes) × IsResult r
unfolding decode
encode-decode-IsResult bytes r all h = elim (Bool-cases (ltb max_recovery_bytes (length bytes))) [
  | inl long ↦ ground arith
  | inr short ↦
      let (result, (e, valid), done) =
        whole-Consumes read_result (λ result. ok result) bytes r Consumes-read_result all
          (rw short at h) in
      let same : result ≡ r = cc done in
      let fits = ltb_not→le max_recovery_bytes (length bytes) short in
      (
        subst (λ x. encode x ≡ ok bytes) same
            (encode-IsResult result valid (rw e at fits) ∙ ap ok (sym e)),
        subst IsResult same valid,
      )
]
