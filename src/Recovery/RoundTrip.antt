-- ===== src/Recovery/RoundTrip.antt =====
-- The bytes of a recovery determine it, and the decoder accepts no others.
use jam_script.Prelude.{
  ℕ, ◌≤◌, ◌<◌, ◌^◌, [], ◌∷◌, append-nil, ◌≡◌, refl, sym, ap, subst, ◌∙◌, Bytes, IsBytes, Result, ok,
  ◌>>=◌, ◌>>◌, reject, reject-eq-ok, >>=-eq-ok, length, ltb, le→ltb_not, ltb_not→le, ◌==◌, not,
  arith, Bool-cases, inl, inr,
}
use jam_script.Wire.{WireError, unsupported_version, too_many_items}
use jam_script.Wire.Limits.{recovery_format_version, max_recovery_bytes}
use jam_script.Wire.Writer
use jam_script.Wire.Reader
use jam_script.Wire.Reader.Rules.{
  Reads, Consumes, Reads-bind, Reads-lift, Reads-cast, Consumes-bind, Consumes-if, Consumes-fail,
  Consumes-mono, Consumes-lift_end,
}
use jam_script.Wire.Reader.Rules.Fields.{
  Reads-u8, Consumes-u8, prefixed, length-prefixed, Reads-bytes_limited, Consumes-bytes_limited,
}
use jam_script.Wire.Reader.Rules.Whole.{whole-Reads, whole-Consumes}
use jam_script.Entry.Codec.{bytes_u32-prefixed}
use jam_script.Diff
use jam_script.Diff.{StateDiff}
use jam_script.Diff.Canonical.{IsCanonical}
use jam_script.Diff.RoundTrip.{
  changes_bytes, encode_canonical_checked-changes_bytes, encode_canonical_checked-eq-ok,
  decode-IsCanonical, decode→IsCanonical,
}
use jam_script.Recovery.{StateRecovery, encode, read_recovery, decode}

-- The bytes of a canonical diff with its length.
abbrev pub diff_field : StateDiff → Bytes
diff_field d = prefixed (changes_bytes d.changes)

abbrev pub recovery_bytes : StateDiff → Bytes
recovery_bytes d = 1 ∷ diff_field d

-- Reading a diff in its field.
pub Reads-diff_field :
    (maximum : ℕ) (d : StateDiff)
    → IsCanonical d
    → length (changes_bytes d.changes) ≤ maximum
    → length (changes_bytes d.changes) < 2 ^ 32
    → Reads
        (Reader.◌>>=◌ (Reader.bytes_limited maximum) (λ b. Reader.lift (Diff.decode b)))
        (diff_field d)
        d
Reads-diff_field maximum d h fits short =
    Reads-cast
      (Reads-bind (Reader.bytes_limited maximum) _ (diff_field d) []
        (Reads-bytes_limited maximum (changes_bytes d.changes) fits short)
        (Reads-lift (Diff.decode (changes_bytes d.changes)) (decode-IsCanonical d h)))
      (append-nil (diff_field d))

pub Consumes-diff_field :
    (maximum : ℕ)
    → Consumes
        (Reader.◌>>=◌ (Reader.bytes_limited maximum) (λ b. Reader.lift (Diff.decode b)))
        (λ d u. (u ≡ diff_field d) × IsCanonical d × (length (changes_bytes d.changes) < 2 ^ 32))
Consumes-diff_field maximum =
    Consumes-bind (Reader.bytes_limited maximum) _ (Consumes-bytes_limited maximum) λ b u hu.
      Consumes-lift_end (Diff.decode b) λ d e.
        let (c, same) = decode→IsCanonical b d hu.3 e in
        (append-nil u ∙ hu.0 ∙ ap prefixed same, c, rw same at hu.2)

encode-eq-ok :
    (r : StateRecovery) (bytes : Bytes)
    → encode r ≡ ok bytes
    → (r.version ≡ 1)
      × IsCanonical r.diff
      × (bytes ≡ recovery_bytes r.diff)
      × (length bytes ≤ max_recovery_bytes)
unfolding encode Writer.bytes_u32 Writer.u32_len
encode-eq-ok r bytes h =
    let (one, h₁) = reject-eq-ok (not (r.version == 1)) unsupported_version _ h in
    let (diff, h₂, h₃) = >>=-eq-ok (Diff.encode_canonical_checked r.diff) _ h₁ in
    let (c, same) = encode_canonical_checked-eq-ok r.diff diff h₂ in
    let is_one : r.version ≡ 1 = ground arith in
    let (out, short) = written (r.version) diff bytes h₃ in
    (is_one, c, out ∙ rw (is_one, same) refl, short)
  where
    written :
        (version : ℕ) (diff bytes : Bytes)
        → (Writer.bytes_u32 diff >>= λ body.
            (reject (ltb max_recovery_bytes (length (version ∷ body))) too_many_items
              >> ok (version ∷ body)))
          ≡ ok bytes
        → (bytes ≡ version ∷ prefixed diff) × (length bytes ≤ max_recovery_bytes)
    written version diff bytes h = ground arith

encode-IsCanonical :
    (d : StateDiff)
    → IsCanonical d
    → length (recovery_bytes d) ≤ max_recovery_bytes
    → encode (record { version = 1; diff = d }) ≡ ok (recovery_bytes d)
unfolding encode
encode-IsCanonical d h short = rw (
  encode_canonical_checked-changes_bytes d h,
  bytes_u32-prefixed (changes_bytes d.changes)
      (omega (arith, short, length-prefixed (changes_bytes d.changes))),
  le→ltb_not max_recovery_bytes (length (recovery_bytes d)) short,
)

Reads-read_recovery :
    (d : StateDiff)
    → IsCanonical d
    → length (recovery_bytes d) ≤ max_recovery_bytes
    → Reads read_recovery (recovery_bytes d) d
unfolding read_recovery
Reads-read_recovery d h short =
    let size = length-prefixed (changes_bytes d.changes) in
    Reads-bind Reader.u8 _ (1 ∷ []) (diff_field d) (Reads-u8 1) (
      Reads-diff_field max_recovery_bytes d h (omega (arith, short, size))
        (omega (arith, short, size)))

Consumes-read_recovery : Consumes read_recovery (λ d u. (u ≡ recovery_bytes d) × IsCanonical d)
unfolding read_recovery
Consumes-read_recovery = Consumes-bind Reader.u8 _ Consumes-u8 λ version u hu.
    Consumes-if (version == recovery_format_version) _ _
      (λ one.
        Consumes-mono (Consumes-diff_field max_recovery_bytes)
          λ d w hw. let is_one : version ≡ 1 = ground arith in (rw (hu.0, hw.0, is_one) refl, hw.1))
      (λ other. Consumes-fail unsupported_version)

abbrev accepted : StateDiff → Result WireError StateRecovery
accepted d = ok (record { version = 1; diff = d })

-- If `encode` succeeds on a recovery, `decode` of its output returns the recovery.
pub decode-encode_recovery :
    (r : StateRecovery) (bytes : Bytes) → encode r ≡ ok bytes → decode bytes ≡ ok r
unfolding decode
decode-encode_recovery r bytes h =
    let (one, c, e, short) = encode-eq-ok r bytes h in
    let fits : length (recovery_bytes r.diff) ≤ max_recovery_bytes = rw e at short in
    let back = sym one in
    rw (e, le→ltb_not max_recovery_bytes (length (recovery_bytes r.diff)) fits)
      (whole-Reads read_recovery accepted (recovery_bytes r.diff) (omega (arith, fits))
          (Reads-read_recovery r.diff c fits)
        ∙ (λ i. ok (record { version = back i; diff = r.diff })))

-- On any input of bytes, if `decode` returns a recovery, its diff is canonical and `encode` gives
-- back the input.
pub encode-decode_recovery :
    (bytes : Bytes) (r : StateRecovery)
    → IsBytes bytes
    → decode bytes ≡ ok r
    → (encode r ≡ ok bytes) × IsCanonical r.diff
unfolding decode
encode-decode_recovery bytes r all h = elim (Bool-cases (ltb max_recovery_bytes (length bytes))) [
  | inl long ↦ ground arith
  | inr short ↦
      let (d, (e, c), done) =
        whole-Consumes read_recovery accepted bytes r Consumes-read_recovery all (rw short at h) in
      let same : record { version = 1; diff = d } ≡ r = cc done in
      let fits = ltb_not→le max_recovery_bytes (length bytes) short in
      (
        subst (λ (x : StateRecovery). encode x ≡ ok bytes) same
            (encode-IsCanonical d c (rw e at fits) ∙ ap ok (sym e)),
        subst (λ (x : StateRecovery). IsCanonical x.diff) same c,
      )
]
