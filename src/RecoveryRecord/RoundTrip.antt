-- ===== src/RecoveryRecord/RoundTrip.antt =====
-- A record is read back with its diff in canonical order, and the decoder accepts no other bytes.
use jam_script.Prelude.{
  ◌≤◌, ◌<◌, ◌^◌, [], ◌∷◌, ◌++◌, append-nil, ◌≡◌, refl, sym, ap, subst, ◌∙◌, Bytes, IsBytes, ok,
  length, length-append, ◌+◌, ◌==◌, arith, u32_max,
}
use jam_script.Wire.{unsupported_version}
use jam_script.Wire.Reader
use jam_script.Wire.Reader.Rules.{
  Reads, Consumes, Reads-bind, Reads-lift, Reads-pure, Reads-cast, Consumes-bind, Consumes-if,
  Consumes-fail, Consumes-lift, Consumes-pure,
}
use jam_script.Wire.Reader.Rules.Fields.{
  Reads-u8, Consumes-u8, Reads-array, Consumes-array, prefixed, length-prefixed, Reads-bytes_u32,
  Consumes-bytes_u32,
}
use jam_script.Wire.Reader.Rules.Whole.{whole-Reads, whole-Consumes}
use jam_script.Entry.Codec.{bytes_u32-prefixed}
use jam_script.Diff
use jam_script.Diff.{StateDiff}
use jam_script.Diff.Canonical.{IsCanonical}
use jam_script.Diff.RoundTrip.{
  changes_bytes, encode-IsCanonical, decode→IsCanonical, decode-IsCanonical, length-changes_bytes,
  All-EntryFits,
}
use jam_script.RecoveryRecord.{RecoveryRecord, encode, read_record, decode}

-- A record of the current version with hashes of 32 bytes and a canonical diff.
pub record IsRecord (r : RecoveryRecord) : Type 0 where
  pub version : r.version ≡ 1
  pub service_key : length r.service_key ≡ 32
  pub parent_root : length r.parent_root ≡ 32
  pub new_root : length r.new_root ≡ 32
  pub code_hash : length r.code_hash ≡ 32
  pub canonical : IsCanonical r.state_delta

abbrev record_bytes : RecoveryRecord → Bytes
record_bytes r =
    1
    ∷ (r.service_key
        ++ (r.parent_root
            ++ (r.new_root ++ (r.code_hash ++ prefixed (changes_bytes r.state_delta.changes)))))

encode-IsRecord :
    (r : RecoveryRecord)
    → IsRecord r
    → length (changes_bytes r.state_delta.changes) ≤ u32_max
    → encode r ≡ ok (record_bytes r)
unfolding encode
encode-IsRecord r h short = rw (
  encode-IsCanonical r.state_delta h.canonical,
  bytes_u32-prefixed (changes_bytes r.state_delta.changes) short,
  h.version,
)

abbrev Written : RecoveryRecord → Bytes → Type 0
Written r u =
    (u ≡ record_bytes r) × IsRecord r × (length (changes_bytes r.state_delta.changes) < 2 ^ 32)

Consumes-read_record : Consumes read_record Written
unfolding read_record
Consumes-read_record = Consumes-bind Reader.u8 _ Consumes-u8 λ version u hu.
    Consumes-if (version == 1) _ _
      (λ one. Consumes-bind (Reader.array 32) _ (Consumes-array 32) λ service_key u₁ h₁.
        Consumes-bind (Reader.array 32) _ (Consumes-array 32) λ parent_root u₂ h₂.
          Consumes-bind (Reader.array 32) _ (Consumes-array 32) λ new_root u₃ h₃.
            Consumes-bind (Reader.array 32) _ (Consumes-array 32) λ code_hash u₄ h₄.
              Consumes-bind Reader.bytes_u32 _ Consumes-bytes_u32 λ field u₅ h₅.
                Consumes-lift (Diff.decode field) _ λ state_delta e.
                  Consumes-pure
                    (record {
                      version = 1;
                      service_key = service_key;
                      parent_root = parent_root;
                      new_root = new_root;
                      code_hash = code_hash;
                      state_delta = state_delta;
                    })
                    (let (c, same) = decode→IsCanonical field state_delta h₅.2 e in
                      let is_one : version ≡ 1 = ground arith in
                      let tail : u₅ ++ [] ≡ prefixed (changes_bytes state_delta.changes) =
                        append-nil u₅ ∙ h₅.0 ∙ ap prefixed same in
                      (
                        rw (hu.0, is_one, h₁.0, h₂.0, h₃.0, h₄.0, tail) refl,
                        record {
                          version = refl;
                          service_key = h₁.1;
                          parent_root = h₂.1;
                          new_root = h₃.1;
                          code_hash = h₄.1;
                          canonical = c;
                        },
                        subst (λ (b : Bytes). length b < 2 ^ 32) same h₅.1,
                      )))
      (λ other. Consumes-fail unsupported_version)

-- On any input of bytes, if `decode` returns a record, it has the current version, hashes of 32
-- bytes and a canonical diff, and `encode` gives back the input.
pub encode-decode-IsRecord :
    (bytes : Bytes) (r : RecoveryRecord)
    → IsBytes bytes
    → decode bytes ≡ ok r
    → (encode r ≡ ok bytes) × IsRecord r
unfolding decode
encode-decode-IsRecord bytes r all h =
    let (made, (e, valid, short), done) =
      whole-Consumes read_record (λ x. ok x) bytes r Consumes-read_record all h in
    let same : made ≡ r = cc done in
    let small : length (changes_bytes made.state_delta.changes) ≤ u32_max = omega (arith, short) in
    (
      subst (λ (x : RecoveryRecord). encode x ≡ ok bytes) same
          (encode-IsRecord made valid small ∙ ap ok (sym e)),
      subst IsRecord same valid,
    )

Reads-read_record :
    (r : RecoveryRecord)
    → IsRecord r
    → length (changes_bytes r.state_delta.changes) < 2 ^ 32
    → Reads read_record (record_bytes r) (record r { version = 1 })
unfolding read_record
Reads-read_record r h short =
    let delta = changes_bytes r.state_delta.changes in
    Reads-bind Reader.u8 _ (1 ∷ []) _ (Reads-u8 1) (
      Reads-bind (Reader.array 32) _ r.service_key _ (Reads-array 32 r.service_key h.service_key) (
        Reads-bind (Reader.array 32) _ r.parent_root _ (Reads-array 32 r.parent_root h.parent_root)
          (Reads-bind (Reader.array 32) _ r.new_root _ (Reads-array 32 r.new_root h.new_root) (
            Reads-bind (Reader.array 32) _ r.code_hash _ (Reads-array 32 r.code_hash h.code_hash) (
              Reads-cast
                (Reads-bind Reader.bytes_u32 _ (prefixed delta) [] (Reads-bytes_u32 delta short) (
                  Reads-bind (Reader.lift (Diff.decode delta)) _ [] []
                    (Reads-lift (Diff.decode delta) (decode-IsCanonical r.state_delta h.canonical))
                    (Reads-pure (record r { version = 1 }))))
                (append-nil (prefixed delta)))))))

length-record_bytes :
    (r : RecoveryRecord)
    → IsRecord r
    → length (record_bytes r) ≡ 133 + length (changes_bytes r.state_delta.changes)
length-record_bytes r h =
    let delta = prefixed (changes_bytes r.state_delta.changes) in
    omega (
      arith,
      length-append r.service_key (r.parent_root ++ (r.new_root ++ (r.code_hash ++ delta))),
      length-append r.parent_root (r.new_root ++ (r.code_hash ++ delta)),
      length-append r.new_root (r.code_hash ++ delta),
      length-append r.code_hash delta,
      length-prefixed (changes_bytes r.state_delta.changes),
      h.service_key,
      h.parent_root,
      h.new_root,
      h.code_hash,
    )

-- Every record of the current version with hashes of 32 bytes and a canonical diff is encoded, and
-- `decode` of the encoding returns it.
pub decode-encode_record :
    (r : RecoveryRecord)
    → IsRecord r
    → (bytes : Bytes) × (encode r ≡ ok bytes) × (decode bytes ≡ ok r)
unfolding decode
decode-encode_record r h =
    let es = r.state_delta.changes in
    let size =
      length-changes_bytes es h.canonical.limits.few
        (All-EntryFits es h.canonical.limits.allowed) in
    let back = sym h.version in
    (
      record_bytes r,
      encode-IsRecord r h (omega (arith, size)),
      whole-Reads read_record (λ x. ok x) (record_bytes r)
            (omega (arith, length-record_bytes r h, size))
            (Reads-read_record r h (omega (arith, size)))
          ∙ (λ i. ok (record r { version = back i })),
    )
