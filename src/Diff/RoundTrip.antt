-- ===== src/Diff/RoundTrip.antt =====
-- Encoding and decoding of a diff are inverse to one another, on the canonical diffs and nowhere
-- else.
use jam_script.Prelude.{
  ◌-◌, ◌≤◌, List, [], ◌∷◌, ◌++◌, ◌≡◌, refl, sym, ap, subst, ◌∙◌, Bytes, IsBytes, u32_max, ok,
  reject-eq-ok, >>=-eq-ok, All, length, length-append, flat_map, ltb, le→ltb_not, ◌==◌, arith,
  le_bytes, length-le_bytes,
}
use jam_script.Wire.{unsupported_version, unsorted_keys, too_many_items}
use jam_script.Wire.Limits.{managed_state_protocol_version, max_recovery_changes}
use jam_script.Wire.Writer
use jam_script.Wire.Reader
use jam_script.Wire.Reader.Rules.{
  Reads, Consumes, Reads-bind, Consumes-bind, Consumes-if, Consumes-fail, Consumes-mono,
}
use jam_script.Wire.Reader.Rules.Fields.{Reads-u8, Reads-u32, Consumes-u8, Consumes-u32}
use jam_script.Wire.Reader.Rules.Whole.{whole-Reads, whole-Consumes}
use jam_script.Entry.{Entry, sort_entries}
use jam_script.Entry.Order.{sort_entries-StrictlySorted, entries_eq_refl, entries_eq→eq}
use jam_script.Entry.Codec.{
  EntryFits, entry_bytes, write_entries-flat_map, Reads-entries, Consumes-entries, length-entries,
}
use jam_script.Diff.{
  StateDiff, validate_limits, validate_canonical, canonicalize, encode_canonical_checked, encode,
  check_decoded, decode,
}
use jam_script.Diff.Read.{read_changes}
use jam_script.Diff.Canonical.{
  IsAllowed, IsCanonical, IsWithinLimits→validate_limits, validate_canonical→IsCanonical,
  IsCanonical→validate_canonical,
}

-- The bytes of a list of changes.
abbrev pub changes_bytes : List Entry → Bytes
changes_bytes es = 1 ∷ Writer.u32 (length es) ++ flat_map entry_bytes es

pub All-EntryFits : (es : List Entry) → All IsAllowed es → All EntryFits es
All-EntryFits [] h = tt
All-EntryFits (e ∷ es) (h, hs) = (h.1, All-EntryFits es hs)

pub encode_canonical_checked-changes_bytes :
    (d : StateDiff) → IsCanonical d → encode_canonical_checked d ≡ ok (changes_bytes d.changes)
unfolding encode_canonical_checked Writer.u32_len
encode_canonical_checked-changes_bytes d h = rw (
  IsCanonical→validate_canonical d h,
  le→ltb_not u32_max (length d.changes) (omega (arith, h.limits.few)),
  write_entries-flat_map d.changes (All-EntryFits d.changes h.limits.allowed),
)

encode_canonical_checked-validate :
    (d : StateDiff) (bytes : Bytes)
    → encode_canonical_checked d ≡ ok bytes
    → validate_canonical d ≡ ok tt
unfolding encode_canonical_checked
encode_canonical_checked-validate d bytes h = (>>=-eq-ok (validate_canonical d) _ h).1

abbrev pub sorted_diff : StateDiff → StateDiff
sorted_diff d = record { changes = sort_entries d.changes }

canonicalize-eq-ok :
    (d d' : StateDiff) → canonicalize d ≡ ok d' → (d' ≡ sorted_diff d) × IsCanonical d'
unfolding canonicalize
canonicalize-eq-ok d d' h =
    let (u, h₁, h₂) = >>=-eq-ok (validate_canonical (sorted_diff d)) _ h in
    let e : sorted_diff d ≡ d' = cc h₂ in
    (sym e, rw (← e) (validate_canonical→IsCanonical (sorted_diff d) h₁))

canonicalize-IsCanonical : (d : StateDiff) → IsCanonical d → canonicalize d ≡ ok d
unfolding canonicalize
canonicalize-IsCanonical d h =
    rw (sort_entries-StrictlySorted d.changes h.sorted, IsCanonical→validate_canonical d h)

-- A diff is encoded as the bytes of its sorted changes, and these are canonical.
pub encode-eq-ok :
    (d : StateDiff) (bytes : Bytes)
    → encode d ≡ ok bytes
    → IsCanonical (sorted_diff d) × (bytes ≡ changes_bytes (sort_entries d.changes))
unfolding encode
encode-eq-ok d bytes h =
    let (u, h₁, h₂) = >>=-eq-ok (validate_limits d) _ h in
    let (d', h₃, h₄) = >>=-eq-ok (canonicalize d) _ h₂ in
    let (e, c) = canonicalize-eq-ok d d' h₃ in
    let out : changes_bytes d'.changes ≡ bytes =
      cc (encode_canonical_checked-changes_bytes d' c, h₄) in
    (rw e at c, sym out ∙ ap (λ (x : StateDiff). changes_bytes x.changes) e)

pub encode-IsCanonical : (d : StateDiff) → IsCanonical d → encode d ≡ ok (changes_bytes d.changes)
unfolding encode
encode-IsCanonical d h = rw (
  IsWithinLimits→validate_limits d h.limits,
  canonicalize-IsCanonical d h,
  encode_canonical_checked-changes_bytes d h,
)

pub Reads-read_changes :
    (es : List Entry)
    → length es ≤ max_recovery_changes
    → All EntryFits es
    → Reads read_changes (changes_bytes es) es
unfolding read_changes
Reads-read_changes es few h =
    Reads-bind Reader.u8 _ (1 ∷ []) (Writer.u32 (length es) ++ flat_map entry_bytes es) (Reads-u8 1)
      (Reads-bind Reader.u32 _ (Writer.u32 (length es)) (flat_map entry_bytes es)
        (Reads-u32 (length es) (omega arith))
        (rw (le→ltb_not max_recovery_changes (length es) few) (Reads-entries es h)))

pub Consumes-read_changes : Consumes read_changes (λ es u. u ≡ changes_bytes es)
unfolding read_changes
Consumes-read_changes = Consumes-bind Reader.u8 _ Consumes-u8 λ version u hu.
    Consumes-if (version == managed_state_protocol_version) _ _
      (λ one. Consumes-bind Reader.u32 _ Consumes-u32 λ count v hv.
        Consumes-if (ltb max_recovery_changes count) _ _ (λ p. Consumes-fail too_many_items)
          λ p. Consumes-mono (Consumes-entries count) (λ es w hw.
            let is_one : version ≡ 1 = ground arith in rw (hu.0, hv.0, hw.0, hw.1, is_one) refl))
      (λ other. Consumes-fail unsupported_version)

check_decoded-IsCanonical : (d : StateDiff) → IsCanonical d → check_decoded d ≡ ok d
unfolding check_decoded
check_decoded-IsCanonical d h = rw (
  IsWithinLimits→validate_limits d h.limits,
  canonicalize-IsCanonical d h,
  entries_eq_refl d.changes,
)

check_decoded-eq-ok : (d d' : StateDiff) → check_decoded d ≡ ok d' → (d ≡ d') × IsCanonical d
unfolding check_decoded
check_decoded-eq-ok d d' h =
    let (u, h₁, h₂) = >>=-eq-ok (validate_limits d) _ h in
    let (s, h₃, h₄) = >>=-eq-ok (canonicalize d) _ h₂ in
    let (e, c) = canonicalize-eq-ok d s h₃ in
    let same : s.changes ≡ d.changes = entries_eq→eq s.changes d.changes (ground (arith, h₄)) in
    let whole : s ≡ d = (λ i. record { changes = same i }) in
    (cc (reject-eq-ok _ unsorted_keys (ok d) h₄).1, rw whole at c)

pub length-changes_bytes :
    (es : List Entry)
    → length es ≤ max_recovery_changes
    → All EntryFits es
    → length (changes_bytes es) ≤ u32_max - 1000
unfolding Writer.u32
length-changes_bytes es few h = omega (
  arith,
  length-entries es h,
  length-append (le_bytes 4 (length es)) (flat_map entry_bytes es),
  length-le_bytes 4 (length es),
)

-- If `encode` succeeds on a diff, `decode` accepts its output and returns the diff with its
-- changes sorted by key.
pub decode-encode_diff :
    (d : StateDiff) (bytes : Bytes) → encode d ≡ ok bytes → decode bytes ≡ ok (sorted_diff d)
unfolding decode
decode-encode_diff d bytes h =
    let (c, e) = encode-eq-ok d bytes h in
    let es = sort_entries d.changes in
    let fits = All-EntryFits es c.limits.allowed in
    rw e (
      whole-Reads read_changes (λ changes. check_decoded (record { changes = changes }))
        (changes_bytes es) (omega (arith, length-changes_bytes es c.limits.few fits))
        (Reads-read_changes es c.limits.few fits)
      ∙ check_decoded-IsCanonical (sorted_diff d) c)

-- The same for a canonical diff, which is in order already.
pub decode-IsCanonical : (d : StateDiff) → IsCanonical d → decode (changes_bytes d.changes) ≡ ok d
decode-IsCanonical d h =
    decode-encode_diff d (changes_bytes d.changes) (encode-IsCanonical d h)
    ∙ ap (λ (es : List Entry). ok (record { changes = es }))
        (sort_entries-StrictlySorted d.changes h.sorted)

pub decode→IsCanonical :
    (bytes : Bytes) (d : StateDiff)
    → IsBytes bytes
    → decode bytes ≡ ok d
    → IsCanonical d × (bytes ≡ changes_bytes d.changes)
unfolding decode
decode→IsCanonical bytes d all h =
    let (es, e, ok_es) =
      whole-Consumes read_changes (λ changes. check_decoded (record { changes = changes })) bytes d
        Consumes-read_changes all h in
    let (same, c) = check_decoded-eq-ok (record { changes = es }) d ok_es in
    (subst IsCanonical same c, e ∙ ap (λ (x : StateDiff). changes_bytes x.changes) same)

pub encode_canonical_checked-eq-ok :
    (d : StateDiff) (bytes : Bytes)
    → encode_canonical_checked d ≡ ok bytes
    → IsCanonical d × (bytes ≡ changes_bytes d.changes)
encode_canonical_checked-eq-ok d bytes h =
    let c = validate_canonical→IsCanonical d (encode_canonical_checked-validate d bytes h) in
    (c, cc (encode_canonical_checked-changes_bytes d c, h))

-- On any input of bytes, `decode` accepts only canonical encodings: if it returns a diff, `encode`
-- of that diff succeeds and gives back the input.
pub encode-decode_diff :
    (bytes : Bytes) (d : StateDiff) → IsBytes bytes → decode bytes ≡ ok d → encode d ≡ ok bytes
encode-decode_diff bytes d all h =
    let (c, e) = decode→IsCanonical bytes d all h in encode-IsCanonical d c ∙ ap ok (sym e)
