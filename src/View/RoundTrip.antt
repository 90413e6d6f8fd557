-- ===== src/View/RoundTrip.antt =====
-- Encoding and decoding of a view are inverse to one another.
use jam_script.Prelude.{
  ◌≤◌, List, [], ◌∷◌, ◌++◌, ◌≡◌, refl, sym, ◌∙◌, false, Bytes, IsBytes, u32_max, ok, ◌>>◌, reject,
  reject-eq-ok, >>=-eq-ok, All, length, flat_map, ltb, le→ltb_not, ltb_not→le, ◌==◌, arith,
  Bool-cases, inl, inr,
}
use jam_script.Wire.{unsupported_version, too_many_items}
use jam_script.Wire.Limits.{
  state_view_version, max_state_view_entries, max_state_key_bytes, max_state_view_bytes,
}
use jam_script.Wire.Writer
use jam_script.Wire.Reader
use jam_script.Wire.Reader.Rules.{
  Reads, Consumes, Reads-bind, Consumes-bind, Consumes-if, Consumes-fail, Consumes-mono,
}
use jam_script.Wire.Reader.Rules.Fields.{Reads-u8, Reads-u32, Consumes-u8, Consumes-u32}
use jam_script.Wire.Reader.Rules.Whole.{whole-Reads, whole-Consumes}
use jam_script.Entry.{Entry}
use jam_script.Entry.Order.{StrictlySorted, check_order→StrictlySorted, StrictlySorted→check_order}
use jam_script.Entry.Codec.{
  EntryFits, entry_bytes, write_entries-flat_map, Reads-entries, Consumes-entries,
}
use jam_script.Diff.{value_too_long}
use jam_script.Diff.Canonical.{ValueFits→value, value→ValueFits}
use jam_script.View.{StateView, check_entries, validate_canonical, encode, check_decoded, decode}
use jam_script.View.Read.{read_view}

-- A view whose entries are few, short and in strict order of their keys.
pub record IsView (v : StateView) : Type 0 where
  pub version : v.version ≡ 1
  pub few : length v.entries ≤ max_state_view_entries
  pub fits : All EntryFits v.entries
  pub sorted : StrictlySorted v.entries

check_entries→All : (es : List Entry) → check_entries es ≡ ok tt → All EntryFits es
unfolding check_entries
check_entries→All [] h = tt
check_entries→All (e ∷ es) h =
    let (short, h') = reject-eq-ok _ too_many_items (check_entries es) h in
    let value : value_too_long e.value ≡ false = ground arith in
    ((ground arith, value→ValueFits e.value value), check_entries→All es h')

All→check_entries : (es : List Entry) → All EntryFits es → check_entries es ≡ ok tt
unfolding check_entries
All→check_entries [] h = refl
All→check_entries (e ∷ es) ((hk, hv), hs) =
    rw (le→ltb_not max_state_key_bytes (length e.key) hk, ValueFits→value e.value hv)
      (All→check_entries es hs)

pub validate_canonical→IsView : (v : StateView) → validate_canonical v ≡ ok tt → IsView v
unfolding validate_canonical
validate_canonical→IsView v h =
    let (one, h₁) = reject-eq-ok _ unsupported_version _ h in
    let (few, h₂) = reject-eq-ok _ too_many_items _ h₁ in
    let (u, h₃, h₄) = >>=-eq-ok (check_entries v.entries) _ h₂ in
    record {
      version = ground arith;
      few = ltb_not→le max_state_view_entries (length v.entries) few;
      fits = check_entries→All v.entries h₃;
      sorted = check_order→StrictlySorted v.entries h₄;
    }

pub IsView→validate_canonical : (v : StateView) → IsView v → validate_canonical v ≡ ok tt
unfolding validate_canonical
IsView→validate_canonical v h =
    rw
      (
        h.version,
        le→ltb_not max_state_view_entries (length v.entries) h.few,
        All→check_entries v.entries h.fits,
      )
      (StrictlySorted→check_order v.entries h.sorted)

-- The bytes of a view.
abbrev pub view_bytes : List Entry → Bytes
view_bytes es = 1 ∷ Writer.u32 (length es) ++ flat_map entry_bytes es

-- Encoding is the size test once the view is valid.
encode-size :
    (v : StateView)
    → IsView v
    → encode v ≡ (
        reject (ltb max_state_view_bytes (length (view_bytes v.entries))) too_many_items
        >> ok (view_bytes v.entries))
unfolding encode Writer.u32_len
encode-size v h = rw (
  IsView→validate_canonical v h,
  le→ltb_not u32_max (length v.entries) (omega (arith, h.few)),
  write_entries-flat_map v.entries h.fits,
  h.version,
)

encode-validate :
    (v : StateView) (bytes : Bytes) → encode v ≡ ok bytes → validate_canonical v ≡ ok tt
unfolding encode
encode-validate v bytes h = (>>=-eq-ok (validate_canonical v) _ h).1

pub encode-eq-ok :
    (v : StateView) (bytes : Bytes)
    → encode v ≡ ok bytes
    → IsView v
      × (bytes ≡ view_bytes v.entries)
      × (length (view_bytes v.entries) ≤ max_state_view_bytes)
encode-eq-ok v bytes h =
    let c = validate_canonical→IsView v (encode-validate v bytes h) in
    let (short, out) =
      reject-eq-ok (ltb max_state_view_bytes (length (view_bytes v.entries))) too_many_items
        (ok (view_bytes v.entries)) (sym (encode-size v c) ∙ h) in
    (c, cc out, ltb_not→le max_state_view_bytes (length (view_bytes v.entries)) short)

encode-IsView :
    (v : StateView)
    → IsView v
    → length (view_bytes v.entries) ≤ max_state_view_bytes
    → encode v ≡ ok (view_bytes v.entries)
encode-IsView v h short =
    encode-size v h
    ∙ rw (le→ltb_not max_state_view_bytes (length (view_bytes v.entries)) short) refl

Reads-read_view :
    (es : List Entry)
    → length es ≤ max_state_view_entries
    → All EntryFits es
    → Reads read_view (view_bytes es) es
unfolding read_view
Reads-read_view es few h =
    Reads-bind Reader.u8 _ (1 ∷ []) (Writer.u32 (length es) ++ flat_map entry_bytes es) (Reads-u8 1)
      (Reads-bind Reader.u32 _ (Writer.u32 (length es)) (flat_map entry_bytes es)
        (Reads-u32 (length es) (omega arith))
        (rw (le→ltb_not max_state_view_entries (length es) few) (Reads-entries es h)))

Consumes-read_view : Consumes read_view (λ es u. u ≡ view_bytes es)
unfolding read_view
Consumes-read_view = Consumes-bind Reader.u8 _ Consumes-u8 λ version u hu.
    Consumes-if (version == state_view_version) _ _
      (λ one. Consumes-bind Reader.u32 _ Consumes-u32 λ count v hv.
        Consumes-if (ltb max_state_view_entries count) _ _ (λ p. Consumes-fail too_many_items)
          λ p. Consumes-mono (Consumes-entries count) (λ es w hw.
            let is_one : version ≡ 1 = ground arith in rw (hu.0, hv.0, hw.0, hw.1, is_one) refl))
      (λ other. Consumes-fail unsupported_version)

-- If `encode` succeeds on a view, `decode` of its output returns the view.
pub decode-encode_view : (v : StateView) (bytes : Bytes) → encode v ≡ ok bytes → decode bytes ≡ ok v
unfolding decode check_decoded
decode-encode_view v bytes h =
    let (c, e, short) = encode-eq-ok v bytes h in
    let one = sym c.version in
    let same : record { version = 1; entries = v.entries } ≡ v =
      (λ i. record { version = one i; entries = v.entries }) in
    let read =
      whole-Reads read_view (λ es. check_decoded (record { version = 1; entries = es }))
        (view_bytes v.entries) (omega (arith, short)) (Reads-read_view v.entries c.few c.fits) in
    rw (e, le→ltb_not max_state_view_bytes (length (view_bytes v.entries)) (omega (arith, short)))
      (read ∙ rw same (rw (IsView→validate_canonical v c)))

-- On any input of bytes, if `decode` returns a view, `encode` of it gives back the input.
pub encode-decode_view :
    (bytes : Bytes) (v : StateView) → IsBytes bytes → decode bytes ≡ ok v → encode v ≡ ok bytes
unfolding decode check_decoded
encode-decode_view bytes v all h = elim (Bool-cases (ltb max_state_view_bytes (length bytes))) [
  | inl long ↦ ground arith
  | inr short ↦
      let (es, e, ok_es) =
        whole-Consumes read_view (λ es. check_decoded (record { version = 1; entries = es })) bytes
          v Consumes-read_view all (rw short at h) in
      let made : StateView = record { version = 1; entries = es } in
      let (u, h₁, h₂) = >>=-eq-ok (validate_canonical made) _ ok_es in
      let same : made ≡ v = cc h₂ in
      let fits = ltb_not→le max_state_view_bytes (length bytes) short in
      rw (← same, e) (encode-IsView made (validate_canonical→IsView made h₁) (rw e at fits))
]
