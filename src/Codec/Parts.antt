-- ===== src/Codec/Parts.antt =====
-- The parts of the round trip: ownerships, sequences, options and results, and what a value holds.
use jam_script.Prelude.{
  suc, ◌+◌, ◌≤◌, ◌≡◌, refl, sym, ◌∙◌, ap, subst, ◌++◌, append_assoc, Bytes, [], ◌∷◌, length,
  length-append, take, take-append, le_bytes, from_le, length-le_bytes, from_le-le_bytes, true,
  Result, ok, >>=-eq-ok, map_err, map_err-eq-ok, u32_max, arith,
}
use jam_script.Ownership
use jam_script.Ownership.{Ownership, kind_byte}
use jam_script.Ownership.RoundTrip.{canonical, encode-eq-ok, length_small, decode-encode_ownership}
use jam_script.Codec.Ir.{
  TypeIr, Types, no_types, type_and, Fields, no_fields, field_and, Variants, no_variants,
  variant_and,
}
use jam_script.Codec.Value.{
  ℤ, Value, Values, no_values, value_and, Named, no_named, named_and, CodecError, invalid_length,
  is_utf8,
}
use jam_script.Codec.Value
use jam_script.Codec.Natural.{Read, pure, take_bytes, u8}
use jam_script.Codec.Natural
use jam_script.Codec.Natural.Laws.{>>=-ok, take_bytes-append}
use jam_script.Codec.Encode.{encode_each, encode_option, encode_result}
use jam_script.Codec.Decode.{ownership_of, read_ownership, repeat, option_of, result_of}
use jam_script.Codec.Returns.{Returns, Returns-bind, Returns-map, Returns-u8}

-- The strings of a value are in UTF-8, as a Rust string is.
unfoldable mutual
  pub IsText : Value → Type 0
  IsText (Value.string b) = is_utf8 b ≡ true
  IsText (Value.array vs) = AllText vs
  IsText (Value.tuple vs) = AllText vs
  IsText (Value.structure ns) = NamedText ns
  IsText (Value.present v) = IsText v
  IsText (Value.enum i v) = IsText v
  IsText (Value.success v) = IsText v
  IsText (Value.failure v) = IsText v
  IsText _ = Unit

  pub AllText : Values → Type 0
  AllText no_values = Unit
  AllText (value_and v vs) = IsText v × AllText vs

  pub NamedText : Named → Type 0
  NamedText no_named = Unit
  NamedText (named_and name v ns) = IsText v × NamedText ns

-- The bounds of a type are numbers of 32 bits.
unfoldable mutual
  pub IsWord : TypeIr → Type 0
  IsWord (TypeIr.bytes max) = max ≤ u32_max
  IsWord (TypeIr.string max) = max ≤ u32_max
  IsWord (TypeIr.fixed_array t n) = IsWord t
  IsWord (TypeIr.array t max) = IsWord t × (max ≤ u32_max)
  IsWord (TypeIr.option t) = IsWord t
  IsWord (TypeIr.tuple ts) = TypesWord ts
  IsWord (TypeIr.structure fs) = FieldsWord fs
  IsWord (TypeIr.enum vs) = VariantsWord vs
  IsWord (TypeIr.result t u) = IsWord t × IsWord u
  IsWord _ = Unit

  pub TypesWord : Types → Type 0
  TypesWord no_types = Unit
  TypesWord (type_and t ts) = IsWord t × TypesWord ts

  pub FieldsWord : Fields → Type 0
  FieldsWord no_fields = Unit
  FieldsWord (field_and name t fs) = IsWord t × FieldsWord fs

  pub VariantsWord : Variants → Type 0
  VariantsWord no_variants = Unit
  VariantsWord (variant_and name i t vs) = IsWord t × VariantsWord vs

-- A decoder of single values undoes an encoder of them.
abbrev pub Undoes : (Value → Result CodecError Bytes) → Read Value → Type 0
Undoes item read = (v : Value) (bs : Bytes) → IsText v → item v ≡ ok bs → Returns read bs v

pub Returns-repeat :
    (item : Value → Result CodecError Bytes) (read : Read Value)
    → Undoes item read
    → (vs : Values) (bs : Bytes) → AllText vs
    → encode_each item vs ≡ ok bs
    → Returns (repeat (Value.length vs) read) bs vs
unfolding repeat encode_each AllText Value.length pure
Returns-repeat item read undo no_values bs text h = let e : [] ≡ bs = cc h in λ rest. rw (← e) refl
Returns-repeat item read undo (value_and v vs) bs text h =
    let (a, h₁, h₂) = >>=-eq-ok (item v) _ h in
    let (b, h₃, h₄) = >>=-eq-ok (encode_each item vs) _ h₂ in
    let e : a ++ b ≡ bs = cc h₄ in
    subst (λ s. Returns (repeat (suc (Value.length vs)) read) s (value_and v vs)) e
      (Returns-bind read
        (λ w. Natural.◌>>=◌ (repeat (Value.length vs) read) (λ ws. pure (value_and w ws))) a b v
        (value_and v vs) (undo v a text.0 h₁)
        (Returns-map (repeat (Value.length vs) read) (λ ws. value_and v ws) b vs
          (Returns-repeat item read undo vs b text.1 h₃)))

pub Returns-option :
    (item : Value → Result CodecError Bytes) (read : Read Value)
    → Undoes item read
    → Undoes (encode_option item) (Natural.◌>>=◌ u8 (option_of read))
unfolding encode_option option_of IsText pure u8
Returns-option item read undo Value.absent bs text h =
    let e : 0 ∷ [] ≡ bs = cc h in λ rest. rw (← e) refl
Returns-option item read undo (Value.present v) bs text h =
    let (a, h₁, h₂) = >>=-eq-ok (item v) _ h in
    let e : 1 ∷ a ≡ bs = cc h₂ in
    subst (λ s. Returns (Natural.◌>>=◌ u8 (option_of read)) s (Value.present v)) e
      (Returns-bind u8 (option_of read) (1 ∷ []) a 1 (Value.present v) (Returns-u8 1)
        (Returns-map read Value.present a v (undo v a text h₁)))
Returns-option item read undo v bs text h = cc

pub Returns-result :
    (one other : Value → Result CodecError Bytes) (read read' : Read Value)
    → Undoes one read
    → Undoes other read'
    → Undoes (encode_result one other) (Natural.◌>>=◌ u8 (result_of read read'))
unfolding encode_result result_of IsText pure u8
Returns-result one other read read' undo undo' (Value.success v) bs text h =
    let (a, h₁, h₂) = >>=-eq-ok (one v) _ h in
    let e : 0 ∷ a ≡ bs = cc h₂ in
    subst (λ s. Returns (Natural.◌>>=◌ u8 (result_of read read')) s (Value.success v)) e
      (Returns-bind u8 (result_of read read') (0 ∷ []) a 0 (Value.success v) (Returns-u8 0)
        (Returns-map read Value.success a v (undo v a text h₁)))
Returns-result one other read read' undo undo' (Value.failure v) bs text h =
    let (a, h₁, h₂) = >>=-eq-ok (other v) _ h in
    let e : 1 ∷ a ≡ bs = cc h₂ in
    subst (λ s. Returns (Natural.◌>>=◌ u8 (result_of read read')) s (Value.failure v)) e
      (Returns-bind u8 (result_of read read') (1 ∷ []) a 1 (Value.failure v) (Returns-u8 1)
        (Returns-map read' Value.failure a v (undo' v a text h₁)))
Returns-result one other read read' undo undo' v bs text h = cc

length-canonical : (o : Ownership) → length (canonical o) ≡ 4 + length o.public
unfolding canonical
length-canonical o = omega (
  arith,
  length-append (le_bytes 2 (length o.public)) o.public,
  length-le_bytes 2 (length o.public),
)

-- The slice that `Ownership::decode` is given is what was read.
read_ownership-canonical :
    (o : Ownership) (rest : Bytes)
    → length o.public ≤ 33
    → Ownership.decode (canonical o) ≡ ok o
    → read_ownership (canonical o ++ rest) ≡ ok (Value.ownership o, rest)
unfolding read_ownership u8 canonical ownership_of
read_ownership-canonical o rest small known =
    let l = le_bytes 2 (length o.public) in
    let s = canonical o ++ rest in
    let f = λ (b : Bytes).
      Natural.◌>>=◌ (take_bytes (from_le b)) (λ public. ownership_of (take (4 + from_le b) s)) in
    let back : from_le l ≡ length o.public = from_le-le_bytes 2 (length o.public) (omega arith) in
    let slice : take (4 + from_le l) s ≡ canonical o =
      ap (λ n. take n s) (ap (λ n. 4 + n) back ∙ sym (length-canonical o))
      ∙ take-append (canonical o) rest in
    let decoded : ownership_of (canonical o) rest ≡ ok (Value.ownership o, rest) =
      rw (known, ownership_of) refl in
    ap (Natural.◌>>=◌ (take_bytes 2) f) (append_assoc l o.public rest)
    ∙ >>=-ok (take_bytes 2) f (l ++ (o.public ++ rest))
        (take_bytes-append l (o.public ++ rest) (length-le_bytes 2 (length o.public)))
    ∙ >>=-ok (take_bytes (from_le l)) (λ public. ownership_of (take (4 + from_le l) s))
        (o.public ++ rest) (take_bytes-append o.public rest (sym back))
    ∙ ap (λ b. ownership_of b rest) slice
    ∙ decoded

pub Returns-ownership :
    (o : Ownership) (bs : Bytes)
    → map_err (λ e. invalid_length) (Ownership.encode o) ≡ ok bs
    → Returns read_ownership bs (Value.ownership o)
Returns-ownership o bs h rest =
    let encoded = map_err-eq-ok (λ e. invalid_length) (Ownership.encode o) h in
    let (valid, same) = encode-eq-ok o bs encoded in
    let known = decode-encode_ownership o bs encoded in
    rw same (read_ownership-canonical o rest (length_small o valid) (rw same at known))
