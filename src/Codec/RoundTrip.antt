-- ===== src/Codec/RoundTrip.antt =====
-- What `encode` writes, `decode` reads.
use jam_script.Prelude.{
  ℕ, suc, ◌-◌, ◌^◌, ◌≡◌, refl, sym, ◌∙◌, ap, subst, ◌++◌, append-nil, Bytes, [], ◌∷◌, bytes_eq,
  bytes_eq→eq, not, ◌==◌, Bool, true, false, Bool-cases, inl, inr, reject-eq-ok, ok, >>=-eq-ok,
  arith,
}
use jam_script.Keys.{codes}
use jam_script.Codec.Ir.{
  TypeIr, Types, no_types, type_and, Fields, no_fields, field_and, Variants, no_variants,
  variant_and,
}
use jam_script.Codec.Value.{
  Value, Values, no_values, value_and, Named, no_named, named_and, CodecError, type_mismatch,
}
use jam_script.Codec.Value
use jam_script.Codec.Natural.{Read, pure, u8}
use jam_script.Codec.Natural
use jam_script.Codec.Encode.{
  as_unit, as_ownership, as_tuple, as_structure, as_enum, count_types, count_fields, count_named,
  encode_into, encode_items, encode_fields, encode_variant, encode,
}
use jam_script.Codec.Decode.{
  decode_from, decode_items, decode_fields, decode_variant, decode, whole,
}
use jam_script.Codec.Returns.{Returns, Returns-bind, Returns-map, Returns-u8}
use jam_script.Codec.Parts.{
  IsText, AllText, NamedText, IsWord, TypesWord, FieldsWord, VariantsWord, Returns-option,
  Returns-result, Returns-ownership,
}
use jam_script.Codec.Arms.{
  as_unit-eq-ok, as_ownership-eq-ok, as_tuple-eq-ok, as_structure-eq-ok, as_enum-eq-ok, if-eq-ok,
  Returns-arm_unsigned, Returns-arm_u8, Returns-arm_signed, Returns-arm_fixed, Returns-arm_bytes,
  Returns-arm_string, Returns-arm_bool, Returns-arm_fixed_array, Returns-arm_array,
}

suc-==-suc : (m n : ℕ) → (suc m == suc n) ≡ true → (m == n) ≡ true
suc-==-suc m n h = ground arith

not-false : (b : Bool) → not b ≡ false → b ≡ true
not-false true h = refl
not-false false h = cc

mutual
  unfolding encode_into decode_from IsText IsWord pure count_types count_fields count_named
      Value.length

  Returns-into :
      (t : TypeIr) (v : Value) (bs : Bytes)
      → IsWord t
      → IsText v
      → encode_into t v ≡ ok bs
      → Returns (decode_from t) bs v
  Returns-into TypeIr.unit v bs word text h =
      let (u, h₁, h₂) = >>=-eq-ok (as_unit v) _ h in
      let e : [] ≡ bs = cc h₂ in
      let given : v ≡ Value.unit = as_unit-eq-ok v h₁ in λ rest. rw (given, ← e) refl
  Returns-into TypeIr.bool v bs word text h = Returns-arm_bool v bs h
  Returns-into TypeIr.u8 v bs word text h = Returns-arm_u8 v bs h
  Returns-into TypeIr.u16 v bs word text h =
      Returns-arm_unsigned v bs (2 ^ 16 - 1) 2 (omega arith) h
  Returns-into TypeIr.u32 v bs word text h =
      Returns-arm_unsigned v bs (2 ^ 32 - 1) 4 (omega arith) h
  Returns-into TypeIr.u64 v bs word text h =
      Returns-arm_unsigned v bs (2 ^ 64 - 1) 8 (omega arith) h
  Returns-into TypeIr.u128 v bs word text h =
      Returns-arm_unsigned v bs (2 ^ 128 - 1) 16 (omega arith) h
  Returns-into TypeIr.i8 v bs word text h = Returns-arm_signed v bs (2 ^ 7) 1 refl h
  Returns-into TypeIr.i16 v bs word text h = Returns-arm_signed v bs (2 ^ 15) 2 refl h
  Returns-into TypeIr.i32 v bs word text h = Returns-arm_signed v bs (2 ^ 31) 4 refl h
  Returns-into TypeIr.i64 v bs word text h = Returns-arm_signed v bs (2 ^ 63) 8 refl h
  Returns-into TypeIr.i128 v bs word text h = Returns-arm_signed v bs (2 ^ 127) 16 refl h
  Returns-into TypeIr.address v bs word text h = Returns-arm_fixed v bs 32 h
  Returns-into TypeIr.ownership v bs word text h =
      let (o, h₁, h₂) = >>=-eq-ok (as_ownership v) _ h in
      rw (as_ownership-eq-ok v o h₁) (Returns-ownership o bs h₂)
  Returns-into (TypeIr.fixed_bytes len) v bs word text h = Returns-arm_fixed v bs len h
  Returns-into (TypeIr.bytes max) v bs word text h = Returns-arm_bytes v bs max word h
  Returns-into (TypeIr.string max) v bs word text h = Returns-arm_string v bs max word text h
  Returns-into (TypeIr.fixed_array item len) v bs word text h =
      Returns-arm_fixed_array v bs len (encode_into item) (decode_from item)
        (λ w us text' h'. Returns-into item w us word text' h') text h
  Returns-into (TypeIr.array item max) v bs word text h =
      Returns-arm_array v bs max (encode_into item) (decode_from item)
        (λ w us text' h'. Returns-into item w us word.0 text' h') word.1 text h
  Returns-into (TypeIr.option item) v bs word text h =
      Returns-option (encode_into item) (decode_from item)
        (λ w us text' h'. Returns-into item w us word text' h') v bs text h
  Returns-into (TypeIr.tuple items) v bs word text h =
      let (vs, h₁, h₂) = >>=-eq-ok (as_tuple v) _ h in
      let e = as_tuple-eq-ok v vs h₁ in
      let (size, h₃) = if-eq-ok (count_types items == Value.length vs) (encode_items items vs) h₂ in
      rw e (
        Returns-map (decode_items items) (λ vs. Value.tuple vs) bs vs
          (Returns-items items vs bs word (subst IsText e text) size h₃))
  Returns-into (TypeIr.structure fields) v bs word text h =
      let (ns, h₁, h₂) = >>=-eq-ok (as_structure v) _ h in
      let e = as_structure-eq-ok v ns h₁ in
      let (size, h₃) =
        if-eq-ok (count_fields fields == count_named ns) (encode_fields fields ns) h₂ in
      rw e (
        Returns-map (decode_fields fields) (λ ns. Value.structure ns) bs ns
          (Returns-fields fields ns bs word (subst IsText e text) size h₃))
  Returns-into (TypeIr.enum variants) v bs word text h =
      let (x, h₁, h₂) = >>=-eq-ok (as_enum v) _ h in
      let (b, h₃, h₄) = >>=-eq-ok (encode_variant x.0 variants x.1) _ h₂ in
      let e = as_enum-eq-ok v x h₁ in
      let same : x.0 ∷ b ≡ bs = cc h₄ in
      rw (e, ← same)
        (Returns-bind u8
          (λ i. Natural.◌>>=◌ (decode_variant i variants) (λ v. pure (Value.enum i v))) (x.0 ∷ []) b
          x.0 (Value.enum x.0 x.1) (Returns-u8 x.0)
          (Returns-map (decode_variant x.0 variants) (λ v. Value.enum x.0 v) b x.1
            (Returns-variant x.0 variants x.1 b word (subst IsText e text) h₃)))
  Returns-into (TypeIr.result success failure) v bs word text h =
      Returns-result (encode_into success) (encode_into failure) (decode_from success)
        (decode_from failure) (λ w us text' h'. Returns-into success w us word.0 text' h')
        (λ w us text' h'. Returns-into failure w us word.1 text' h') v bs text h
  Returns-into (TypeIr.unsupported name) v bs word text h = cc

  Returns-items :
      (ts : Types) (vs : Values) (bs : Bytes)
      → TypesWord ts
      → AllText vs
      → (count_types ts == Value.length vs) ≡ true
      → encode_items ts vs ≡ ok bs
      → Returns (decode_items ts) bs vs
  Returns-items no_types no_values bs word text size h =
      let e : [] ≡ bs = cc h in λ rest. rw (← e) refl
  Returns-items no_types (value_and v vs) bs word text size h = ground arith
  Returns-items (type_and t ts) no_values bs word text size h = ground arith
  Returns-items (type_and t ts) (value_and v vs) bs word text size h =
      let (a, h₁, h₂) = >>=-eq-ok (encode_into t v) _ h in
      let (b, h₃, h₄) = >>=-eq-ok (encode_items ts vs) _ h₂ in
      let e : a ++ b ≡ bs = cc h₄ in
      let fewer : (count_types ts == Value.length vs) ≡ true =
        suc-==-suc (count_types ts) (Value.length vs) size in
      rw (← e) (
        Returns-bind (decode_from t)
          (λ w. Natural.◌>>=◌ (decode_items ts) (λ ws. pure (value_and w ws))) a b v
          (value_and v vs) (Returns-into t v a word.0 text.0 h₁)
          (Returns-map (decode_items ts) (λ ws. value_and v ws) b vs
            (Returns-items ts vs b word.1 text.1 fewer h₃)))

  Returns-fields :
      (fs : Fields) (ns : Named) (bs : Bytes)
      → FieldsWord fs
      → NamedText ns
      → (count_fields fs == count_named ns) ≡ true
      → encode_fields fs ns ≡ ok bs
      → Returns (decode_fields fs) bs ns
  Returns-fields no_fields no_named bs word text size h =
      let e : [] ≡ bs = cc h in λ rest. rw (← e) refl
  Returns-fields no_fields (named_and name v ns) bs word text size h = ground arith
  Returns-fields (field_and name t fs) no_named bs word text size h = ground arith
  Returns-fields (field_and name t fs) (named_and given v ns) bs word text size h =
      let (named, h₀) =
        reject-eq-ok (not (bytes_eq name given)) (type_mismatch (codes "record field order")) _ h in
      let (a, h₁, h₂) = >>=-eq-ok (encode_into t v) _ h₀ in
      let (b, h₃, h₄) = >>=-eq-ok (encode_fields fs ns) _ h₂ in
      let e : a ++ b ≡ bs = cc h₄ in
      let fewer : (count_fields fs == count_named ns) ≡ true =
        suc-==-suc (count_fields fs) (count_named ns) size in
      let alike : name ≡ given = bytes_eq→eq name given (not-false (bytes_eq name given) named) in
      rw (← e, ← alike)
        (Returns-bind (decode_from t)
          (λ w. Natural.◌>>=◌ (decode_fields fs) (λ ws. pure (named_and name w ws))) a b v
          (named_and name v ns) (Returns-into t v a word.0 text.0 h₁)
          (Returns-map (decode_fields fs) (λ ws. named_and name v ws) b ns
            (Returns-fields fs ns b word.1 text.1 fewer h₃)))

  Returns-variant :
      (i : ℕ) (vs : Variants) (v : Value) (bs : Bytes)
      → VariantsWord vs
      → IsText v
      → encode_variant i vs v ≡ ok bs
      → Returns (decode_variant i vs) bs v
  Returns-variant i no_variants v bs word text h = cc
  Returns-variant i (variant_and name index t rest) v bs word text h =
      elim (Bool-cases (index == i)) [
        | inl found ↦ rw found (Returns-into t v bs word.0 text (rw (found, encode_variant) at h))
        | inr other ↦
            rw other (Returns-variant i rest v bs word.1 text (rw (other, encode_variant) at h))
      ]

-- If `encode` succeeds on a value whose strings are in UTF-8, for a type whose bounds are numbers of
-- 32 bits, `decode` of the output for the same type returns the value.
pub decode-encode_value :
    (t : TypeIr) (v : Value) (bs : Bytes)
    → IsWord t
    → IsText v
    → encode t v ≡ ok bs
    → decode t bs ≡ ok v
unfolding encode decode
decode-encode_value t v bs word text h =
    ap whole (ap (decode_from t) (sym (append-nil bs)) ∙ Returns-into t v bs word text h [])
