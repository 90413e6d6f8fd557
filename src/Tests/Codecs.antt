-- ===== src/Tests/Codecs.antt =====
-- Runs of the typed codec.
use jam_script.Prelude.{◌≡◌, ◌≢◌, refl, ◌++◌, [], ◌∷◌, Bytes, bytes_eq, le_bytes, ok, arith}
use jam_script.Codec.Ir.{TypeIr, no_fields, field_and, no_variants, variant_and}
use jam_script.Codec.Value.{
  ℤ, negsuc, Value, no_values, value_and, no_named, named_and, is_utf8, is_utf8_from,
}
use jam_script.Codec.Value
use jam_script.Codec.Natural.{natural, encode_natural}
use jam_script.Codec.Natural.Laws.{natural-encode_natural, natural_overlong}
use jam_script.Codec.Encode.{
  encode, encode_into, as_array, as_string, as_enum, as_structure, as_signed, encode_each,
  push_bytes, push_signed, is_outside, low_bytes, count_fields, count_named,
}
use jam_script.Codec.Decode.{decode}
use jam_script.Codec.Parts.{IsWord, IsText}
use jam_script.Codec.RoundTrip.{decode-encode_value}
use jam_script.Keys.{codes}

natural-encode_natural_example : natural (encode_natural 300 ++ 7 ∷ []) ≡ ok (300, 7 ∷ [])
natural-encode_natural_example = natural-encode_natural 300 (7 ∷ []) (omega arith)

-- A structure with a list of texts and a choice between a number and nothing.
abbrev shape : TypeIr
shape = TypeIr.structure (
    field_and (codes "names") (TypeIr.array (TypeIr.string 8) 4) (
      field_and (codes "kind")
        (TypeIr.enum (
          variant_and (codes "none") 0 TypeIr.unit
            (variant_and (codes "level") 5 TypeIr.i16 no_variants)))
        no_fields))

abbrev given : Value
given = Value.structure (
    named_and (codes "names")
      (Value.array (value_and (Value.string (codes "ab")) (value_and (Value.string []) no_values)))
      (named_and (codes "kind") (Value.enum 5 (Value.signed (negsuc 1))) no_named))

abbrev written : Bytes
written = 2 ∷ 2 ∷ 97 ∷ 98 ∷ 0 ∷ 5 ∷ 254 ∷ 255 ∷ []

shape-IsWord : IsWord shape
unfolding IsWord
shape-IsWord = ((omega arith, omega arith), ((tt, (tt, tt)), tt))

given-IsText : IsText given
unfolding IsText is_utf8 is_utf8_from
given-IsText = ((refl, (refl, tt)), (tt, tt))

encode-given : encode shape given ≡ ok written
unfolding encode encode_into as_structure count_fields count_named bytes_eq as_array Value.length
    encode_each as_string push_bytes as_enum as_signed push_signed is_outside encode_natural
    low_bytes le_bytes
encode-given = refl

decode-encode_value_example : decode shape written ≡ ok given
decode-encode_value_example =
    decode-encode_value shape given written shape-IsWord given-IsText encode-given

natural_overlong_example :
    (natural (128 ∷ 5 ∷ 9 ∷ []) ≡ ok (5, 9 ∷ [])) × (128 ∷ 5 ∷ [] ≢ encode_natural 5)
natural_overlong_example = natural_overlong 5 (9 ∷ []) (omega arith)
