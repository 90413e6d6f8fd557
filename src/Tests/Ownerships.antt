-- ===== src/Tests/Ownerships.antt =====
-- An ownership of each length, and its bytes.
use jam_script.Prelude.{
  ◌≡◌, refl, [], ◌∷◌, ◌++◌, Bytes, ok, err, le_bytes, from_le, arith, replicate,
}
use jam_script.Ownership
use jam_script.Ownership.{
  Ownership, OwnershipError, secp256k1_keccak20, ed25519_key, validate, encode, decode, key,
  try_from, new,
}
use jam_script.Ownership.RoundTrip.{
  IsValid, decode-encode_ownership, encode-decode_ownership, key_injective,
}

abbrev account : Ownership
account = record { version = 1; kind = secp256k1_keccak20; public = replicate 20 9 }

abbrev account_bytes : Bytes
account_bytes = 1 ∷ 3 ∷ 20 ∷ 0 ∷ replicate 20 9

encode-account : encode account ≡ ok account_bytes
unfolding encode validate le_bytes
encode-account = refl

decode_short : decode (1 ∷ 0 ∷ 32 ∷ 0 ∷ 0 ∷ []) ≡ err OwnershipError.invalid_encoding
unfolding decode try_from from_le Ownership.public_len
decode_short = refl

decode-encode_ownership_example : decode account_bytes ≡ ok account
decode-encode_ownership_example = decode-encode_ownership account account_bytes encode-account

encode-decode_ownership_example : (encode account ≡ ok account_bytes) × IsValid account
encode-decode_ownership_example =
    encode-decode_ownership account_bytes account (omega arith)
      (decode-encode_ownership account account_bytes encode-account)

key_account : key (λ b. b) account ≡ ok (Ownership.ownership_key_domain ++ account_bytes)
unfolding key encode validate le_bytes
key_account = refl

key_injective_example : account ≡ account
key_injective_example = key_injective (λ b. b) account account _ (λ e. e) key_account key_account
