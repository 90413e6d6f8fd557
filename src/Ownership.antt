-- ===== src/Ownership.antt =====
-- crates/ownership-core/src/lib.rs: ownership values, their canonical bytes and their keys.
pub mod RoundTrip
use jam_script.Prelude.{
  ℕ, suc, ◌+◌, List, [], ◌∷◌, ◌++◌, Bool, true, false, ◌&&◌, ◌||◌, not, ◌==◌, ltb, Bytes, le_bytes,
  from_le, length, Result, ok, err, ◌>>=◌, ◌>>◌, reject, if◌then◌else◌, ◌^◌, ◌-◌,
}
use jam_script.Keys.{codes}

abbrev pub ownership_version : ℕ
ownership_version = 1

abbrev pub max_ownership_bytes : ℕ
max_ownership_bytes = 4096

abbrev pub ownership_key_domain : Bytes
ownership_key_domain = codes "OWNERSHIP_ABSTRACTION_KEY_V1"

pub data OwnershipKind : Type 0 where
  ed25519_key sr25519_key secp256k1_key secp256k1_keccak20 multicrypto_account32 : OwnershipKind

pub data OwnershipError : Type 0 where
  invalid_version : OwnershipError
  unsupported_kind : ℕ → OwnershipError
  invalid_public_length invalid_public_value invalid_encoding too_large : OwnershipError

-- `kind as u8`
unfoldable pub kind_byte : OwnershipKind → ℕ
kind_byte ed25519_key = 0
kind_byte sr25519_key = 1
kind_byte secp256k1_key = 2
kind_byte secp256k1_keccak20 = 3
kind_byte multicrypto_account32 = 4

-- `TryFrom<u8>`
unfoldable pub try_from : ℕ → Result OwnershipError OwnershipKind
try_from value =
    if value == 0
    then ok ed25519_key
    else if value == 1
    then ok sr25519_key
    else if value == 2
    then ok secp256k1_key
    else if value == 3
    then ok secp256k1_keccak20
    else if value == 4
    then ok multicrypto_account32
    else err (unsupported_kind value)

unfoldable pub public_len : OwnershipKind → ℕ
public_len secp256k1_key = 33
public_len secp256k1_keccak20 = 20
public_len _ = 32

pub record Ownership : Type 0 where
  pub version : ℕ
  pub kind : OwnershipKind
  pub public : Bytes

-- `matches!(public.first(), Some(2 | 3))`
unfoldable pub is_compressed : Bytes → Bool
is_compressed [] = false
is_compressed (b ∷ bs) = b == 2 || b == 3

unfoldable pub is_secp256k1_key : OwnershipKind → Bool
is_secp256k1_key secp256k1_key = true
is_secp256k1_key _ = false

unfoldable pub validate : Ownership → Result OwnershipError (Unit {0})
unfolding is_compressed is_secp256k1_key public_len
validate o = do
  reject (not (o.version == ownership_version)) invalid_version
  reject (not (length o.public == public_len o.kind)) invalid_public_length
  reject (is_secp256k1_key o.kind && not (is_compressed o.public)) invalid_public_value

unfoldable pub new : OwnershipKind → Bytes → Result OwnershipError Ownership
new kind public =
    let ownership : Ownership = record {
      version = ownership_version;
      kind = kind;
      public = public;
    } in
    do validate ownership; ok ownership

unfoldable pub encode : Ownership → Result OwnershipError Bytes
unfolding kind_byte
encode o = do
  validate o
  reject (ltb (2 ^ 16 - 1) (length o.public)) too_large
  let encoded = o.version ∷ kind_byte o.kind ∷ le_bytes 2 (length o.public) ++ o.public
  reject (ltb max_ownership_bytes (length encoded)) too_large
  ok encoded

-- The last clause stands for an index out of bounds, which the length check rules out.
decode_fields : Bytes → Result OwnershipError Ownership
decode_fields (version ∷ kind_value ∷ low ∷ high ∷ public) = do
  reject (not (version == ownership_version)) invalid_version
  kind ← try_from kind_value
  let announced = from_le (low ∷ high ∷ [])
  reject
      (not (announced == public_len kind)
        || not (length (version ∷ kind_value ∷ low ∷ high ∷ public) == 4 + announced))
      invalid_encoding
  new kind public
decode_fields _ = err invalid_encoding

unfoldable pub decode : Bytes → Result OwnershipError Ownership
unfolding decode_fields
decode bytes =
    if ltb max_ownership_bytes (length bytes) || ltb (length bytes) 4
    then err (if ltb max_ownership_bytes (length bytes) then too_large else invalid_encoding)
    else decode_fields bytes

-- `blake2_256` wraps a hash of the crate `blake2b_simd`.
module _ (blake2_256 : Bytes → Bytes) where
  unfoldable pub key : Ownership → Result OwnershipError Bytes
  key o = do canonical ← encode o; ok (blake2_256 (ownership_key_domain ++ canonical))
