-- ===== src/Wire/Reader.antt =====
-- `Reader` of crates/service-runtime-core/src/lib.rs. A method takes the reader and returns the one
-- that it leaves; `usize` has 64 bits.
pub mod Rules
use jam_script.Prelude.{ℕ, zero, suc, ◌+◌, ◌-◌, List, [], ◌∷◌, Bytes, from_le, usize_max}
use jam_script.Prelude.{length, take, drop, ltb, ◌==◌, if◌then◌else◌, Result, ok, err}
use jam_script.Wire.{WireError, unexpected_eof, length_overflow, invalid_encoding, too_many_items}

pub record Reader : Type 0 where
  pub bytes : Bytes
  pub offset : ℕ

abbrev pub Read : Type 0 → Type 0
Read A = Reader → Result WireError (A × Reader)

infixl 5 ◌>>=◌ ◌>>◌
unfoldable pub ◌>>=◌ : {A B : Type 0} → Read A → (A → Read B) → Read B
◌>>=◌ m f r = elim (m r) [ ok (a, r') ↦ f a r' | err e ↦ err e ]

abbrev pub ◌>>◌ : {B : Type 0} → Read (Unit {0}) → Read B → Read B
m >> k = m >>= λ _. k

unfoldable pub pure : {A : Type 0} → A → Read A
pure a r = ok (a, r)

unfoldable pub fail : {A : Type 0} → WireError → Read A
fail e r = err e

-- `?` on a result that does not read.
unfoldable pub lift : {A : Type 0} → Result WireError A → Read A
lift m r = elim m [ ok a ↦ ok (a, r) | err e ↦ err e ]

unfoldable pub new : Bytes → Reader
new bytes = record { bytes = bytes; offset = 0 }

-- `saturating_sub`, which is the subtraction of ℕ.
unfoldable pub remaining : Reader → ℕ
remaining r = length r.bytes - r.offset

unfoldable pub take_bytes : ℕ → Read Bytes
take_bytes n r =
    let end = r.offset + n in
    if ltb usize_max end
    then err length_overflow
    else if ltb (length r.bytes) end
    then err unexpected_eof
    else ok (take n (drop r.offset r.bytes), record r { offset = end })

first : Bytes → Result WireError ℕ
first [] = err unexpected_eof
first (b ∷ bs) = ok b

unfoldable pub u8 : Read ℕ
unfolding first
u8 = do b ← take_bytes 1; lift (first b)

-- `array::<N>`: what `take` returns has N bytes, so the conversion cannot fail.
unfoldable pub array : ℕ → Read Bytes
array n = take_bytes n

unfoldable pub u32 : Read ℕ
u32 = do b ← array 4; pure (from_le b)

unfoldable pub u64 : Read ℕ
u64 = do b ← array 8; pure (from_le b)

unfoldable pub bytes_u32 : Read Bytes
bytes_u32 = do n ← u32; take_bytes n

unfoldable pub bytes_limited : ℕ → Read Bytes
bytes_limited maximum = do n ← u32; if ltb maximum n then fail too_many_items else take_bytes n

-- `for _ in 0..count { out.push(item()?) }`
unfoldable pub repeat : {A : Type 0} → ℕ → Read A → Read (List A)
repeat zero item = pure []
repeat (suc n) item = do x ← item; xs ← repeat n item; pure (x ∷ xs)

-- The closing test `if reader.remaining() != 0 { return Err(InvalidEncoding) }`.
unfoldable pub finish : Read (Unit {0})
unfolding remaining
finish r = if remaining r == 0 then ok (tt, r) else err invalid_encoding

-- The value of a whole decoder, from the first byte.
unfoldable pub value : {A : Type 0} → Result WireError (A × Reader) → Result WireError A
value (ok (a, r)) = ok a
value (err e) = err e

unfoldable pub run : {A : Type 0} → Read A → Bytes → Result WireError A
unfolding value new
run m bytes = value (m (new bytes))
