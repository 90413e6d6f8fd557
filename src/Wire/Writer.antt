-- ===== src/Wire/Writer.antt =====
-- `Writer` of crates/service-runtime-core/src/lib.rs: each method is the bytes that it appends.
use jam_script.Prelude.{ℕ, ◌++◌, Bytes, le_bytes, length, ltb, u32_max}
use jam_script.Prelude.{Result, ok, err, ◌>>=◌, if◌then◌else◌}
use jam_script.Wire.{WireError, length_overflow}

unfoldable pub u32 : ℕ → Bytes
u32 v = le_bytes 4 v

-- `u32::try_from(len)`
unfoldable pub u32_len : ℕ → Result WireError ℕ
u32_len n = if ltb u32_max n then err length_overflow else ok n

unfoldable pub bytes_u32 : Bytes → Result WireError Bytes
bytes_u32 value = do n ← u32_len (length value); ok (u32 n ++ value)
