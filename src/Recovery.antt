-- ===== src/Recovery.antt =====
-- `StateRecoveryV1` of crates/service-runtime-core/src/lib.rs: the diff that is published so that the state
-- can be rebuilt.
pub mod RoundTrip
use jam_script.Prelude.{
  ℕ, [], ◌∷◌, Bytes, length, ltb, ◌==◌, not, Result, ok, err, ◌>>=◌, ◌>>◌, reject, if◌then◌else◌,
}
use jam_script.Wire.{WireError, unsupported_version, too_many_items}
use jam_script.Wire.Limits.{recovery_format_version, max_recovery_bytes}
use jam_script.Wire.Writer
use jam_script.Wire.Reader
use jam_script.Wire.Reader.{Read}
use jam_script.Diff
use jam_script.Diff.{StateDiff}

pub record StateRecovery : Type 0 where
  pub version : ℕ
  pub diff : StateDiff

unfoldable pub new : StateDiff → Result WireError StateRecovery
new diff = do
  Diff.validate_limits diff
  canonical ← Diff.canonicalize diff
  ok (record { version = recovery_format_version; diff = canonical })

unfoldable pub encode : StateRecovery → Result WireError Bytes
encode recovery = do
  reject (not (recovery.version == recovery_format_version)) unsupported_version
  diff ← Diff.encode_canonical_checked recovery.diff
  body ← Writer.bytes_u32 diff
  let encoded = recovery.version ∷ body
  reject (ltb max_recovery_bytes (length encoded)) too_many_items
  ok encoded

-- The fields of `decode`; the version that it reads is the only one there is.
read_recovery : Read StateDiff
read_recovery = Reader.◌>>=◌ Reader.u8 λ version.
    if version == recovery_format_version
    then Reader.◌>>=◌ (Reader.bytes_limited max_recovery_bytes)
        (λ diff. Reader.lift (Diff.decode diff))
    else Reader.fail unsupported_version

unfoldable pub decode : Bytes → Result WireError StateRecovery
unfolding read_recovery
decode bytes =
    if ltb max_recovery_bytes (length bytes)
    then err too_many_items
    else Reader.run
        (Reader.◌>>=◌ read_recovery λ diff.
          Reader.◌>>=◌ Reader.finish
            λ _. Reader.lift (ok (record { version = recovery_format_version; diff = diff })))
        bytes

module _ (blake2_256 : Bytes → Bytes) where
  unfoldable pub commitment : StateRecovery → Result WireError Bytes
  commitment recovery = do encoded ← encode recovery; ok (blake2_256 encoded)
