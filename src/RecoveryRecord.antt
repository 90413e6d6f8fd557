-- ===== src/RecoveryRecord.antt =====
-- `RecoveryRecordV1` of crates/service-runtime-core/src/lib.rs: a diff with the service and the roots that it
-- belongs to.
pub mod RoundTrip
use jam_script.Prelude.{ℕ, [], ◌∷◌, ◌++◌, Bytes, ◌==◌, Result, ok, err, ◌>>=◌, if◌then◌else◌}
use jam_script.Wire.{WireError, unsupported_version}
use jam_script.Wire.Limits.{recovery_format_version}
use jam_script.Wire.Writer
use jam_script.Wire.Reader
use jam_script.Wire.Reader.{Read}
use jam_script.Diff
use jam_script.Diff.{StateDiff}

pub record RecoveryRecord : Type 0 where
  pub version : ℕ
  pub service_key : Bytes
  pub parent_root : Bytes
  pub new_root : Bytes
  pub code_hash : Bytes
  pub state_delta : StateDiff

unfoldable pub encode : RecoveryRecord → Result WireError Bytes
encode r = do
  delta ← Diff.encode r.state_delta
  field ← Writer.bytes_u32 delta
  ok (r.version ∷ (r.service_key ++ (r.parent_root ++ (r.new_root ++ (r.code_hash ++ field)))))

-- The fields after the version, which is the only one there is.
unfoldable pub read_record : Read RecoveryRecord
read_record = Reader.◌>>=◌ Reader.u8 λ version.
    if version == recovery_format_version
    then Reader.◌>>=◌ (Reader.array 32) (λ service_key.
      Reader.◌>>=◌ (Reader.array 32) λ parent_root. Reader.◌>>=◌ (Reader.array 32) λ new_root.
        Reader.◌>>=◌ (Reader.array 32) λ code_hash. Reader.◌>>=◌ Reader.bytes_u32 λ field.
          Reader.◌>>=◌ (Reader.lift (Diff.decode field)) λ state_delta. Reader.pure (record {
            version = recovery_format_version;
            service_key = service_key;
            parent_root = parent_root;
            new_root = new_root;
            code_hash = code_hash;
            state_delta = state_delta;
          }))
    else Reader.fail unsupported_version

unfoldable pub decode : Bytes → Result WireError RecoveryRecord
decode bytes =
    Reader.run (Reader.◌>>=◌ read_record λ r. Reader.◌>>=◌ Reader.finish λ _. Reader.lift (ok r))
      bytes
