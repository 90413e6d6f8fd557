-- ===== src/Transition.antt =====
-- `StateTransitionV1` of crates/service-runtime-core/src/lib.rs: the roots before and after an action and
-- the hash of the diff between them.
pub mod RoundTrip
use jam_script.Prelude.{
  ℕ, [], ◌∷◌, ◌++◌, Bytes, length, take, drop, ◌==◌, not, Result, ok, err, ◌>>=◌, ◌>>◌, reject,
}
use jam_script.Wire.{WireError, invalid_length, unsupported_version}
use jam_script.Wire.Limits.{managed_state_protocol_version}

pub record StateTransition : Type 0 where
  pub version : ℕ
  pub parent_root : Bytes
  pub new_root : Bytes
  pub diff_hash : Bytes

unfoldable pub encode : StateTransition → Bytes
encode t = t.version ∷ (t.parent_root ++ (t.new_root ++ t.diff_hash))

-- The last clause stands for an index out of bounds, which the length check rules out.
decode_fields : Bytes → Result WireError StateTransition
decode_fields (version ∷ rest) = do
  reject (not (version == managed_state_protocol_version)) unsupported_version
  ok (record {
    version = version;
    parent_root = take 32 rest;
    new_root = take 32 (drop 32 rest);
    diff_hash = drop 32 (drop 32 rest);
  })
decode_fields [] = err invalid_length

unfoldable pub decode : Bytes → Result WireError StateTransition
unfolding decode_fields
decode bytes = do reject (not (length bytes == 97)) invalid_length; decode_fields bytes
