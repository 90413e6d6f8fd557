-- ===== src/Commitment.antt =====
-- `ManagedStateCommitmentV1` of crates/service-runtime-core/src/lib.rs: the root that a service commits to.
pub mod RoundTrip
use jam_script.Prelude.{
  ℕ, [], ◌∷◌, Bytes, length, ◌==◌, not, ◌||◌, Result, ok, err, ◌>>=◌, ◌>>◌, reject,
}
use jam_script.Wire.{WireError, invalid_length, unsupported_version}
use jam_script.Wire.Limits.{managed_state_protocol_version, managed_state_layout_version}

pub record ManagedStateCommitment : Type 0 where
  pub protocol_version : ℕ
  pub layout_version : ℕ
  pub root : Bytes

unfoldable pub new : Bytes → ManagedStateCommitment
new root = record {
  protocol_version = managed_state_protocol_version;
  layout_version = managed_state_layout_version;
  root = root;
}

unfoldable pub encode : ManagedStateCommitment → Bytes
encode c = c.protocol_version ∷ c.layout_version ∷ c.root

-- The last clause stands for an index out of bounds, which the length check rules out.
decode_fields : Bytes → Result WireError ManagedStateCommitment
decode_fields (protocol ∷ layout ∷ root) = do
  reject
      (not (protocol == managed_state_protocol_version)
        || not (layout == managed_state_layout_version))
      unsupported_version
  ok (record { protocol_version = protocol; layout_version = layout; root = root })
decode_fields _ = err invalid_length

unfoldable pub decode : Bytes → Result WireError ManagedStateCommitment
unfolding decode_fields
decode bytes = do reject (not (length bytes == 34)) invalid_length; decode_fields bytes
