-- ===== src/RefineOutput/Dependencies/Decoded.antt =====
-- What the decoder of `RuntimeRefineOutputV1` in crates/service-runtime-core/src/lib.rs accepts.
use jam_script.Prelude.{
  ℕ, zero, suc, ◌≡◌, subst, List, [], ◌∷◌, Option, none, some, false, Bytes, bytes_eq→eq, ltb, ◌==◌,
  arith, ok,
}
use jam_script.Wire.{
  unsupported_version, too_many_items, unsorted_dependencies, duplicate_service_id,
}
use jam_script.Wire.Limits.{managed_state_protocol_version, max_recovery_bytes}
use jam_script.Wire.Reader
use jam_script.Wire.Reader.{Reader, Read, ◌>>=◌, ◌>>◌}
use jam_script.Wire.Reader.Rules.Yields.{
  Yields, Yields-pure, Yields-fail, Yields-if, Yields-bind, Yields-step, Yields-lift, Yields-run,
}
use jam_script.Recovery
use jam_script.Recovery.{StateRecovery}
use jam_script.RefineOutput.{
  ExternalStateDependency, RefineOutput, RefineTransitionHeader, check_recovery,
  max_external_state_witnesses,
}
use jam_script.RefineOutput.Read.{
  is_before, is_repeated, is_conflict, read_rest, decode_dependencies, read_validity, read_head,
  read_receipts, read_output, decode,
}
use jam_script.RefineOutput.Header.{check_recovery-eq-ok, decode-eq-ok}
use jam_script.RefineOutput.Dependencies.{IncreasingAbove, IsIncreasing}

-- The dependencies that follow `last`, if one was pushed.
abbrev Follows : Option ExternalStateDependency → List ExternalStateDependency → Type 0
Follows none ds = IsIncreasing ds
Follows (some last) ds = IncreasingAbove last.service_id ds

Follows-next :
    (last : Option ExternalStateDependency) (d : ExternalStateDependency)
    (ds : List ExternalStateDependency)
    → is_before d.service_id last ≡ false
    → is_repeated d.service_id last ≡ false
    → Follows (some d) ds
    → Follows last (d ∷ ds)
unfolding is_before is_repeated
Follows-next none d ds e f h = h
Follows-next (some last) d ds e f h = (ground arith, h)

Yields-read_rest :
    (last : Option ExternalStateDependency) (n : ℕ) → Yields (read_rest last n) (Follows last)
unfolding read_rest
Yields-read_rest none zero = Yields-pure [] tt
Yields-read_rest (some last) zero = Yields-pure [] tt
Yields-read_rest last (suc n) = Yields-step Reader.u32 _ λ service_id.
    Yields-if (is_before service_id last) (λ before. Yields-fail unsorted_dependencies)
      λ after. Yields-step (Reader.array 32) _ λ state_root.
        Yields-if (is_repeated service_id last)
          (λ same.
            Yields-if (is_conflict state_root last) (λ conflict. Yields-fail duplicate_service_id)
              λ agrees. Yields-read_rest last n)
          λ new.
            let d : ExternalStateDependency = record {
              service_id = service_id;
              state_root = state_root;
            } in
            Yields-bind (read_rest (some d) n) _ (Yields-read_rest (some d) n)
              λ more h. Yields-pure (d ∷ more) (Follows-next last d more after new h)

Yields-decode_dependencies : Yields decode_dependencies IsIncreasing
unfolding decode_dependencies
Yields-decode_dependencies = Yields-step Reader.u32 _ λ count.
    Yields-if (ltb max_external_state_witnesses count) (λ long. Yields-fail too_many_items)
      λ short. Yields-read_rest none count

-- The version is the only one there is, and each service has one dependency.
abbrev IsHead : RefineTransitionHeader → Type 0
IsHead h = (h.version ≡ 1) × IsIncreasing h.external_dependencies

Yields-read_head : Yields read_head IsHead
unfolding read_head
Yields-read_head = Yields-step Reader.u8 _ λ version.
    Yields-if (version == managed_state_protocol_version)
      (λ one. Yields-step (Reader.array 32) _ λ parent. Yields-step (Reader.array 32) _ λ new.
        Yields-bind decode_dependencies _ Yields-decode_dependencies λ ds increasing.
          Yields-step Reader.u8 _ λ tag. Yields-step (read_validity tag) _ λ validity.
            Yields-step (Reader.array 32) _ λ commitment. Yields-pure _ (ground arith, increasing))
      λ other. Yields-fail unsupported_version

abbrev IsRead : RefineOutput → Type 0
IsRead o = (o.version ≡ 1) × IsIncreasing o.external_dependencies

Yields-read_output : Yields read_output IsRead
unfolding read_output
Yields-read_output = Yields-bind read_head _ Yields-read_head λ head known.
    Yields-step read_receipts _ λ receipts.
      Yields-step (Reader.bytes_limited max_recovery_bytes) _
        λ payload. Yields-step Reader.finish _ λ done. Yields-pure _ known

-- An output whose recovery can be used: the payload is the one committed to and decodes.
pub record IsPublished (blake2_256 : Bytes → Bytes) (o : RefineOutput) : Type 0 where
  pub version : o.version ≡ 1
  pub increasing : IsIncreasing o.external_dependencies
  pub committed : blake2_256 o.recovery_payload ≡ o.recovery_commitment
  pub recovery : StateRecovery
  pub recovered : Recovery.decode o.recovery_payload ≡ ok recovery

module _ (blake2_256 : Bytes → Bytes) where
  -- If `decode` accepts a refine output, its version is 1, the services of its dependencies
  -- increase, its commitment is the hash of its payload, and the payload decodes to a recovery.
  pub decode-IsPublished :
      (bytes : Bytes) (out : RefineOutput)
      → decode blake2_256 bytes ≡ ok out
      → IsPublished blake2_256 out
  decode-IsPublished bytes out h =
      Yields-run bytes out
        (Yields-bind read_output _ Yields-read_output λ o known.
          Yields-lift (check_recovery blake2_256 o) λ o' good.
            let (same, committed, recovery, recovered) =
              check_recovery-eq-ok blake2_256 o o' good in
            subst (IsPublished blake2_256) same (record {
              version = known.0;
              increasing = known.1;
              committed = bytes_eq→eq _ _ committed;
              recovery = recovery;
              recovered = recovered;
            }))
        (decode-eq-ok blake2_256 bytes out h)
