-- ===== src/RefineOutput/Header.antt =====
-- The decoder of the transition header against the decoder of the whole output: where the second
-- reads a receipt, the first skips one.
use jam_script.Prelude.{
  ℕ, ◌≡◌, refl, map, true, false, not, Bytes, bytes_eq, ltb, ◌==◌, arith, ok, reject-eq-ok,
  >>=-eq-ok,
}
use jam_script.Wire.{invalid_encoding, too_many_items}
use jam_script.Wire.Limits.{max_recovery_bytes}
use jam_script.Wire.Reader
use jam_script.Wire.Reader.{Reader, Read, ◌>>=◌, ◌>>◌}
use jam_script.Recovery
use jam_script.Recovery.{StateRecovery}
use jam_script.RefineOutput.{
  ActionStatus, RefineOutput, RefineTransitionHeader, max_runtime_actions, check_recovery,
}
use jam_script.RefineOutput.Read.{
  read_head, status_from, read_error_code, read_receipt, read_receipts, skip_error_code,
  skip_receipt, skip_receipts, decode_transition_header, read_output, decode,
}
use jam_script.Wire.Reader.Rules.Skims.{
  Skims, Skims-refl, Skims-bind, Skims-pure, Skims-fail, Skims-if, Skims-else, Skims-end,
  Skims-repeat, Skims-lift, Skims-check, Skims-run,
}

status_from-bound : (b : ℕ) (status : ActionStatus) → status_from b ≡ ok status → ltb 2 b ≡ false
unfolding status_from
status_from-bound b status h = ground arith

Skims-error_code : (tag : ℕ) → Skims (read_error_code tag) (skip_error_code tag) (λ c. tt)
unfolding read_error_code skip_error_code
Skims-error_code tag = Skims-if (tag == 0) (Skims-pure _) (
    Skims-if (tag == 1) (Skims-bind _ _ (Skims-refl Reader.u32) λ e. Skims-pure _)
      (Skims-fail invalid_encoding))

Skims-receipt : Skims read_receipt skip_receipt (λ r. tt)
unfolding read_receipt skip_receipt
Skims-receipt = Skims-bind _ _ (Skims-refl (Reader.array 32)) λ hash.
    Skims-bind _ _ (Skims-refl Reader.u8) λ b. Skims-lift (status_from b) _ _ λ status e.
      Skims-else (ltb 2 b) _ (status_from-bound b status e) (
        Skims-bind _ _ (Skims-refl Reader.u8)
          λ tag. Skims-end _ (Skims-error_code tag) λ code. refl)

Skims-receipts : Skims read_receipts skip_receipts (map (λ r. tt))
unfolding read_receipts skip_receipts
Skims-receipts = Skims-bind _ _ (Skims-refl Reader.u32) λ count.
    Skims-if (ltb max_runtime_actions count) (Skims-fail too_many_items)
      (Skims-repeat count Skims-receipt)

-- The header of an output.
abbrev pub header_of : RefineOutput → RefineTransitionHeader
header_of o = record {
  version = o.version;
  parent_root = o.parent_root;
  new_root = o.new_root;
  external_dependencies = o.external_dependencies;
  transition_valid_until = o.transition_valid_until;
  recovery_commitment = o.recovery_commitment;
}

Skims-output :
    Skims read_output
      (read_head >>= λ header. skip_receipts >>= λ skipped.
        Reader.bytes_limited max_recovery_bytes >>= λ payload. Reader.finish >> Reader.pure header)
      header_of
unfolding read_output
Skims-output = Skims-bind _ _ (Skims-refl read_head) λ header.
    Skims-bind _ _ Skims-receipts λ receipts.
      Skims-bind _ _ (Skims-refl (Reader.bytes_limited max_recovery_bytes))
        λ payload. Skims-bind _ _ (Skims-refl Reader.finish) λ done. Skims-pure _

module _ (blake2_256 : Bytes → Bytes) where
  pub check_recovery-eq-ok :
      (o out : RefineOutput)
      → check_recovery blake2_256 o ≡ ok out
      → (o ≡ out)
        × (bytes_eq (blake2_256 o.recovery_payload) o.recovery_commitment ≡ true)
        × (recovery : StateRecovery) × (Recovery.decode o.recovery_payload ≡ ok recovery)
  unfolding check_recovery
  check_recovery-eq-ok o out h =
      let differs = not (bytes_eq (blake2_256 o.recovery_payload) o.recovery_commitment) in
      let (same, h₁) = reject-eq-ok differs invalid_encoding _ h in
      let (recovery, good, h₂) = >>=-eq-ok (Recovery.decode o.recovery_payload) _ h₁ in
      (cc h₂, ground arith, recovery, good)

  pub decode-eq-ok :
      (bytes : Bytes) (out : RefineOutput)
      → decode blake2_256 bytes ≡ ok out
      → Reader.run (read_output >>= λ o. Reader.lift (check_recovery blake2_256 o)) bytes ≡ ok out
  unfolding decode
  decode-eq-ok bytes out h = ground arith

  -- If `decode` accepts a refine output, `decode_transition_header` accepts the same bytes and
  -- returns the header of that output.
  pub decode_transition_header-decode :
      (bytes : Bytes) (out : RefineOutput)
      → decode blake2_256 bytes ≡ ok out
      → decode_transition_header bytes ≡ ok (header_of out)
  unfolding decode_transition_header
  decode_transition_header-decode bytes out h =
      Skims-run bytes out
        (Skims-check (check_recovery blake2_256) Skims-output
          λ o o' good. (check_recovery-eq-ok o o' good).0)
        (decode-eq-ok bytes out h)
