-- ===== src/GuestMemory/Laws.antt =====
-- What the checks of budgets and fault records guarantee.
use jam_script.Prelude.{
  ℕ, ◌≤◌, ◌<◌, ◌%◌, ◌^◌, ◌≡◌, sym, ap, ◌∙◌, ◌++◌, Bytes, bytes_eq, bytes_eq→eq, le_bytes,
  from_le-le_bytes, length, true, ◌==◌, not, ok, reject-eq-ok, >>=-eq-ok, arith, subst, ◌↔◌,
}
use jam_script.GuestMemory.{GuestMemoryBudget}
use jam_script.GuestMemory
use jam_script.GuestMemory.Fault.{
  GuestFaultRecord, guest_fault_magic, is_none, code_from, stage_from, is_power_below, validate,
  encode, number_at, read_fields, decode,
}

-- Whole pages, at least one, with the initial heap within the maximum and that within the platform's.
pub record IsBudget (b : GuestMemoryBudget) : Type 0 where
  pub positive : 4096 ≤ b.heap_initial_bytes
  pub initial_pages : b.heap_initial_bytes % 4096 ≡ 0
  pub max_pages : b.heap_max_bytes % 4096 ≡ 0
  pub ordered : b.heap_initial_bytes ≤ b.heap_max_bytes
  pub capped : b.heap_max_bytes ≤ 67108864

-- `validate` returns a budget unchanged exactly if both of its sizes are whole pages of 4096
-- bytes, the initial one has at least one page and is at most the maximum, and the maximum is at
-- most 64 MiB.
pub validate-IsBudget : (b : GuestMemoryBudget) → (GuestMemory.validate b ≡ ok b) ↔ IsBudget b
unfolding GuestMemory.validate
validate-IsBudget b = (
  λ h. record {
    positive = ground arith;
    initial_pages = ground arith;
    max_pages = ground arith;
    ordered = ground arith;
    capped = ground arith;
  },
  λ h. ground (arith, h.positive, h.initial_pages, h.max_pages, h.ordered, h.capped),
)

-- The counters of an accepted record.
pub record IsConsistent (r : GuestFaultRecord) : Type 0 where
  pub committed : r.heap_committed_bytes ≤ r.heap_max_bytes
  pub capped : r.heap_max_bytes ≤ 67108864
  pub live : r.live_requested_bytes ≤ r.high_water_requested_bytes
  pub high_water : r.high_water_requested_bytes ≤ r.cumulative_requested_bytes

validate-IsConsistent : (r : GuestFaultRecord) → validate r ≡ ok tt → IsConsistent r
unfolding validate
validate-IsConsistent r h = record {
  committed = ground arith;
  capped = ground arith;
  live = ground arith;
  high_water = ground arith;
}

-- If `decode` returns a fault record, its committed heap is within its maximum, that is within 64
-- MiB, and the live, high-water and cumulative counters do not decrease in this order.
pub decode-IsConsistent :
    (input : Bytes) (r : GuestFaultRecord) → decode input ≡ ok r → IsConsistent r
unfolding decode
decode-IsConsistent input r h =
    let fields = read_fields input in
    let (g₁, h₁) =
      reject-eq-ok (not (length input == 44)) (GuestMemory.Fault.invalid_length (length input)) _
        h in
    let (g₂, h₂) =
      reject-eq-ok (not (bytes_eq fields.magic guest_fault_magic)) GuestMemory.Fault.invalid_magic _
        h₁ in
    let (g₃, h₃) =
      reject-eq-ok (not (fields.version == 1))
        (GuestMemory.Fault.unsupported_version fields.version) _ h₂ in
    let (g₄, h₄) =
      reject-eq-ok (not (fields.record_length == 44))
        (GuestMemory.Fault.invalid_length fields.record_length) _ h₃ in
    let (u, h₅, h₆) = >>=-eq-ok (validate fields) (λ _. ok fields) h₄ in
    let same : fields ≡ r = cc h₆ in subst IsConsistent same (validate-IsConsistent fields h₅)

-- The fields of four bytes.
number_at-le_bytes : (v : ℕ) (rest : Bytes) → v < 2 ^ 32 → number_at 0 4 (le_bytes 4 v ++ rest) ≡ v
unfolding number_at le_bytes
number_at-le_bytes v rest h = from_le-le_bytes 4 v h

-- A record whose fields fit their widths.
pub record IsFault (r : GuestFaultRecord) : Type 0 where
  pub valid : validate r ≡ ok tt
  pub code : r.code < 2 ^ 32
  pub stage : r.stage < 2 ^ 32
  pub requested_bytes : r.requested_bytes < 2 ^ 32
  pub alignment : r.alignment < 2 ^ 32
  pub heap_committed_bytes : r.heap_committed_bytes < 2 ^ 32
  pub heap_max_bytes : r.heap_max_bytes < 2 ^ 32
  pub live_requested_bytes : r.live_requested_bytes < 2 ^ 32
  pub high_water_requested_bytes : r.high_water_requested_bytes < 2 ^ 32
  pub cumulative_requested_bytes : r.cumulative_requested_bytes < 2 ^ 32

validate-header :
    (r : GuestFaultRecord)
    → validate r ≡ ok tt
    → (bytes_eq r.magic guest_fault_magic ≡ true) × (r.version ≡ 1) × (r.record_length ≡ 44)
unfolding validate
validate-header r h = (ground arith, ground arith, ground arith)

read_fields-encode : (r : GuestFaultRecord) → IsFault r → read_fields (encode r) ≡ r
unfolding read_fields encode number_at le_bytes
read_fields-encode r h =
    let (m, v, l) = validate-header r h.valid in
    let magic : r.magic ≡ guest_fault_magic = bytes_eq→eq r.magic guest_fault_magic m in
    let version = from_le-le_bytes 2 r.version (omega (arith, v)) in
    let record_length = from_le-le_bytes 2 r.record_length (omega (arith, l)) in
    let code = from_le-le_bytes 4 r.code h.code in
    let stage = from_le-le_bytes 4 r.stage h.stage in
    let requested = from_le-le_bytes 4 r.requested_bytes h.requested_bytes in
    let alignment = from_le-le_bytes 4 r.alignment h.alignment in
    let committed = from_le-le_bytes 4 r.heap_committed_bytes h.heap_committed_bytes in
    let heap_max = from_le-le_bytes 4 r.heap_max_bytes h.heap_max_bytes in
    let live = from_le-le_bytes 4 r.live_requested_bytes h.live_requested_bytes in
    let high = from_le-le_bytes 4 r.high_water_requested_bytes h.high_water_requested_bytes in
    let cumulative = from_le-le_bytes 4 r.cumulative_requested_bytes h.cumulative_requested_bytes in
    let back = sym magic in
    ap (λ (x : Bytes). read_fields (encode (record r { magic = x }))) magic ∙ (λ i. record {
      magic = back i;
      version = version i;
      record_length = record_length i;
      code = code i;
      stage = stage i;
      requested_bytes = requested i;
      alignment = alignment i;
      heap_committed_bytes = committed i;
      heap_max_bytes = heap_max i;
      live_requested_bytes = live i;
      high_water_requested_bytes = high i;
      cumulative_requested_bytes = cumulative i;
    })

length-encode_fault : (r : GuestFaultRecord) → IsFault r → length (encode r) ≡ 44
unfolding encode le_bytes
length-encode_fault r h =
    let (m, v, l) = validate-header r h.valid in
    let magic : r.magic ≡ guest_fault_magic = bytes_eq→eq r.magic guest_fault_magic m in
    ap (λ (x : Bytes). length (encode (record r { magic = x }))) magic

-- A fault record that `validate` accepts and whose fields fit in 32 bits is decoded from its
-- encoding.
pub decode-encode_fault : (r : GuestFaultRecord) → IsFault r → decode (encode r) ≡ ok r
unfolding decode
decode-encode_fault r h =
    let (m, v, l) = validate-header r h.valid in
    rw (length-encode_fault r h, read_fields-encode r h, h.valid, m, v, l)
