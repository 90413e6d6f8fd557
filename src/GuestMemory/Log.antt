-- ===== src/GuestMemory/Log.antt =====
-- `write_log_message_v1` and `GuestFaultLogWriter` of crates/service-runtime-core/src/guest_memory.rs: the
-- text of a fault record, written without allocation into a buffer of the caller.
pub mod Text
use jam_script.Prelude.{
  ℕ, zero, suc, ◌+◌, ◌≤◌, ◌/◌, ◌%◌, List, [], ◌∷◌, ◌++◌, ◌≡◌, refl, ◌∙◌, ap, append_assoc,
  append-nil, Option, none, some, Bytes, length, length-append, ltb, le→ltb_not, ◌==◌,
  if◌then◌else◌, arith,
}
use jam_script.Keys.{codes}
use jam_script.GuestMemory.Fault.{GuestFaultRecord}

-- The bytes written so far stand for the front of the buffer and for `offset`.
pub record GuestFaultLogWriter : Type 0 where
  pub capacity : ℕ
  pub written : Bytes

-- `?` on an option.
abbrev and_then :
    Option GuestFaultLogWriter
    → (GuestFaultLogWriter → Option GuestFaultLogWriter)
    → Option GuestFaultLogWriter
and_then none f = none
and_then (some w) f = f w

unfoldable pub write_bytes : Bytes → GuestFaultLogWriter → Option GuestFaultLogWriter
write_bytes bytes w =
    if ltb w.capacity (length w.written + length bytes)
    then none
    else some (record w { written = w.written ++ bytes })

-- The digits from the last to the first, in an array of as many bytes as the first argument; `none`
-- is a write past its end, which a `u32` does not reach with ten bytes.
unfoldable pub reversed_digits : ℕ → ℕ → Option Bytes
reversed_digits zero value = none
reversed_digits (suc room) value =
    let digit = 48 + value % 10 in
    let rest = reversed_digits room (value / 10) in
    if value / 10 == 0
    then some (digit ∷ [])
    else elim rest [ none ↦ none | some ds ↦ some (digit ∷ ds) ]

unfoldable pub reverse_onto : Bytes → Bytes → Bytes
reverse_onto [] out = out
reverse_onto (d ∷ ds) out = reverse_onto ds (d ∷ out)

unfoldable pub write_each : Bytes → GuestFaultLogWriter → Option GuestFaultLogWriter
write_each [] w = some w
write_each (digit ∷ rest) w = and_then (write_bytes (digit ∷ []) w) λ w'. write_each rest w'

unfoldable pub write_number : ℕ → GuestFaultLogWriter → Option GuestFaultLogWriter
write_number value w = elim (reversed_digits 10 value) [
  | none ↦ none
  | some ds ↦ write_each (reverse_onto ds []) w
]

-- A label and the number after it.
pub record Part : Type 0 where
  pub label : Bytes
  pub number : ℕ

unfoldable pub write_parts : List Part → GuestFaultLogWriter → Option GuestFaultLogWriter
write_parts [] w = some w
write_parts (part ∷ rest) w =
    and_then (write_bytes part.label w)
      λ w₁. and_then (write_number part.number w₁) λ w₂. write_parts rest w₂

abbrev pub parts : GuestFaultRecord → List Part
parts r =
    record { label = codes "JSGF;v=1;code="; number = r.code }
    ∷ record { label = codes ";stage="; number = r.stage }
    ∷ record { label = codes ";req="; number = r.requested_bytes }
    ∷ record { label = codes ";align="; number = r.alignment }
    ∷ record { label = codes ";committed="; number = r.heap_committed_bytes }
    ∷ record { label = codes ";max="; number = r.heap_max_bytes }
    ∷ record { label = codes ";allocator_live_requested="; number = r.live_requested_bytes }
    ∷ record {
      label = codes ";allocator_high_water_requested=";
      number = r.high_water_requested_bytes;
    }
    ∷ record {
      label = codes ";allocator_cumulative_requested=";
      number = r.cumulative_requested_bytes;
    }
    ∷ []

unfoldable pub written_of : Option GuestFaultLogWriter → Option Bytes
written_of none = none
written_of (some w) = some w.written

-- The text that the buffer of the given length holds; its length is the result of the source.
unfoldable pub write_log_message : ℕ → GuestFaultRecord → Option Bytes
write_log_message capacity r =
    written_of (write_parts (parts r) (record { capacity = capacity; written = [] }))
