-- ===== src/Entry/Codec.antt =====
-- Entries are written and read back as the same bytes.
use jam_script.Prelude.{
  ℕ, ◌≤◌, ◌*◌, List, [], ◌∷◌, ◌++◌, append-nil, Option, none, some, ◌≡◌, refl, ◌∙◌, Bytes, ok,
  length, length-append, All, flat_map, arith, le→ltb_not, u32_max, ◌==◌, ap, ap₂,
}
use jam_script.Wire.{invalid_encoding}
use jam_script.Wire.Limits.{max_state_key_bytes, max_state_value_bytes}
use jam_script.Wire.Writer
use jam_script.Wire.Reader
use jam_script.Wire.Reader.{◌>>=◌, pure, u8, bytes_limited, fail}
use jam_script.Wire.Reader.Rules.{
  Reads, Consumes, Reads-bind, Reads-pure, Reads-cast, Consumes-bind, Consumes-pure, Consumes-if,
  Consumes-fail,
}
use jam_script.Wire.Reader.Rules.Fields.{
  Reads-u8, Reads-bytes_limited, Consumes-u8, Consumes-bytes_limited, prefixed, length-prefixed,
  Reads-repeat, Consumes-repeat,
}
use jam_script.Entry.{Entry, write_value, write_entry, write_entries}
use jam_script.Entry.Read.{read_value, read_entry}

-- The bytes of a value and of an entry.
abbrev value_tag : Option Bytes → ℕ
value_tag none = 0
value_tag (some value) = 1

abbrev value_body : Option Bytes → Bytes
value_body none = []
value_body (some value) = prefixed value

abbrev pub value_bytes : Option Bytes → Bytes
value_bytes v = value_tag v ∷ value_body v

abbrev pub entry_bytes : Entry → Bytes
entry_bytes entry = prefixed entry.key ++ value_bytes entry.value

-- The limits on one entry.
abbrev pub ValueFits : Option Bytes → Type 0
ValueFits none = Unit
ValueFits (some value) = length value ≤ max_state_value_bytes

abbrev pub EntryFits : Entry → Type 0
EntryFits entry = (length entry.key ≤ max_state_key_bytes) × ValueFits entry.value

pub bytes_u32-prefixed : (b : Bytes) → length b ≤ u32_max → Writer.bytes_u32 b ≡ ok (prefixed b)
unfolding Writer.bytes_u32 Writer.u32_len
bytes_u32-prefixed b h = rw (le→ltb_not u32_max (length b) h)

write_value-value_bytes : (v : Option Bytes) → ValueFits v → write_value v ≡ ok (value_bytes v)
unfolding write_value
write_value-value_bytes none h = refl
write_value-value_bytes (some value) h = rw (bytes_u32-prefixed value (omega arith))

write_entry-entry_bytes : (e : Entry) → EntryFits e → write_entry e ≡ ok (entry_bytes e)
unfolding write_entry
write_entry-entry_bytes e (hk, hv) =
    rw (bytes_u32-prefixed e.key (omega arith), write_value-value_bytes e.value hv)

pub write_entries-flat_map :
    (es : List Entry) → All EntryFits es → write_entries es ≡ ok (flat_map entry_bytes es)
unfolding write_entries
write_entries-flat_map [] h = refl
write_entries-flat_map (e ∷ es) (h, hs) =
    rw (write_entry-entry_bytes e h, write_entries-flat_map es hs)

Reads-read_value :
    (v : Option Bytes) → ValueFits v → Reads (read_value (value_tag v)) (value_body v) v
unfolding read_value
Reads-read_value none h = Reads-pure none
Reads-read_value (some value) h =
    Reads-cast
      (Reads-bind (bytes_limited max_state_value_bytes) _ (prefixed value) []
        (Reads-bytes_limited max_state_value_bytes value h (omega arith)) (Reads-pure (some value)))
      (append-nil (prefixed value))

pub Reads-read_entry : (e : Entry) → EntryFits e → Reads read_entry (entry_bytes e) e
unfolding read_entry
Reads-read_entry e (hk, hv) =
    Reads-bind (bytes_limited max_state_key_bytes) _ (prefixed e.key) (value_bytes e.value)
      (Reads-bytes_limited max_state_key_bytes e.key hk (omega arith))
      (Reads-bind u8 _ (value_tag e.value ∷ []) (value_body e.value) (Reads-u8 (value_tag e.value))
        (Reads-cast
          (Reads-bind (read_value (value_tag e.value)) _ (value_body e.value) []
            (Reads-read_value e.value hv) (Reads-pure e))
          (append-nil (value_body e.value))))

Consumes-read_value :
    (tag : ℕ) → Consumes (read_value tag) (λ v u. (tag ∷ u ≡ value_bytes v) × ValueFits v)
unfolding read_value
Consumes-read_value tag =
    Consumes-if (tag == 0) _ _ (λ h. Consumes-pure none (ground arith, tt))
      λ h.
        Consumes-if (tag == 1) _ _
          (λ one.
            Consumes-bind (bytes_limited max_state_value_bytes) _
              (Consumes-bytes_limited max_state_value_bytes)
              (λ value u hu.
                Consumes-pure (some value)
                  (ap₂ ◌∷◌ {x = tag} (ground arith) (append-nil u ∙ hu.0), hu.1)))
          (λ other. Consumes-fail invalid_encoding)

pub Consumes-read_entry : Consumes read_entry (λ e u. (u ≡ entry_bytes e) × EntryFits e)
unfolding read_entry
Consumes-read_entry =
    Consumes-bind (bytes_limited max_state_key_bytes) _ (Consumes-bytes_limited max_state_key_bytes)
      λ key u hu. Consumes-bind u8 _ Consumes-u8 λ tag v hv.
        Consumes-bind (read_value tag) _ (Consumes-read_value tag) λ value w hw.
          Consumes-pure (record { key = key; value = value })
            (rw (append-nil, hu.0, hv.0) (ap (λ t. prefixed key ++ t) hw.0), (hu.1, hw.1))

-- The loops over the entries.
pub Reads-entries :
    (es : List Entry)
    → All EntryFits es
    → Reads (Reader.repeat (length es) read_entry) (flat_map entry_bytes es) es
Reads-entries es h = Reads-repeat read_entry entry_bytes es (All-Reads es h)
  where
    All-Reads :
        (es : List Entry) → All EntryFits es → All (λ e. Reads read_entry (entry_bytes e) e) es
    All-Reads [] h = tt
    All-Reads (e ∷ es) (h, hs) = (Reads-read_entry e h, All-Reads es hs)

pub Consumes-entries :
    (n : ℕ)
    → Consumes
        (Reader.repeat n read_entry)
        (λ es u. (u ≡ flat_map entry_bytes es) × (length es ≡ n) × All EntryFits es)
Consumes-entries = Consumes-repeat read_entry entry_bytes Consumes-read_entry

-- How long the entries can be.
length-value_bytes : (v : Option Bytes) → ValueFits v → length (value_bytes v) ≤ 65541
length-value_bytes none h = omega arith
length-value_bytes (some value) h = omega (arith, length-prefixed value)

length-entry_bytes : (e : Entry) → EntryFits e → length (entry_bytes e) ≤ 69641
length-entry_bytes e (hk, hv) = omega (
  arith,
  length-append (prefixed e.key) (value_bytes e.value),
  length-prefixed e.key,
  length-value_bytes e.value hv,
)

pub length-entries :
    (es : List Entry) → All EntryFits es → length (flat_map entry_bytes es) ≤ 69641 * length es
length-entries [] h = omega arith
length-entries (e ∷ es) (h, hs) = omega (
  arith,
  length-entry_bytes e h,
  length-entries es hs,
  length-append (entry_bytes e) (flat_map entry_bytes es),
)
