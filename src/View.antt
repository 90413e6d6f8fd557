-- ===== src/View.antt =====
-- `StateViewV1` of crates/service-runtime-core/src/lib.rs: the part of the state that a script sees.
pub mod Read
pub mod Search
pub mod RoundTrip
use jam_script.Prelude.{
  ℕ, zero, suc, ◌+◌, ◌-◌, ◌/◌, List, [], ◌∷◌, ◌++◌, Option, none, some, not, ◌||◌, Bytes, bytes_eq,
  bytes_lt, length, ltb, ◌==◌, Result, ok, err, ◌>>=◌, ◌>>◌, reject, if◌then◌else◌,
}
use jam_script.Wire.{WireError, unsupported_version, too_many_items}
use jam_script.Wire.Limits.{
  state_view_version, max_state_view_entries, max_state_key_bytes, max_state_view_bytes,
}
use jam_script.Wire.Writer
use jam_script.Wire.Reader
use jam_script.Entry.{StateViewEntry, sort_entries, check_order, write_entries}
use jam_script.Diff.{value_too_long}
use jam_script.View.Read.{read_view}

pub record StateView : Type 0 where
  pub version : ℕ
  pub entries : List StateViewEntry

unfoldable pub default : StateView
default = record { version = state_view_version; entries = [] }

unfoldable pub check_entries : List StateViewEntry → Result WireError (Unit {0})
check_entries [] = ok tt
check_entries (entry ∷ rest) =
    reject (ltb max_state_key_bytes (length entry.key) || value_too_long entry.value) too_many_items
    >> check_entries rest

unfoldable pub validate_canonical : StateView → Result WireError (Unit {0})
validate_canonical view = do
  reject (not (view.version == state_view_version)) unsupported_version
  reject (ltb max_state_view_entries (length view.entries)) too_many_items
  check_entries view.entries
  check_order view.entries

unfoldable pub from_entries : List StateViewEntry → Result WireError StateView
from_entries entries =
    let view : StateView = record {
      version = state_view_version;
      entries = sort_entries entries;
    } in
    do validate_canonical view; ok view

unfoldable pub encode : StateView → Result WireError Bytes
encode view = do
  validate_canonical view
  count ← Writer.u32_len (length view.entries)
  entries ← write_entries view.entries
  let encoded = view.version ∷ Writer.u32 count ++ entries
  reject (ltb max_state_view_bytes (length encoded)) too_many_items
  ok encoded

unfoldable pub check_decoded : StateView → Result WireError StateView
check_decoded view = do validate_canonical view; ok view

unfoldable pub decode : Bytes → Result WireError StateView
decode bytes =
    if ltb max_state_view_bytes (length bytes)
    then err too_many_items
    else Reader.run
        (Reader.◌>>=◌ read_view λ entries. Reader.◌>>=◌ Reader.finish λ _.
          Reader.lift (check_decoded (record { version = state_view_version; entries = entries })))
        bytes
