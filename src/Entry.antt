-- ===== src/Entry.antt =====
-- The keyed entries of crates/service-runtime-core/src/lib.rs: `StateChangeV1` and
-- `StateViewEntryV1` have the same two fields, the same bytes and the same canonical order.
pub mod Order
pub mod Read
pub mod Codec
use jam_script.Prelude.{
  List, [], ◌∷◌, ◌++◌, Option, none, some, Bool, true, false, ◌&&◌, Bytes, bytes_eq, bytes_lt,
  if◌then◌else◌, Result, ok, err, ◌>>=◌,
}
use jam_script.Wire.{WireError, duplicate_key, unsorted_keys}
use jam_script.Wire.Writer

-- A value of `none` is a deletion in a change, and a proven absence in a view.
pub record Entry : Type 0 where
  pub key : Bytes
  pub value : Option Bytes

abbrev pub StateChange : Type 0
StateChange = Entry

abbrev pub StateViewEntry : Type 0
StateViewEntry = Entry

unfoldable pub write_value : Option Bytes → Result WireError Bytes
write_value none = ok (0 ∷ [])
write_value (some value) = do bytes ← Writer.bytes_u32 value; ok (1 ∷ bytes)

unfoldable pub write_entry : Entry → Result WireError Bytes
write_entry entry = do
  key ← Writer.bytes_u32 entry.key
  value ← write_value entry.value
  ok (key ++ value)

unfoldable pub write_entries : List Entry → Result WireError Bytes
write_entries [] = ok []
write_entries (entry ∷ rest) = do
  bytes ← write_entry entry
  more ← write_entries rest
  ok (bytes ++ more)

-- `sort_by(|left, right| left.key.cmp(&right.key))`: a stable sort.
unfoldable pub insert_entry : Entry → List Entry → List Entry
insert_entry x [] = x ∷ []
insert_entry x (y ∷ ys) = if bytes_lt y.key x.key then y ∷ insert_entry x ys else x ∷ y ∷ ys

unfoldable pub sort_entries : List Entry → List Entry
sort_entries [] = []
sort_entries (x ∷ xs) = insert_entry x (sort_entries xs)

-- The loop over `windows(2)` of both `validate_canonical`s.
unfoldable pub check_order : List Entry → Result WireError (Unit {0})
check_order [] = ok tt
check_order (x ∷ []) = ok tt
check_order (x ∷ y ∷ rest) =
    if bytes_eq x.key y.key
    then err duplicate_key
    else if bytes_lt y.key x.key
    then err unsorted_keys
    else check_order (y ∷ rest)

-- The derived `PartialEq` of the entries.
unfoldable pub value_eq : Option Bytes → Option Bytes → Bool
value_eq none none = true
value_eq none (some b) = false
value_eq (some a) none = false
value_eq (some a) (some b) = bytes_eq a b

unfoldable pub entries_eq : List Entry → List Entry → Bool
entries_eq [] [] = true
entries_eq [] (y ∷ ys) = false
entries_eq (x ∷ xs) [] = false
entries_eq (x ∷ xs) (y ∷ ys) = bytes_eq x.key y.key && value_eq x.value y.value && entries_eq xs ys
