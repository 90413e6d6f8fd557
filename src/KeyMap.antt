-- ===== src/KeyMap.antt =====
-- `BTreeMap<Vec<u8>, Option<Vec<u8>>>` as crates/service-runtime-state/src/lib.rs uses it: a list
-- of entries in key order. The list is also the order in which `into_iter` yields.
pub mod Laws
use jam_script.Prelude.{
  List, [], ◌∷◌, Option, none, some, Bytes, bytes_eq, bytes_lt, if◌then◌else◌, Bool, true, false,
  ◌||◌,
}
use jam_script.Entry.{Entry}

abbrev pub KeyMap : Type 0
KeyMap = List Entry

unfoldable pub get : Bytes → KeyMap → Option (Option Bytes)
get k [] = none
get k (e ∷ m) = if bytes_eq e.key k then some e.value else get k m

unfoldable pub insert : Entry → KeyMap → KeyMap
insert x [] = x ∷ []
insert x (e ∷ m) =
    if bytes_eq e.key x.key
    then x ∷ m
    else if bytes_lt x.key e.key
    then x ∷ e ∷ m
    else e ∷ insert x m

-- `extend`: the entries of the second map go into the first, in order.
unfoldable pub extend : KeyMap → KeyMap → KeyMap
extend m [] = m
extend m (e ∷ more) = extend (insert e m) more
