-- ===== src/State/Overlay.antt =====
-- The uncommitted writes of crates/service-runtime-state/src/lib.rs: `StateTransaction` and
-- `ProofState` both hold the fields `writes` and `transactions`, and have the same methods on them.
pub mod Laws
pub mod Stack
use jam_script.Prelude.{
  List, [], ◌∷◌, Option, none, some, Bytes, Result, ok, err, Bool, true, false,
}
use jam_script.Entry.{Entry}
use jam_script.KeyMap
use jam_script.KeyMap.{KeyMap}
use jam_script.State.{StateError}

-- The open transactions, the innermost (Rust's `last`) first.
pub record Overlay : Type 0 where
  pub writes : KeyMap
  pub transactions : List KeyMap

abbrev pub new : Overlay
new = record { writes = []; transactions = [] }

unfoldable pub begin_transaction : Overlay → Overlay
begin_transaction o = record o { transactions = [] ∷ o.transactions }

-- `parent.extend(changes)`, or `self.writes.extend(changes)` for the outermost.
commit_into : KeyMap → KeyMap → List KeyMap → Overlay
commit_into writes changes [] = record { writes = KeyMap.extend writes changes; transactions = [] }
commit_into writes changes (parent ∷ rest) = record {
  writes = writes;
  transactions = KeyMap.extend parent changes ∷ rest;
}

commit_stack : KeyMap → List KeyMap → Result StateError Overlay
unfolding commit_into
commit_stack writes [] = err StateError.backend
commit_stack writes (changes ∷ rest) = ok (commit_into writes changes rest)

unfoldable pub commit_transaction : Overlay → Result StateError Overlay
unfolding commit_stack
commit_transaction o = commit_stack o.writes o.transactions

rollback_stack : KeyMap → List KeyMap → Result StateError Overlay
rollback_stack writes [] = err StateError.backend
rollback_stack writes (changes ∷ rest) = ok (record { writes = writes; transactions = rest })

unfoldable pub rollback_transaction : Overlay → Result StateError Overlay
unfolding rollback_stack
rollback_transaction o = rollback_stack o.writes o.transactions

find_in : Bytes → KeyMap → List KeyMap → Option (Option Bytes)
find_in key writes [] = KeyMap.get key writes
find_in key writes (transaction ∷ rest) = elim (KeyMap.get key transaction) [
  | some value ↦ some value
  | none ↦ find_in key writes rest
]

unfoldable pub overlay_value : Overlay → Bytes → Option (Option Bytes)
unfolding find_in
overlay_value o key = find_in key o.writes o.transactions

write_stack : Entry → KeyMap → List KeyMap → Overlay
write_stack entry writes [] = record { writes = KeyMap.insert entry writes; transactions = [] }
write_stack entry writes (top ∷ rest) = record {
  writes = writes;
  transactions = KeyMap.insert entry top ∷ rest;
}

-- `self.transactions.last_mut().unwrap_or(&mut self.writes).insert(..)`
unfoldable pub write : Overlay → Entry → Overlay
unfolding write_stack
write o entry = write_stack entry o.writes o.transactions
