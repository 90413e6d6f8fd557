-- ===== src/Tests/States.antt =====
-- A trie that is a key map, and calls on it.
use jam_script.Prelude.{
  All, [], ◌∷◌, Option, none, some, ◌≡◌, refl, Bytes, bytes_eq, bytes_lt, ok, if◌then◌else◌, arith,
}
use jam_script.Keys.{is_reserved_service_storage_key}
use jam_script.KeyMap
use jam_script.KeyMap.{KeyMap}
use jam_script.KeyMap.Laws.{get-insert}
use jam_script.Entry.Order.{StrictlySorted}
use jam_script.State.Trie.{TrieLib, TrieLaws}
use jam_script.State.Overlay
use jam_script.State.Full
use jam_script.State.Transaction
use jam_script.State.Transaction.{StateTransaction}
use jam_script.State.Transaction.View.{IsWritable, read, IsTransaction, read-set, read-commit}
use jam_script.State.Transaction.Nesting.{Reach, Calls, rollback-Reach, Calls-IsTransaction}
use jam_script.State.Transaction.Finish.{read-finish}

abbrev pub found : Option (Option Bytes) → Option Bytes
found none = none
found (some v) = v

abbrev pub map_trie : TrieLib
map_trie = record {
  Db = KeyMap;
  empty = [];
  root = λ db. [];
  get = λ db k. some (found (KeyMap.get k db));
  insert = λ db k v. some (KeyMap.insert (record { key = k; value = some v }) db);
  remove = λ db k. some (KeyMap.insert (record { key = k; value = none }) db);
  prove = λ db keys. some [];
  from_proof = λ root nodes. [];
}

pub map_trie_laws : TrieLaws map_trie
map_trie_laws = record {
  get-insert =
      λ db db' k v j h. ground (arith, get-insert j (record { key = k; value = some v }) db);
  get-remove = λ db db' k j h. ground (arith, get-insert j (record { key = k; value = none }) db);
}

abbrev start : StateTransaction map_trie
start = record {
  base = record { key = 1 ∷ []; value = some (5 ∷ []) } ∷ [];
  overlay = Overlay.new;
  touched = [];
}

-- One nested transaction: a write, then a delete that is rolled back.
abbrev outer : StateTransaction map_trie
outer = record start { overlay = record { writes = []; transactions = [] ∷ [] } }

abbrev written : StateTransaction map_trie
written = record start {
  overlay = record {
    writes = [];
    transactions = (record { key = 2 ∷ []; value = some (8 ∷ []) } ∷ []) ∷ [];
  };
  touched = (2 ∷ []) ∷ [];
}

abbrev committed : StateTransaction map_trie
committed = record start {
  overlay = record {
    writes = record { key = 2 ∷ []; value = some (8 ∷ []) } ∷ [];
    transactions = [];
  };
  touched = (2 ∷ []) ∷ [];
}

write_two : Transaction.set map_trie outer (2 ∷ []) (8 ∷ []) ≡ ok written
unfolding Transaction.set is_reserved_service_storage_key bytes_eq Overlay.write KeyMap.insert
    Transaction.touch
write_two = refl

commit_two : Transaction.commit_transaction map_trie written ≡ ok committed
unfolding Transaction.commit_transaction Overlay.commit_transaction KeyMap.extend KeyMap.insert
commit_two = refl

open_outer : Transaction.begin_transaction map_trie start ≡ outer
unfolding Transaction.begin_transaction Overlay.begin_transaction
open_outer = refl

start-IsTransaction : IsTransaction map_trie start
start-IsTransaction = record { writes_sorted = tt; sorted = tt; writes_all = tt; all = tt }

outer-IsTransaction : IsTransaction map_trie outer
outer-IsTransaction = record {
  writes_sorted = tt;
  sorted = (tt, tt);
  writes_all = tt;
  all = (tt, tt);
}

-- A write, and the commit of the transaction that was open at the start.
history : Calls map_trie outer committed
history = Calls.after_commit (Calls.after_set (2 ∷ []) (8 ∷ []) Calls.none_yet write_two) commit_two

written-IsTransaction : IsTransaction map_trie written
written-IsTransaction =
    Calls-IsTransaction map_trie outer-IsTransaction
      (Calls.after_set (2 ∷ []) (8 ∷ []) Calls.none_yet write_two)

Calls-IsTransaction_example : IsTransaction map_trie committed
Calls-IsTransaction_example = Calls-IsTransaction map_trie outer-IsTransaction history

read-set_example :
    read map_trie written (2 ∷ [])
    ≡ (if bytes_eq (2 ∷ []) (2 ∷ []) then ok (some (8 ∷ [])) else read map_trie outer (2 ∷ []))
read-set_example = read-set map_trie outer written (2 ∷ []) (8 ∷ []) (2 ∷ []) write_two

read-commit_example : read map_trie committed (2 ∷ []) ≡ read map_trie written (2 ∷ [])
read-commit_example =
    read-commit map_trie written committed (2 ∷ []) written-IsTransaction commit_two

abbrev final_db : KeyMap
final_db =
    record { key = 1 ∷ []; value = some (5 ∷ []) }
    ∷ record { key = 2 ∷ []; value = some (8 ∷ []) }
    ∷ []

finish_two :
    Transaction.finish map_trie committed
    ≡ ok (final_db, record { changes = record { key = 2 ∷ []; value = some (8 ∷ []) } ∷ [] })
unfolding Transaction.finish Transaction.finish_with_proof Full.proof_for Full.apply_diff
    Full.is_empty Full.apply_changes KeyMap.insert bytes_eq bytes_lt
finish_two = refl

committed-IsTransaction : IsTransaction map_trie committed
committed-IsTransaction = Calls-IsTransaction map_trie outer-IsTransaction history

read-finish_example :
    (committed.overlay.transactions ≡ [])
    × StrictlySorted committed.overlay.writes
    × All IsWritable committed.overlay.writes
    × ((k : Bytes) → Full.get map_trie final_db k ≡ read map_trie committed k)
read-finish_example =
    read-finish map_trie map_trie_laws committed final_db
      (record { changes = committed.overlay.writes }) committed-IsTransaction finish_two

abbrev deleted : StateTransaction map_trie
deleted = record start {
  overlay = record {
    writes = [];
    transactions = (record { key = 2 ∷ []; value = none } ∷ []) ∷ [];
  };
  touched = (2 ∷ []) ∷ [];
}

delete_two : Transaction.delete map_trie written (2 ∷ []) ≡ ok deleted
unfolding Transaction.delete is_reserved_service_storage_key bytes_eq bytes_lt Overlay.write
    KeyMap.insert Transaction.touch
delete_two = refl

inner_history : Reach map_trie (Transaction.begin_transaction map_trie start) 0 written
inner_history =
    let open_one : Reach map_trie (Transaction.begin_transaction map_trie start) 0
        (Transaction.begin_transaction map_trie start) =
      Reach.start in
    Reach.write_key (2 ∷ []) (8 ∷ []) open_one (rw open_outer write_two)

rollback-Reach_example :
    (w : StateTransaction map_trie) × (Transaction.rollback_transaction map_trie written ≡ ok w)
    × (w.base ≡ start.base)
    × (w.overlay ≡ start.overlay)
rollback-Reach_example = rollback-Reach map_trie start written inner_history
