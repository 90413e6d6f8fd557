-- ===== src/State/Full.antt =====
-- `FullState` of crates/service-runtime-state/src/lib.rs, over the trie library.
use jam_script.Prelude.{
  List, [], ◌∷◌, Option, none, some, Bytes, Result, ok, ◌>>=◌, ok_or, Bool, true, false,
  if◌then◌else◌,
}
use jam_script.Entry.{Entry}
use jam_script.Diff.{StateDiff}
use jam_script.State.{StateError}
use jam_script.State.Trie.{TrieLib}

unfoldable pub is_empty : List Entry → Bool
is_empty [] = true
is_empty (x ∷ xs) = false

module _ (t : TrieLib) where
  open t use {Db}

  -- Key and value pairs inserted one after the other.
  unfoldable pub insert_pairs : Db → List (Bytes × Bytes) → Result StateError Db
  insert_pairs db [] = ok db
  insert_pairs db ((key, value) ∷ pairs) = do
    db' ← ok_or (t.insert db key value) StateError.backend
    insert_pairs db' pairs

  unfoldable pub from_pairs : List (Bytes × Bytes) → Result StateError Db
  from_pairs pairs = insert_pairs t.empty pairs

  unfoldable pub get : Db → Bytes → Result StateError (Option Bytes)
  get db key = ok_or (t.get db key) StateError.backend

  unfoldable pub proof_for : Db → List Bytes → Result StateError (List Bytes)
  proof_for db keys = ok_or (t.prove db keys) StateError.backend

  unfoldable pub apply_change : Db → Entry → Result StateError Db
  apply_change db change = elim change.value [
    | some value ↦ ok_or (t.insert db change.key value) StateError.backend
    | none ↦ ok_or (t.remove db change.key) StateError.backend
  ]

  unfoldable pub apply_changes : Db → List Entry → Result StateError Db
  unfolding apply_change
  apply_changes db [] = ok db
  apply_changes db (change ∷ rest) = do db' ← apply_change db change; apply_changes db' rest

  unfoldable pub apply_diff : Db → StateDiff → Result StateError Db
  apply_diff db diff = if is_empty diff.changes then ok db else apply_changes db diff.changes
