-- ===== src/State/Transaction.antt =====
-- `StateTransaction` of crates/service-runtime-state/src/lib.rs, with its `ManagedState` methods.
pub mod View
pub mod Nesting
pub mod Finish
use jam_script.Prelude.{
  List, [], ◌∷◌, Option, none, some, Bytes, bytes_eq, bytes_lt, Result, ok, err, ◌>>=◌, ◌>>◌,
  if◌then◌else◌,
}
use jam_script.Keys.{is_reserved_service_storage_key}
use jam_script.Entry.{Entry}
use jam_script.Diff.{StateDiff}
use jam_script.State.{StateError}
use jam_script.State.Trie.{TrieLib}
use jam_script.State.Overlay
use jam_script.State.Overlay.{Overlay}
use jam_script.State.Full

-- `BTreeSet<Vec<u8>>`: the keys in order.
unfoldable pub touch : Bytes → List Bytes → List Bytes
touch key [] = key ∷ []
touch key (k ∷ ks) =
    if bytes_eq k key then k ∷ ks else if bytes_lt key k then key ∷ k ∷ ks else k ∷ touch key ks

module _ (t : TrieLib) where
  pub record StateTransaction : Type 0 where
    pub base : t.Db
    pub overlay : Overlay
    pub touched : List Bytes

  unfoldable pub new : t.Db → StateTransaction
  new base = record { base = base; overlay = Overlay.new; touched = [] }

  unfoldable pub begin_transaction : StateTransaction → StateTransaction
  begin_transaction s = record s { overlay = Overlay.begin_transaction s.overlay }

  unfoldable pub commit_transaction : StateTransaction → Result StateError StateTransaction
  commit_transaction s = do
    overlay ← Overlay.commit_transaction s.overlay
    ok (record s { overlay = overlay })

  unfoldable pub rollback_transaction : StateTransaction → Result StateError StateTransaction
  rollback_transaction s = do
    overlay ← Overlay.rollback_transaction s.overlay
    ok (record s { overlay = overlay })

  -- The state that a read leaves, and its result: a read of the base is recorded even if it fails.
  unfoldable pub get :
      StateTransaction → Bytes → Result StateError (Option Bytes) × StateTransaction
  get s key = elim (Overlay.overlay_value s.overlay key) [
    | some value ↦ (ok value, s)
    | none ↦ (Full.get t s.base key, record s { touched = touch key s.touched })
  ]

  put : StateTransaction → Entry → Result StateError StateTransaction
  put s entry =
      if is_reserved_service_storage_key entry.key
      then err StateError.reserved_key
      else ok (record s {
        overlay = Overlay.write s.overlay entry;
        touched = touch entry.key s.touched;
      })

  unfoldable pub set : StateTransaction → Bytes → Bytes → Result StateError StateTransaction
  unfolding put
  set s key value = put s (record { key = key; value = some value })

  unfoldable pub delete : StateTransaction → Bytes → Result StateError StateTransaction
  unfolding put
  delete s key = put s (record { key = key; value = none })

  finish_closed :
      StateTransaction → List (List Entry) → Result StateError (t.Db × StateDiff × List Bytes)
  finish_closed s (open_one ∷ rest) = err StateError.backend
  finish_closed s [] = do
    proof ← Full.proof_for t s.base s.touched
    let diff : StateDiff = record { changes = s.overlay.writes }
    next ← Full.apply_diff t s.base diff
    ok (next, diff, proof)

  unfoldable pub finish_with_proof :
      StateTransaction → Result StateError (t.Db × StateDiff × List Bytes)
  unfolding finish_closed
  finish_with_proof s = finish_closed s s.overlay.transactions

  unfoldable pub finish : StateTransaction → Result StateError (t.Db × StateDiff)
  finish s = do (state, diff, proof) ← finish_with_proof s; ok (state, diff)
