-- ===== src/State/Proof.antt =====
-- `ProofState` of crates/service-runtime-state/src/lib.rs: a state of which only the proven part is
-- there, as the guest sees it.
pub mod Simulation
pub mod Finish
use jam_script.Prelude.{
  List, [], ◌∷◌, Option, none, some, Bytes, Bool, true, false, ◌&&◌, not, Result, ok, err, ◌>>=◌,
  ok_or, if◌then◌else◌,
}
use jam_script.Keys.{is_reserved_service_storage_key}
use jam_script.Entry.{Entry}
use jam_script.KeyMap
use jam_script.KeyMap.{KeyMap}
use jam_script.Diff.{StateDiff}
use jam_script.State.{StateError}
use jam_script.State.Trie.{TrieLib}
use jam_script.State.Overlay
use jam_script.State.Overlay.{Overlay}
use jam_script.State.Full

unfoldable pub is_none : Option (Option Bytes) → Bool
is_none none = true
is_none (some v) = false

module _ (t : TrieLib) where
  -- `db` stands for the fields `db` and `root`.
  pub record ProofState : Type 0 where
    pub db : t.Db
    pub base_cache : KeyMap
    pub overlay : Overlay

  -- The root node must be among the proof's; the observer only reports progress.
  unfoldable pub from_proof : Bytes → List Bytes → Result StateError ProofState
  from_proof root proof =
      let db = t.from_proof root proof in
      do
        probe ← ok_or (t.get db []) StateError.missing_witness
        ok (record { db = db; base_cache = []; overlay = Overlay.new })

  unfoldable pub parent_root : ProofState → Bytes
  parent_root p = t.root p.db

  unfoldable pub begin_transaction : ProofState → ProofState
  begin_transaction p = record p { overlay = Overlay.begin_transaction p.overlay }

  unfoldable pub commit_transaction : ProofState → Result StateError ProofState
  commit_transaction p = do
    overlay ← Overlay.commit_transaction p.overlay
    ok (record p { overlay = overlay })

  unfoldable pub rollback_transaction : ProofState → Result StateError ProofState
  rollback_transaction p = do
    overlay ← Overlay.rollback_transaction p.overlay
    ok (record p { overlay = overlay })

  -- The value and the state with it in the cache; a failed read caches nothing.
  unfoldable pub base_value : ProofState → Bytes → Result StateError (Option Bytes × ProofState)
  base_value p key = elim (KeyMap.get key p.base_cache) [
    | some value ↦ ok (value, p)
    | none ↦ do
      value ← ok_or (t.get p.db key) StateError.missing_witness
      ok (
        value,
        record p { base_cache = KeyMap.insert (record { key = key; value = value }) p.base_cache },
      )
  ]

  unfoldable pub get : ProofState → Bytes → Result StateError (Option Bytes × ProofState)
  unfolding base_value
  get p key = elim (Overlay.overlay_value p.overlay key) [
    | some value ↦ ok (value, p)
    | none ↦ base_value p key
  ]

  -- A write wants a witness for its key, unless the key has been read or written before.
  unfoldable pub witness_key : ProofState → Bytes → Result StateError ProofState
  unfolding base_value is_none
  witness_key p key =
      if is_none (Overlay.overlay_value p.overlay key) && is_none (KeyMap.get key p.base_cache)
      then (do (value, p') ← base_value p key; ok p')
      else ok p

  put : ProofState → Entry → Result StateError ProofState
  unfolding witness_key
  put p entry =
      if is_reserved_service_storage_key entry.key then err StateError.reserved_key else (do
        p' ← witness_key p entry.key
        ok (record p' { overlay = Overlay.write p'.overlay entry }))

  unfoldable pub set : ProofState → Bytes → Bytes → Result StateError ProofState
  unfolding put
  set p key value = put p (record { key = key; value = some value })

  unfoldable pub delete : ProofState → Bytes → Result StateError ProofState
  unfolding put
  delete p key = put p (record { key = key; value = none })

  -- The root that the closed overlay leads to, and the diff.
  finish_closed : ProofState → List KeyMap → Result StateError (Bytes × StateDiff)
  finish_closed p (open_one ∷ rest) = err StateError.backend
  finish_closed p [] =
      let diff : StateDiff = record { changes = p.overlay.writes } in
      if Full.is_empty diff.changes
      then ok (t.root p.db, diff)
      else (do db ← Full.apply_changes t p.db diff.changes; ok (t.root db, diff))

  unfoldable pub finish : ProofState → Result StateError (Bytes × StateDiff)
  unfolding finish_closed
  finish p = finish_closed p p.overlay.transactions
