-- ===== src/State/Proof/Finish.antt =====
-- What the guest's `finish` hands over, and the root that it computes.
use jam_script.Prelude.{
  List, [], ◌∷◌, ◌≡◌, refl, Option, none, some, Bytes, ok, ok_or, Bool-cases, inl, inr, >>=-eq-ok,
}
use jam_script.Entry.{Entry}
use jam_script.State.{StateError}
use jam_script.KeyMap.{KeyMap}
use jam_script.Diff.{StateDiff}
use jam_script.State.Trie.{TrieLib, RootLaws}
use jam_script.State.Full.{apply_change, apply_changes, apply_diff, is_empty}
use jam_script.State.Proof.{ProofState, finish, finish_closed}

module _ (t : TrieLib) where
  finish_closed-eq-ok :
      (p : ProofState t) (stack : List KeyMap) (r : Bytes × StateDiff)
      → finish_closed t p stack ≡ ok r
      → (stack ≡ [])
        × (r.1 ≡ record { changes = p.overlay.writes })
        × (db : t.Db) × (apply_diff t p.db (record { changes = p.overlay.writes }) ≡ ok db)
        × (r.0 ≡ t.root db)
  unfolding finish_closed apply_diff
  finish_closed-eq-ok p (m ∷ rest) r h = cc
  finish_closed-eq-ok p [] r h =
      let changes = p.overlay.writes in
      elim (Bool-cases (is_empty changes)) [
        | inl e ↦ let done = (rw e at h) in (refl, cc done, p.db, rw e, cc done)
        | inr e ↦
            let (db, applied, done) = >>=-eq-ok (apply_changes t p.db changes) _ (rw e at h) in
            (refl, cc done, db, rw e applied, cc done)
      ]

  pub finish-eq-ok :
      (p : ProofState t) (root : Bytes) (diff : StateDiff)
      → finish t p ≡ ok (root, diff)
      → (p.overlay.transactions ≡ [])
        × (diff ≡ record { changes = p.overlay.writes })
        × (db : t.Db) × (apply_diff t p.db (record { changes = p.overlay.writes }) ≡ ok db)
        × (root ≡ t.root db)
  unfolding finish
  finish-eq-ok p root diff h = finish_closed-eq-ok p p.overlay.transactions (root, diff) h

module _ (t : TrieLib) (laws : RootLaws t) where
  ok_or-eq-ok : (o : Option t.Db) (db : t.Db) → ok_or o StateError.backend ≡ ok db → o ≡ some db
  ok_or-eq-ok none db h = cc
  ok_or-eq-ok (some a) db h = cc

  root-apply_change :
      (db db' full full' : t.Db) (key : Bytes) (value : Option Bytes)
      → t.root db ≡ t.root full
      → apply_change t db (record { key = key; value = value }) ≡ ok db'
      → apply_change t full (record { key = key; value = value }) ≡ ok full'
      → t.root db' ≡ t.root full'
  unfolding apply_change
  root-apply_change db db' full full' key none same e f =
      laws.root-remove db db' full full' key same (ok_or-eq-ok (t.remove db key) db' e)
        (ok_or-eq-ok (t.remove full key) full' f)
  root-apply_change db db' full full' key (some v) same e f =
      laws.root-insert db db' full full' key v same (ok_or-eq-ok (t.insert db key v) db' e)
        (ok_or-eq-ok (t.insert full key v) full' f)

  root-apply_changes :
      (es : List Entry) (db db' full full' : t.Db)
      → t.root db ≡ t.root full
      → apply_changes t db es ≡ ok db'
      → apply_changes t full es ≡ ok full'
      → t.root db' ≡ t.root full'
  unfolding apply_changes
  root-apply_changes [] db db' full full' same e f =
      let here : db ≡ db' = cc e in let there : full ≡ full' = cc f in rw (← here, ← there) same
  root-apply_changes (x ∷ xs) db db' full full' same e f =
      let (db₁, e₁, e₂) = >>=-eq-ok (apply_change t db x) _ e in
      let (full₁, f₁, f₂) = >>=-eq-ok (apply_change t full x) _ f in
      root-apply_changes xs db₁ db' full₁ full'
        (root-apply_change db db₁ full full₁ x.key x.value same e₁ f₁) e₂ f₂

  -- The same changes on a proof and on a full state of one root lead to one root.
  pub root-apply_diff :
      (es : List Entry) (db db' full full' : t.Db)
      → t.root db ≡ t.root full
      → apply_diff t db (record { changes = es }) ≡ ok db'
      → apply_diff t full (record { changes = es }) ≡ ok full'
      → t.root db' ≡ t.root full'
  unfolding apply_diff is_empty apply_changes
  root-apply_diff [] db db' full full' same e f = root-apply_changes [] db db' full full' same e f
  root-apply_diff (x ∷ xs) db db' full full' same e f =
      root-apply_changes (x ∷ xs) db db' full full' same e f
