-- ===== src/State/Transaction/Finish.antt =====
-- What `finish` hands over: the diff in canonical order, and the state that the reads saw.
use jam_script.Prelude.{
  List, [], ◌∷◌, Option, none, some, ◌≡◌, refl, sym, ◌∙◌, Bytes, bytes_eq, ok, ok_or, if◌then◌else◌,
  arith, >>=-eq-ok, All,
}
use jam_script.Entry.{Entry}
use jam_script.Entry.Order.{StrictlySorted}
use jam_script.KeyMap
use jam_script.KeyMap.{KeyMap}
use jam_script.KeyMap.Laws.{or_else, or_else-head, get-tail, StrictlySorted-tail}
use jam_script.Diff.{StateDiff}
use jam_script.State.{StateError}
use jam_script.State.Trie.{TrieLib, TrieLaws}
use jam_script.State.Overlay.Laws.{overlay_value-closed}
use jam_script.State.Full
use jam_script.State.Full.{apply_change, apply_changes, apply_diff, is_empty}
use jam_script.State.Transaction.{StateTransaction, get, finish_closed, finish_with_proof, finish}
use jam_script.State.Transaction.View.{IsTransaction, IsWritable, read}

module _ (t : TrieLib) where
  finish_closed-eq-ok :
      (s : StateTransaction t) (stack : List KeyMap) (p : t.Db × StateDiff × List Bytes)
      → finish_closed t s stack ≡ ok p
      → (stack ≡ [])
        × (p.1 ≡ record { changes = s.overlay.writes })
        × (apply_diff t s.base (record { changes = s.overlay.writes }) ≡ ok p.0)
  unfolding finish_closed
  finish_closed-eq-ok s (m ∷ rest) p h = cc
  finish_closed-eq-ok s [] p h =
      let (proof, h₁, h₂) = >>=-eq-ok (Full.proof_for t s.base s.touched) _ h in
      let (next, h₃, h₄) =
        >>=-eq-ok (apply_diff t s.base (record { changes = s.overlay.writes })) _ h₂ in
      (refl, cc h₄, cc (h₃, h₄))

  -- `finish` succeeds only with no transaction open, and applies exactly the writes.
  pub finish-eq-ok :
      (s : StateTransaction t) (next : t.Db) (diff : StateDiff)
      → finish t s ≡ ok (next, diff)
      → (s.overlay.transactions ≡ [])
        × (diff ≡ record { changes = s.overlay.writes })
        × (apply_diff t s.base (record { changes = s.overlay.writes }) ≡ ok next)
  unfolding finish finish_with_proof
  finish-eq-ok s next diff h =
      let (p, h₁, h₂) = >>=-eq-ok (finish_closed t s s.overlay.transactions) _ h in
      let (closed, e, done) = finish_closed-eq-ok s s.overlay.transactions p h₁ in
      let same_diff : p.1 ≡ diff = cc h₂ in
      let same_next : p.0 ≡ next = cc h₂ in (closed, sym same_diff ∙ e, rw same_next at done)

module _ (t : TrieLib) (laws : TrieLaws t) where
  ok_or-eq-ok : (o : Option t.Db) (db : t.Db) → ok_or o StateError.backend ≡ ok db → o ≡ some db
  ok_or-eq-ok none db h = cc
  ok_or-eq-ok (some a) db h = cc

  get-apply_change :
      (db db' : t.Db) (key : Bytes) (value : Option Bytes) (k : Bytes)
      → apply_change t db (record { key = key; value = value }) ≡ ok db'
      → t.get db' k ≡ (if bytes_eq key k then some value else t.get db k)
  unfolding apply_change
  get-apply_change db db' key none k h =
      laws.get-remove db db' key k (ok_or-eq-ok (t.remove db key) db' h)
  get-apply_change db db' key (some v) k h =
      laws.get-insert db db' key v k (ok_or-eq-ok (t.insert db key v) db' h)

  -- The changes of a diff, one after the other, leave each key with its change or as it was.
  get-apply_changes :
      (db db' : t.Db) (es : List Entry) (k : Bytes)
      → StrictlySorted es
      → apply_changes t db es ≡ ok db'
      → t.get db' k ≡ or_else (KeyMap.get k es) (t.get db k)
  unfolding apply_changes
  get-apply_changes db db' [] k s h = unfold KeyMap.get in cc
  get-apply_changes db db' (e ∷ es) k s h =
      let (db₁, h₁, h₂) = >>=-eq-ok (apply_change t db e) _ h in
      get-apply_changes db₁ db' es k (StrictlySorted-tail e es s) h₂
      ∙ rw (get-apply_change db db₁ e.key e.value k h₁)
          (or_else-head k e es (t.get db k) (get-tail e es s))

  get-apply_diff :
      (db db' : t.Db) (es : List Entry) (k : Bytes)
      → StrictlySorted es
      → apply_diff t db (record { changes = es }) ≡ ok db'
      → t.get db' k ≡ or_else (KeyMap.get k es) (t.get db k)
  unfolding apply_diff is_empty
  get-apply_diff db db' [] k s h = unfold KeyMap.get in cc
  get-apply_diff db db' (e ∷ es) k s h = get-apply_changes db db' (e ∷ es) k s h

  read-closed :
      (s : StateTransaction t) (next : t.Db) (k : Bytes)
      → s.overlay.transactions ≡ []
      → t.get next k ≡ or_else (KeyMap.get k s.overlay.writes) (t.get s.base k)
      → Full.get t next k ≡ read t s k
  unfolding Full.get get
  read-closed s next k closed h = ground (arith, overlay_value-closed s.overlay k closed)

  -- Under the laws of the trie, if a transaction that satisfies the invariant finishes, then no
  -- nested transaction was open, the diff is strictly sorted and names no reserved key, and every
  -- key of the new state reads as it did in the transaction.
  pub read-finish :
      (s : StateTransaction t) (next : t.Db) (diff : StateDiff)
      → IsTransaction t s
      → finish t s ≡ ok (next, diff)
      → (s.overlay.transactions ≡ [])
        × StrictlySorted diff.changes
        × All IsWritable diff.changes
        × ((k : Bytes) → Full.get t next k ≡ read t s k)
  read-finish s next diff v h =
      let (closed, e, done) = finish-eq-ok t s next diff h in
      (
        closed,
        rw e v.writes_sorted,
        rw e v.writes_all,
        λ k.
            read-closed s next k closed
              (get-apply_diff s.base next s.overlay.writes k v.writes_sorted done),
      )
