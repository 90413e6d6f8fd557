-- ===== src/State/Transaction/View.antt =====
-- What a read of a transaction returns after each operation, and the invariant of its maps.
use jam_script.Prelude.{
  Option, none, some, ◌≡◌, refl, false, Bytes, bytes_eq, ok, if◌then◌else◌, arith, Result,
}
use jam_script.Keys.{is_reserved_service_storage_key}
use jam_script.Entry.{Entry}
use jam_script.State.{StateError}
use jam_script.State.Trie.{TrieLib}
use jam_script.State.Overlay
use jam_script.State.Overlay.{Overlay}
use jam_script.State.Overlay.Laws.{
  IsOverlay, overlay_value-begin, overlay_value-write, overlay_value-commit, IsOverlay-begin,
  IsOverlay-write, IsOverlay-commit, IsOverlay-rollback,
}
use jam_script.State.Transaction.{
  StateTransaction, new, begin_transaction, commit_transaction, rollback_transaction, get, put, set,
  delete, touch,
}

-- A key that no application may write.
abbrev pub IsWritable : Entry → Type 0
IsWritable e = is_reserved_service_storage_key e.key ≡ false

module _ (t : TrieLib) where
  -- The result of a read.
  abbrev pub read : StateTransaction t → Bytes → Result StateError (Option Bytes)
  read s key = (get t s key).0

  abbrev pub IsTransaction : StateTransaction t → Type 0
  IsTransaction s = IsOverlay IsWritable s.overlay

  read-eq :
      (s u : StateTransaction t) (k : Bytes)
      → u.base ≡ s.base
      → Overlay.overlay_value u.overlay k ≡ Overlay.overlay_value s.overlay k
      → read u k ≡ read s k
  unfolding get
  read-eq s u k same h = ground arith

  -- A read changes no later read.
  pub read-get : (s : StateTransaction t) (k j : Bytes) → read (get t s k).1 j ≡ read s j
  unfolding get
  read-get s k j = ground arith

  pub read-begin : (s : StateTransaction t) (k : Bytes) → read (begin_transaction t s) k ≡ read s k
  unfolding begin_transaction
  read-begin s k = read-eq s (begin_transaction t s) k refl (overlay_value-begin s.overlay k)

  put-eq-ok :
      (s s' : StateTransaction t) (e : Entry)
      → put t s e ≡ ok s'
      → IsWritable e × (s'.base ≡ s.base) × (s'.overlay ≡ Overlay.write s.overlay e)
  unfolding put
  put-eq-ok s s' e h = ground arith

  read-put :
      (s s' : StateTransaction t) (e : Entry) (j : Bytes)
      → put t s e ≡ ok s'
      → read s' j ≡ (if bytes_eq e.key j then ok e.value else read s j)
  unfolding get
  read-put s s' e j h =
      let (w, hb, ho) = put-eq-ok s s' e h in
      ground (arith, overlay_value-write s.overlay e j, ho, hb)

  -- After a successful write of a key, a read of it returns the value, and a read of any other key
  -- what it did before.
  pub read-set :
      (s s' : StateTransaction t) (k v j : Bytes)
      → set t s k v ≡ ok s'
      → read s' j ≡ (if bytes_eq k j then ok (some v) else read s j)
  unfolding set
  read-set s s' k v j h = read-put s s' (record { key = k; value = some v }) j h

  -- After a successful deletion of a key, a read of it returns that it is absent, and a read of
  -- any other key what it did before.
  pub read-delete :
      (s s' : StateTransaction t) (k j : Bytes)
      → delete t s k ≡ ok s'
      → read s' j ≡ (if bytes_eq k j then ok none else read s j)
  unfolding delete
  read-delete s s' k j h = read-put s s' (record { key = k; value = none }) j h

  pub commit-eq-ok :
      (s s' : StateTransaction t)
      → commit_transaction t s ≡ ok s'
      → (s'.base ≡ s.base) × (Overlay.commit_transaction s.overlay ≡ ok s'.overlay)
  unfolding commit_transaction
  commit-eq-ok s s' h = ground arith

  -- In a transaction that satisfies the invariant, a commit that succeeds changes no read.
  pub read-commit :
      (s s' : StateTransaction t) (k : Bytes)
      → IsTransaction s
      → commit_transaction t s ≡ ok s'
      → read s' k ≡ read s k
  read-commit s s' k v h =
      let (hb, ho) = commit-eq-ok s s' h in
      read-eq s s' k hb (overlay_value-commit s.overlay s'.overlay k v.sorted ho)

  pub rollback-eq-ok :
      (s s' : StateTransaction t)
      → rollback_transaction t s ≡ ok s'
      → (s'.base ≡ s.base) × (Overlay.rollback_transaction s.overlay ≡ ok s'.overlay)
  unfolding rollback_transaction
  rollback-eq-ok s s' h = ground arith

  -- The invariant holds from the start and every operation keeps it.
  pub IsTransaction-new : (base : t.Db) → IsTransaction (new t base)
  unfolding new
  IsTransaction-new base = record { writes_sorted = tt; sorted = tt; writes_all = tt; all = tt }

  pub get_keeps :
      (s : StateTransaction t) (k : Bytes)
      → ((get t s k).1.overlay ≡ s.overlay) × ((get t s k).1.base ≡ s.base)
  unfolding get
  get_keeps s k = ground arith

  pub IsTransaction-get :
      (s : StateTransaction t) (k : Bytes) → IsTransaction s → IsTransaction (get t s k).1
  IsTransaction-get s k h = rw ((get_keeps s k).0) h

  pub IsTransaction-begin :
      (s : StateTransaction t) → IsTransaction s → IsTransaction (begin_transaction t s)
  unfolding begin_transaction
  IsTransaction-begin s h = IsOverlay-begin IsWritable s.overlay h

  pub set-eq-ok :
      (s s' : StateTransaction t) (k v : Bytes)
      → set t s k v ≡ ok s'
      → (is_reserved_service_storage_key k ≡ false)
        × (s'.base ≡ s.base)
        × (s'.overlay ≡ Overlay.write s.overlay (record { key = k; value = some v }))
  unfolding set
  set-eq-ok s s' k v h = put-eq-ok s s' (record { key = k; value = some v }) h

  pub delete-eq-ok :
      (s s' : StateTransaction t) (k : Bytes)
      → delete t s k ≡ ok s'
      → (is_reserved_service_storage_key k ≡ false)
        × (s'.base ≡ s.base)
        × (s'.overlay ≡ Overlay.write s.overlay (record { key = k; value = none }))
  unfolding delete
  delete-eq-ok s s' k h = put-eq-ok s s' (record { key = k; value = none }) h

  put-ok :
      (s : StateTransaction t) (e : Entry)
      → IsWritable e
      → (s' : StateTransaction t) × (put t s e ≡ ok s')
        × (s'.base ≡ s.base)
        × (s'.overlay ≡ Overlay.write s.overlay e)
  unfolding put
  put-ok s e h = (
    record s { overlay = Overlay.write s.overlay e; touched = touch e.key s.touched },
    rw h,
    refl,
    refl,
  )

  -- A write of a key that is not reserved succeeds.
  pub set-ok :
      (s : StateTransaction t) (k v : Bytes)
      → is_reserved_service_storage_key k ≡ false
      → (s' : StateTransaction t) × (set t s k v ≡ ok s')
        × (s'.base ≡ s.base)
        × (s'.overlay ≡ Overlay.write s.overlay (record { key = k; value = some v }))
  unfolding set
  set-ok s k v h = put-ok s (record { key = k; value = some v }) h

  pub delete-ok :
      (s : StateTransaction t) (k : Bytes)
      → is_reserved_service_storage_key k ≡ false
      → (s' : StateTransaction t) × (delete t s k ≡ ok s')
        × (s'.base ≡ s.base)
        × (s'.overlay ≡ Overlay.write s.overlay (record { key = k; value = none }))
  unfolding delete
  delete-ok s k h = put-ok s (record { key = k; value = none }) h

  pub IsTransaction-set :
      (s s' : StateTransaction t) (k v : Bytes)
      → IsTransaction s
      → set t s k v ≡ ok s'
      → IsTransaction s'
  IsTransaction-set s s' k v h e =
      let (w, hb, ho) = set-eq-ok s s' k v e in
      rw ho (IsOverlay-write IsWritable s.overlay (record { key = k; value = some v }) w h)

  pub IsTransaction-delete :
      (s s' : StateTransaction t) (k : Bytes)
      → IsTransaction s
      → delete t s k ≡ ok s'
      → IsTransaction s'
  IsTransaction-delete s s' k h e =
      let (w, hb, ho) = delete-eq-ok s s' k e in
      rw ho (IsOverlay-write IsWritable s.overlay (record { key = k; value = none }) w h)

  pub IsTransaction-commit :
      (s s' : StateTransaction t)
      → IsTransaction s
      → commit_transaction t s ≡ ok s'
      → IsTransaction s'
  IsTransaction-commit s s' h e =
      IsOverlay-commit IsWritable s.overlay s'.overlay h (commit-eq-ok s s' e).1

  pub IsTransaction-rollback :
      (s s' : StateTransaction t)
      → IsTransaction s
      → rollback_transaction t s ≡ ok s'
      → IsTransaction s'
  IsTransaction-rollback s s' h e =
      IsOverlay-rollback IsWritable s.overlay s'.overlay h (rollback-eq-ok s s' e).1
