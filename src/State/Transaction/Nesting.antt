-- ===== src/State/Transaction/Nesting.antt =====
-- Histories of a transaction: every history keeps the invariant, and a rollback undoes everything
-- since the begin that it closes.
use jam_script.Prelude.{ℕ, zero, suc, ◌≡◌, refl, ◌∙◌, Bytes, ok, some, none}
use jam_script.State.Trie.{TrieLib}
use jam_script.State.Overlay.Stack.{
  Above, Above-start, Above-begin, Above-write, Above-commit, Above-rollback, rollback-Above,
}
use jam_script.State.Transaction.{
  StateTransaction, begin_transaction, commit_transaction, rollback_transaction, get, set, delete,
}
use jam_script.State.Transaction.View.{
  IsTransaction, IsTransaction-get, IsTransaction-begin, IsTransaction-set, IsTransaction-delete,
  IsTransaction-commit, IsTransaction-rollback, get_keeps, set-eq-ok, delete-eq-ok, commit-eq-ok,
  rollback-eq-ok,
}

module _ (t : TrieLib) where
  -- The states that any calls reach from `s`. A call that fails leaves the state as it was and takes
  -- no step; a commit or a rollback may close a transaction that was open in `s`.
  pub data Calls (s : StateTransaction t) : StateTransaction t → Type 0 where
    none_yet : Calls s s
    after_get : {u : StateTransaction t} (k : Bytes) → Calls s u → Calls s (get t u k).1
    after_set :
        {u w : StateTransaction t} (k v : Bytes) → Calls s u → set t u k v ≡ ok w → Calls s w
    after_delete :
        {u w : StateTransaction t} (k : Bytes) → Calls s u → delete t u k ≡ ok w → Calls s w
    after_begin : {u : StateTransaction t} → Calls s u → Calls s (begin_transaction t u)
    after_commit :
        {u w : StateTransaction t} → Calls s u → commit_transaction t u ≡ ok w → Calls s w
    after_rollback :
        {u w : StateTransaction t} → Calls s u → rollback_transaction t u ≡ ok w → Calls s w

  -- From a transaction that satisfies the invariant (every map strictly sorted and free of
  -- reserved keys), every state that calls reach satisfies it, also where a commit or a rollback
  -- closes a transaction that was open at the start.
  pub Calls-IsTransaction :
      {s u : StateTransaction t} → IsTransaction t s → Calls s u → IsTransaction t u
  Calls-IsTransaction h none_yet = h
  Calls-IsTransaction h (after_get {u = u} k r) = IsTransaction-get t u k (Calls-IsTransaction h r)
  Calls-IsTransaction h (after_set {u = u} {w = w} k v r e) =
      IsTransaction-set t u w k v (Calls-IsTransaction h r) e
  Calls-IsTransaction h (after_delete {u = u} {w = w} k r e) =
      IsTransaction-delete t u w k (Calls-IsTransaction h r) e
  Calls-IsTransaction h (after_begin {u = u} r) = IsTransaction-begin t u (Calls-IsTransaction h r)
  Calls-IsTransaction h (after_commit {u = u} {w = w} r e) =
      IsTransaction-commit t u w (Calls-IsTransaction h r) e
  Calls-IsTransaction h (after_rollback {u = u} {w = w} r e) =
      IsTransaction-rollback t u w (Calls-IsTransaction h r) e

  -- The states that calls reach from `s` without closing what was open in it, with the number of transactions opened since and not closed.
  -- A call that fails leaves the state as it was and takes no step.
  pub data Reach (s : StateTransaction t) : ℕ → StateTransaction t → Type 0 where
    start : Reach s zero s
    read : {n : ℕ} {u : StateTransaction t} (k : Bytes) → Reach s n u → Reach s n (get t u k).1
    write_key :
        {n : ℕ} {u w : StateTransaction t} (k v : Bytes)
        → Reach s n u
        → set t u k v ≡ ok w
        → Reach s n w
    delete_key :
        {n : ℕ} {u w : StateTransaction t} (k : Bytes)
        → Reach s n u
        → delete t u k ≡ ok w
        → Reach s n w
    begin : {n : ℕ} {u : StateTransaction t} → Reach s n u → Reach s (suc n) (begin_transaction t u)
    commit :
        {n : ℕ} {u w : StateTransaction t}
        → Reach s (suc n) u
        → commit_transaction t u ≡ ok w
        → Reach s n w
    rollback :
        {n : ℕ} {u w : StateTransaction t}
        → Reach s (suc n) u
        → rollback_transaction t u ≡ ok w
        → Reach s n w

  -- The calls since a begin have the base and the outer maps left alone.
  Reach-Above :
      (s : StateTransaction t) {u : StateTransaction t} {n : ℕ}
      → Reach (begin_transaction t s) n u
      → (u.base ≡ s.base) × Above n s.overlay u.overlay
  unfolding begin_transaction
  Reach-Above s start = (refl, Above-start s.overlay)
  Reach-Above s (read {u = u} k r) =
      let (hb, h) = Reach-Above s r in
      let (same, same_base) = get_keeps t u k in (same_base ∙ hb, rw same h)
  Reach-Above s (write_key {u = u} {w = w} k v r e) =
      let (hb, h) = Reach-Above s r in
      let (free, same_base, same) = set-eq-ok t u w k v e in
      (same_base ∙ hb, rw same (Above-write (record { key = k; value = some v }) h))
  Reach-Above s (delete_key {u = u} {w = w} k r e) =
      let (hb, h) = Reach-Above s r in
      let (free, same_base, same) = delete-eq-ok t u w k e in
      (same_base ∙ hb, rw same (Above-write (record { key = k; value = none }) h))
  Reach-Above s (begin {u = u} r) = let (hb, h) = Reach-Above s r in (hb, Above-begin h)
  Reach-Above s (commit {u = u} {w = w} r e) =
      let (hb, h) = Reach-Above s r in
      let (same_base, done) = commit-eq-ok t u w e in
      (same_base ∙ hb, Above-commit w.overlay h done)
  Reach-Above s (rollback {u = u} {w = w} r e) =
      let (hb, h) = Reach-Above s r in
      let (same_base, done) = rollback-eq-ok t u w e in
      (same_base ∙ hb, Above-rollback w.overlay h done)

  -- After a begin and any sequence of calls that closes every transaction it opens, a rollback
  -- succeeds and gives back the base, the writes and the open transactions from before the begin.
  pub rollback-Reach :
      (s u : StateTransaction t)
      → Reach (begin_transaction t s) zero u
      → (w : StateTransaction t) × (rollback_transaction t u ≡ ok w)
        × (w.base ≡ s.base)
        × (w.overlay ≡ s.overlay)
  unfolding rollback_transaction
  rollback-Reach s u r =
      let (hb, h) = Reach-Above s r in
      (record u { overlay = s.overlay }, rw (rollback-Above h), hb, refl)
