-- ===== src/State/Access/Agreement.antt =====
-- Whatever calls an application makes, the guest's replies are the host's.
use jam_script.Prelude.{
  List, [], ◌∷◌, ◌≡◌, ◌⊎◌, inl, inr, refl, sym, ◌∙◌, Bytes, Result, Result-cases, ok, err, map_err,
  map_err-eq-ok, ok_or, >>=-eq-ok,
}
use jam_script.State.{StateAccessError, StateError, state_access_error}
use jam_script.State.Trie.{TrieLib, RootLaws}
use jam_script.KeyMap
use jam_script.Diff.{StateDiff}
use jam_script.State.Overlay
use jam_script.State.Transaction
use jam_script.State.Transaction.{StateTransaction}
use jam_script.State.Transaction.Finish.{finish-eq-ok}
use jam_script.State.Proof
use jam_script.State.Proof.{ProofState}
use jam_script.State.Proof.Simulation.{
  Agrees, Simulates, get-Simulates, Simulates-set, Simulates-delete, Simulates-begin,
  Simulates-commit, Simulates-rollback,
}
use jam_script.State.Access.{
  Call, Reply, get, set, delete, begin, commit, rollback, value, done, host_call, guest_call,
  host_run, guest_run, answered, backend_error,
}

module _ (t : TrieLib) where
  -- A call that returns nothing but its new state.
  agree_done :
      (f : StateError → StateAccessError) (guest : Result StateError (ProofState t))
      (host : Result StateError (StateTransaction t)) (r : Reply) (p' : ProofState t)
      → ((w : ProofState t)
          → guest ≡ ok w
          → (s' : StateTransaction t) × (host ≡ ok s') × Simulates t w s')
      → answered f guest ≡ ok (r, p')
      → (s' : StateTransaction t) × (answered f host ≡ ok (r, s')) × Simulates t p' s'
  agree_done f (err x) host r p' h e = cc
  agree_done f (ok w) host r p' h e =
      let (s', es, hs) = h w refl in
      let same : w ≡ p' = cc e in
      let reply : done ≡ r = cc e in (s', rw (es, reply), rw (← same) hs)

  -- Let a guest's proof state be in step with a host's transaction. A single call that the guest
  -- answers has the same answer on the host, and the two are in step afterwards.
  pub guest_call-Simulates :
      (c : Call) (p : ProofState t) (s : StateTransaction t) (r : Reply) (p' : ProofState t)
      → Simulates t p s
      → guest_call t c p ≡ ok (r, p')
      → (s' : StateTransaction t) × (host_call t c s ≡ ok (r, s')) × Simulates t p' s'
  unfolding guest_call host_call
  guest_call-Simulates (get key) p s r p' h e =
      let (w, h₁, h₂) = >>=-eq-ok (map_err state_access_error (Proof.get t p key)) _ e in
      let (eq, h') =
        get-Simulates t p w.1 s key w.0 h
          (map_err-eq-ok state_access_error (Proof.get t p key) h₁) in
      let same : w.1 ≡ p' = cc h₂ in
      let reply : value w.0 ≡ r = cc h₂ in
      ((Transaction.get t s key).1, rw (eq, reply), rw (← same) h')
  guest_call-Simulates (set key v) p s r p' h e =
      agree_done state_access_error (Proof.set t p key v) (Transaction.set t s key v) r p'
        (λ w. Simulates-set t p w s key v h) e
  guest_call-Simulates (delete key) p s r p' h e =
      agree_done state_access_error (Proof.delete t p key) (Transaction.delete t s key) r p'
        (λ w. Simulates-delete t p w s key h) e
  guest_call-Simulates begin p s r p' h e =
      let same : Proof.begin_transaction t p ≡ p' = cc e in
      let reply : done ≡ r = cc e in
      (Transaction.begin_transaction t s, rw reply, rw (← same) (Simulates-begin t p s h))
  guest_call-Simulates commit p s r p' h e =
      agree_done backend_error (Proof.commit_transaction t p) (Transaction.commit_transaction t s) r
        p' (λ w. Simulates-commit t p w s h) e
  guest_call-Simulates rollback p s r p' h e =
      agree_done backend_error (Proof.rollback_transaction t p)
        (Transaction.rollback_transaction t s) r p' (λ w. Simulates-rollback t p w s h) e

  -- Let a guest's proof state be in step with a host's transaction: the same uncommitted writes, a
  -- proof and a cache that agree with the host's base. A run of calls that the guest completes,
  -- the host completes with the same replies, and the two are in step afterwards.
  pub guest_run-Simulates :
      (cs : List Call) (p : ProofState t) (s : StateTransaction t) (rs : List Reply)
      (p' : ProofState t)
      → Simulates t p s
      → guest_run t cs p ≡ ok (rs, p')
      → (s' : StateTransaction t) × (host_run t cs s ≡ ok (rs, s')) × Simulates t p' s'
  unfolding guest_run host_run
  guest_run-Simulates [] p s rs p' h e =
      let same : p ≡ p' = cc e in let none_left : [] ≡ rs = cc e in (s, rw none_left, rw (← same) h)
  guest_run-Simulates (c ∷ cs) p s rs p' h e =
      let (w, h₁, h₂) = >>=-eq-ok (guest_call t c p) _ e in
      let (v, h₃, h₄) = >>=-eq-ok (guest_run t cs w.1) _ h₂ in
      let (s₁, e₁, k₁) = guest_call-Simulates c p s w.0 w.1 h h₁ in
      let (s₂, e₂, k₂) = guest_run-Simulates cs w.1 s₁ v.0 v.1 k₁ h₃ in
      let same : v.1 ≡ p' = cc h₄ in
      let replies : w.0 ∷ v.0 ≡ rs = cc h₄ in (s₂, rw (e₁, e₂, replies), rw (← same) k₂)

  -- If every key that the proof answers has that answer in the base, the guest's state made from
  -- the proof is in step with a new transaction on the base.
  pub Simulates-start :
      (root : Bytes) (nodes : List Bytes) (base : t.Db) (p : ProofState t)
      → Agrees t (t.from_proof root nodes) base
      → Proof.from_proof t root nodes ≡ ok p
      → Simulates t p (Transaction.new t base)
  unfolding Proof.from_proof Transaction.new KeyMap.get
  Simulates-start root nodes base p h e =
      let (probe, h₁, h₂) =
        >>=-eq-ok (ok_or (t.get (t.from_proof root nodes) []) StateError.missing_witness) _ e in
      let same : record { db = t.from_proof root nodes; base_cache = []; overlay = Overlay.new }
          ≡ p =
        cc h₂ in
      rw (← same) (record { same_overlay = refl; agrees = h; cached = λ k v x. cc })

module _ (t : TrieLib) (laws : RootLaws t) where
  -- Let a guest be in step with a host, its proof having the root of the host's base, under the
  -- laws of the trie's root. If the guest finishes, the host has no transaction open, and the host's
  -- `finish` either hands over the same diff and a state whose root is the one that the guest
  -- computed, or fails.
  pub finish-Simulates :
      (p : ProofState t) (s : StateTransaction t) (root : Bytes) (diff : StateDiff)
      → Simulates t p s
      → t.root p.db ≡ t.root s.base
      → Proof.finish t p ≡ ok (root, diff)
      → (s.overlay.transactions ≡ [])
        × (((next : t.Db) × (Transaction.finish t s ≡ ok (next, diff)) × (root ≡ t.root next))
            ⊎ ((e : StateError) × (Transaction.finish t s ≡ err e)))
  finish-Simulates p s root diff h same e =
      let (closed, d, db, applied, r) = Proof.Finish.finish-eq-ok t p root diff e in
      (
        rw (← h.same_overlay) closed,
        elim (Result-cases (Transaction.finish t s)) [
          | inr failed ↦ inr failed
          | inl ((next, diff'), e') ↦
              let (_, d', applied') = finish-eq-ok t s next diff' e' in
              let diffs : diff' ≡ diff = d' ∙ sym (rw h.same_overlay at d) in
              inl (
                next,
                rw (← diffs) e',
                r
                    ∙ Proof.Finish.root-apply_diff t laws s.overlay.writes p.db db s.base next same
                        (rw h.same_overlay at applied) applied',
              )
        ],
      )
