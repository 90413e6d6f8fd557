-- ===== src/State/Proof/Simulation.antt =====
-- The guest's proof-backed state does what the host's full state does, wherever it succeeds.
use jam_script.Prelude.{
  Option, none, some, ◌≡◌, refl, sym, ◌∙◌, ap, false, Bytes, bytes_eq→eq, ok, arith, ◌⊎◌,
  Bool-cases, ◌&&◌, Option-cases, inl, inr, >>=-eq-ok,
}
use jam_script.Keys.{is_reserved_service_storage_key}
use jam_script.Entry.{Entry}
use jam_script.KeyMap
use jam_script.KeyMap.{KeyMap}
use jam_script.KeyMap.Laws.{get-insert}
use jam_script.State.Trie.{TrieLib}
use jam_script.State.Overlay
use jam_script.State.Full
use jam_script.State.Transaction
use jam_script.State.Transaction.{StateTransaction}
use jam_script.State.Transaction.View.{get_keeps, set-ok, delete-ok}
use jam_script.State.Proof.{
  ProofState, get, base_value, witness_key, put, set, delete, is_none, begin_transaction,
  commit_transaction, rollback_transaction,
}

module _ (t : TrieLib) where
  -- What the proof answers, the full state answers too.
  abbrev pub Agrees : t.Db → t.Db → Type 0
  Agrees proof full =
      (k : Bytes) (v : Option Bytes) → t.get proof k ≡ some v → t.get full k ≡ some v

  -- The guest's state and the host's have the same uncommitted writes, and the guest's proof and
  -- cache agree with the host's base.
  pub record Simulates (p : ProofState t) (s : StateTransaction t) : Type 0 where
    pub same_overlay : p.overlay ≡ s.overlay
    pub agrees : Agrees p.db s.base
    pub cached :
        (k : Bytes) (v : Option Bytes)
        → KeyMap.get k p.base_cache ≡ some v
        → t.get s.base k ≡ some v

  -- A read of the base comes from the cache, or from the proof and is cached.
  base_value-eq-ok :
      (p p' : ProofState t) (k : Bytes) (v : Option Bytes)
      → base_value t p k ≡ ok (v, p')
      → ((KeyMap.get k p.base_cache ≡ some v) × (p' ≡ p))
        ⊎ ((t.get p.db k ≡ some v)
            × (p' ≡ record p {
              base_cache = KeyMap.insert (record { key = k; value = v }) p.base_cache;
            }))
  unfolding base_value
  base_value-eq-ok p p' k v e = elim (Option-cases (KeyMap.get k p.base_cache)) [
    | inr (w, hit) ↦ inl (ground arith, ground arith)
    | inl miss ↦ elim (Option-cases (t.get p.db k)) [
      | inr (u, found) ↦ inr (ground arith, ground arith)
      | inl missing ↦ absurd (ground arith)
    ]
  ]

  Simulates-cache :
      (p : ProofState t) (s : StateTransaction t) (k : Bytes) (v : Option Bytes)
      → Simulates p s
      → t.get s.base k ≡ some v
      → Simulates
          (record p { base_cache = KeyMap.insert (record { key = k; value = v }) p.base_cache })
          s
  Simulates-cache p s k v h e = record {
    same_overlay = h.same_overlay;
    agrees = h.agrees;
    cached = λ j w c. ground (
      arith,
      get-insert j (record { key = k; value = v }) p.base_cache,
      bytes_eq→eq k j,
      h.cached j w,
    );
  }

  base_value-Simulates :
      (p p' : ProofState t) (s : StateTransaction t) (k : Bytes) (v : Option Bytes)
      → Simulates p s
      → base_value t p k ≡ ok (v, p')
      → (t.get s.base k ≡ some v) × Simulates p' s
  base_value-Simulates p p' s k v h e = elim (base_value-eq-ok p p' k v e) [
    | inl (hit, same) ↦ (h.cached k v hit, rw same h)
    | inr (found, same) ↦
        (h.agrees k v found, rw same (Simulates-cache p s k v h (h.agrees k v found)))
  ]

  Simulates-host :
      (p : ProofState t) (s s' : StateTransaction t)
      → Simulates p s
      → s'.overlay ≡ s.overlay
      → s'.base ≡ s.base
      → Simulates p s'
  Simulates-host p s s' h eo eb = record {
    same_overlay = h.same_overlay ∙ sym eo;
    agrees = rw eb h.agrees;
    cached = rw eb h.cached;
  }

  get_hit :
      (p p' : ProofState t) (k : Bytes) (v w : Option Bytes)
      → Overlay.overlay_value p.overlay k ≡ some w
      → get t p k ≡ ok (v, p')
      → (w ≡ v) × (p' ≡ p)
  unfolding get
  get_hit p p' k v w hit e = ground arith

  get_miss :
      (p p' : ProofState t) (k : Bytes) (v : Option Bytes)
      → Overlay.overlay_value p.overlay k ≡ none
      → get t p k ≡ ok (v, p')
      → base_value t p k ≡ ok (v, p')
  unfolding get
  get_miss p p' k v miss e = ground arith

  host_hit :
      (s : StateTransaction t) (k : Bytes) (v : Option Bytes)
      → Overlay.overlay_value s.overlay k ≡ some v
      → (Transaction.get t s k).0 ≡ ok v
  unfolding Transaction.get
  host_hit s k v hit = ground arith

  host_miss :
      (s : StateTransaction t) (k : Bytes) (v : Option Bytes)
      → Overlay.overlay_value s.overlay k ≡ none
      → t.get s.base k ≡ some v
      → (Transaction.get t s k).0 ≡ ok v
  unfolding Transaction.get Full.get
  host_miss s k v miss found = ground arith

  -- A read that the guest answers has the same answer on the host.
  pub get-Simulates :
      (p p' : ProofState t) (s : StateTransaction t) (k : Bytes) (v : Option Bytes)
      → Simulates p s
      → get t p k ≡ ok (v, p')
      → ((Transaction.get t s k).0 ≡ ok v) × Simulates p' (Transaction.get t s k).1
  get-Simulates p p' s k v h e =
      let (eo, eb) = get_keeps t s k in
      elim (Option-cases (Overlay.overlay_value p.overlay k)) [
        | inr (w, hit) ↦
            let (ew, ep) = get_hit p p' k v w hit e in
            (
              host_hit s k v (rw (h.same_overlay, ew) at hit),
              rw ep (Simulates-host p s (Transaction.get t s k).1 h eo eb),
            )
        | inl miss ↦
            let (found, h') = base_value-Simulates p p' s k v h (get_miss p p' k v miss e) in
            (
              host_miss s k v (rw h.same_overlay at miss) found,
              Simulates-host p' s (Transaction.get t s k).1 h' eo eb,
            )
      ]

  witness_key-Simulates :
      (p p' : ProofState t) (s : StateTransaction t) (k : Bytes)
      → Simulates p s
      → witness_key t p k ≡ ok p'
      → Simulates p' s
  unfolding witness_key
  witness_key-Simulates p p' s k h e =
      elim (Bool-cases
        (is_none (Overlay.overlay_value p.overlay k) && is_none (KeyMap.get k p.base_cache))) [
          | inr known ↦ let same : p ≡ p' = ground arith in rw (← same) h
          | inl unknown ↦
              let (w, h₁, h₂) =
                >>=-eq-ok (base_value t p k) (λ w. ok w.1) {r = p'} (ground arith) in
              let same : w.1 ≡ p' = cc h₂ in rw (← same) (base_value-Simulates p w.1 s k w.0 h h₁).1
        ]

  put-Simulates :
      (p p' : ProofState t) (s : StateTransaction t) (e : Entry)
      → Simulates p s
      → put t p e ≡ ok p'
      → (is_reserved_service_storage_key e.key ≡ false)
        × ((w : ProofState t) × Simulates w s
            × (p' ≡ record w { overlay = Overlay.write w.overlay e }))
  unfolding put
  put-Simulates p p' s e h eq = elim (Bool-cases (is_reserved_service_storage_key e.key)) [
    | inl reserved ↦ absurd (ground arith)
    | inr free ↦
        let (w, h₁, h₂) =
          >>=-eq-ok (witness_key t p e.key)
            (λ w. ok (record w { overlay = Overlay.write w.overlay e })) {r = p'} (ground arith) in
        (free, (w, witness_key-Simulates p w s e.key h h₁, cc h₂))
  ]

  Simulates-write :
      (p w : ProofState t) (s s' : StateTransaction t) (e : Entry)
      → Simulates w s
      → p ≡ record w { overlay = Overlay.write w.overlay e }
      → s'.base ≡ s.base
      → s'.overlay ≡ Overlay.write s.overlay e
      → Simulates p s'
  Simulates-write p w s s' e h ep eb eo =
      let written : Simulates (record w { overlay = Overlay.write w.overlay e }) s' = record {
        same_overlay = ap (λ o. Overlay.write o e) h.same_overlay ∙ sym eo;
        agrees = rw eb h.agrees;
        cached = rw eb h.cached;
      } in
      rw ep written

  -- A write that the guest makes, the host makes too.
  pub Simulates-set :
      (p p' : ProofState t) (s : StateTransaction t) (k v : Bytes)
      → Simulates p s
      → set t p k v ≡ ok p'
      → (s' : StateTransaction t) × (Transaction.set t s k v ≡ ok s') × Simulates p' s'
  unfolding set
  Simulates-set p p' s k v h e =
      let entry : Entry = record { key = k; value = some v } in
      let (free, (w, hw, ep)) = put-Simulates p p' s entry h e in
      let (s', es, eb, eo) = set-ok t s k v free in
      (s', es, Simulates-write p' w s s' entry hw ep eb eo)

  pub Simulates-delete :
      (p p' : ProofState t) (s : StateTransaction t) (k : Bytes)
      → Simulates p s
      → delete t p k ≡ ok p'
      → (s' : StateTransaction t) × (Transaction.delete t s k ≡ ok s') × Simulates p' s'
  unfolding delete
  Simulates-delete p p' s k h e =
      let entry : Entry = record { key = k; value = none } in
      let (free, (w, hw, ep)) = put-Simulates p p' s entry h e in
      let (s', es, eb, eo) = delete-ok t s k free in
      (s', es, Simulates-write p' w s s' entry hw ep eb eo)

  pub Simulates-begin :
      (p : ProofState t) (s : StateTransaction t)
      → Simulates p s
      → Simulates (begin_transaction t p) (Transaction.begin_transaction t s)
  unfolding begin_transaction Transaction.begin_transaction
  Simulates-begin p s h = record {
    same_overlay = ap Overlay.begin_transaction h.same_overlay;
    agrees = h.agrees;
    cached = h.cached;
  }

  Simulates-overlay :
      (p : ProofState t) (s : StateTransaction t) (o : Overlay.Overlay)
      → Simulates p s
      → Simulates (record p { overlay = o }) (record s { overlay = o })
  Simulates-overlay p s o h = record { same_overlay = refl; agrees = h.agrees; cached = h.cached }

  pub Simulates-commit :
      (p p' : ProofState t) (s : StateTransaction t)
      → Simulates p s
      → commit_transaction t p ≡ ok p'
      → (s' : StateTransaction t) × (Transaction.commit_transaction t s ≡ ok s') × Simulates p' s'
  unfolding commit_transaction Transaction.commit_transaction
  Simulates-commit p p' s h e =
      let (o, h₁, h₂) = >>=-eq-ok (Overlay.commit_transaction p.overlay) _ e in
      let same : record p { overlay = o } ≡ p' = cc h₂ in
      (
        record s { overlay = o },
        rw (rw h.same_overlay at h₁),
        rw (← same) (Simulates-overlay p s o h),
      )

  pub Simulates-rollback :
      (p p' : ProofState t) (s : StateTransaction t)
      → Simulates p s
      → rollback_transaction t p ≡ ok p'
      → (s' : StateTransaction t) × (Transaction.rollback_transaction t s ≡ ok s') × Simulates p' s'
  unfolding rollback_transaction Transaction.rollback_transaction
  Simulates-rollback p p' s h e =
      let (o, h₁, h₂) = >>=-eq-ok (Overlay.rollback_transaction p.overlay) _ e in
      let same : record p { overlay = o } ≡ p' = cc h₂ in
      (
        record s { overlay = o },
        rw (rw h.same_overlay at h₁),
        rw (← same) (Simulates-overlay p s o h),
      )
