-- ===== src/Wire/Reader/Rules/Whole.antt =====
-- The rules for a decoder of a whole input, which nothing may follow.
use jam_script.Prelude.{
  ◌≤◌, ◌≡◌, refl, sym, ap, ◌∙◌, [], ◌∷◌, append-nil, Bytes, IsBytes, usize_max, length, Result, ok,
  err, length-append, arith,
}
use jam_script.Wire.{WireError}
use jam_script.Wire.Reader.{Reader, Read, ◌>>=◌, lift, finish, run, value}
use jam_script.Wire.Reader.Rules.{Reads, Consumes, reader_at, >>=-ok, >>=-eq-ok}

-- A whole decoder reads its fields, checks that nothing is left, and checks the value.
module _ {A B : Type 0} (m : Read A) (check : A → Result WireError B) where
  abbrev pub whole : Bytes → Result WireError B
  whole bytes = run (m >>= λ a. finish >>= λ _. lift (check a)) bytes

  value-lift : (x : Result WireError B) (r : Reader) → value (lift x r) ≡ x
  unfolding value lift
  value-lift (ok b) r = refl
  value-lift (err e) r = refl

  finish-end : (pre : Bytes) → finish (reader_at pre []) ≡ ok (tt, reader_at pre [])
  unfolding finish reader_at
  finish-end pre = ground (arith, length-append {0} pre [])

  whole_start :
      (bs : Bytes)
      → whole bs ≡ value ((m >>= λ a. finish >>= λ _. lift (check a)) (reader_at [] bs))
  unfolding run reader_at
  whole_start bs = refl

  -- A decoder whose fields are exactly the input answers what the closing check answers.
  pub whole-Reads : (bs : Bytes) {a : A} → length bs ≤ usize_max → Reads m bs a → whole bs ≡ check a
  whole-Reads bs {a} fits h =
      let start : m (reader_at [] bs) ≡ ok (a, reader_at bs []) =
        rw append-nil at (h.at [] [] (rw append-nil fits)) in
      whole_start bs
      ∙ ap value
          (>>=-ok m _ (reader_at [] bs) start ∙ >>=-ok finish _ (reader_at bs []) (finish-end bs))
      ∙ value-lift (check a) (reader_at bs [])

  value-eq-ok :
      (x : Result WireError (B × Reader)) (b : B) → value x ≡ ok b → (r : Reader) × (x ≡ ok (b, r))
  unfolding value
  value-eq-ok (ok (b', r)) b h = (r, cc)
  value-eq-ok (err e) b h = cc

  lift-eq-ok : (x : Result WireError B) (r r' : Reader) (b : B) → lift x r ≡ ok (b, r') → x ≡ ok b
  unfolding lift
  lift-eq-ok (ok b') r r' b h = cc
  lift-eq-ok (err e) r r' b h = cc

  finish-eq-ok :
      (pre rest : Bytes) (p : Unit {0} × Reader) → finish (reader_at pre rest) ≡ ok p → rest ≡ []
  unfolding finish reader_at
  finish-eq-ok pre [] p h = refl
  finish-eq-ok pre (x ∷ rest) p h = ground (arith, length-append {0} pre (x ∷ rest))

  -- What a decoder accepts is consumed to the end and has passed the closing check.
  pub whole-Consumes :
      {R : A → Bytes → Type 0} (bs : Bytes) (b : B)
      → Consumes m R
      → IsBytes bs
      → whole bs ≡ ok b
      → (a : A) × R a bs × (check a ≡ ok b)
  whole-Consumes {R = R} bs b h bytes e =
      let (r, e₁) = value-eq-ok _ b (sym (whole_start bs) ∙ e) in
      let (a, r₁, ea, e₂) = >>=-eq-ok m _ (reader_at [] bs) (b, r) e₁ in
      let (u, r₂, ef, e₃) = >>=-eq-ok finish _ r₁ (b, r) e₂ in
      let (front, rest, es, er, ra) = h.at [] bs a r₁ bytes ea in
      let nothing : rest ≡ [] = finish-eq-ok front rest (u, r₂) (rw er at ef) in
      let all : bs ≡ front = es ∙ rw (nothing, append-nil) refl in
      (a, rw all ra, lift-eq-ok (check a) r₂ r b e₃)
