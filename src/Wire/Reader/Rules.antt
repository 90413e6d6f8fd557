-- ===== src/Wire/Reader/Rules.antt =====
-- Rules for decoders, one for each way to build one: what a decoder accepts (`Reads`), and what it
-- has consumed when it succeeds (`Consumes`).
pub mod Fields
pub mod Whole
pub mod Skims
pub mod Yields
use jam_script.Prelude.{
  ℕ, zero, suc, ◌+◌, ◌-◌, ◌≤◌, ◌<◌, ◌≡◌, refl, sym, ap, subst, ◌∙◌, List, [], ◌∷◌, ◌++◌,
  append_assoc, append-nil, Bytes, IsBytes, IsByte, usize_max, length, take, drop, ltb, ◌==◌,
  if◌then◌else◌, Bool, true, false, Result, ok, err, All, All-append_left, All-append_right,
  take-append, drop-append, length-append, flat_map, take-append-drop, length-take, arith, le_bytes,
  from_le, length-le_bytes, from_le-le_bytes, le_bytes-from_le, from_le-lt, ltb_not→le, le→ltb_not,
  Bool-cases, inl, inr, ◌^◌,
}
use jam_script.Wire.{WireError, too_many_items}
use jam_script.Wire.Writer
use jam_script.Wire.Reader.{
  Reader, Read, ◌>>=◌, ◌>>◌, pure, fail, lift, new, remaining, take_bytes, u8, array, u32, u64,
  bytes_u32, bytes_limited, repeat, finish, run, first, value,
}

-- A reader that has read `pre` and has `rest` before it.
unfoldable pub reader_at : Bytes → Bytes → Reader
reader_at pre rest = record { bytes = pre ++ rest; offset = length pre }

-- `m` reads exactly `bs` off the front of any input that fits the memory, and returns `a`.
pub record Reads {A : Type 0} (m : Read A) (bs : Bytes) (a : A) : Type 0 where
  pub at :
      (pre rest : Bytes)
      → length (pre ++ bs ++ rest) ≤ usize_max
      → m (reader_at pre (bs ++ rest)) ≡ ok (a, reader_at (pre ++ bs) rest)

-- When `m` succeeds it has consumed a front `u` of the input, related to the value by `R`.
pub record Consumes {A : Type 0} (m : Read A) (R : A → Bytes → Type 0) : Type 0 where
  pub at :
      (pre s : Bytes) (a : A) (r : Reader)
      → IsBytes s
      → m (reader_at pre s) ≡ ok (a, r)
      → (u : Bytes) × (rest : Bytes) × (s ≡ u ++ rest) × (r ≡ reader_at (pre ++ u) rest) × R a u

module _ {A B : Type 0} where
  pub >>=-ok :
      (m : Read A) (f : A → Read B) (r : Reader) {a : A} {r' : Reader}
      → m r ≡ ok (a, r')
      → (m >>= f) r ≡ f a r'
  unfolding ◌>>=◌
  >>=-ok m f r e = rw (e, ◌>>=◌)

  Result-split :
      (x : Result WireError (A × Reader)) (f : A → Read B) (p : B × Reader)
      → (elim x [ ok (a, r') ↦ f a r' | err e ↦ err e ]) ≡ ok p
      → (a : A) × (r : Reader) × (x ≡ ok (a, r)) × (f a r ≡ ok p)
  Result-split (ok (a, r)) f p h = (a, r, refl, h)
  Result-split (err e) f p h = cc

  pub >>=-eq-ok :
      (m : Read A) (f : A → Read B) (r : Reader) (p : B × Reader)
      → (m >>= f) r ≡ ok p
      → (a : A) × (r' : Reader) × (m r ≡ ok (a, r')) × (f a r' ≡ ok p)
  unfolding ◌>>=◌
  >>=-eq-ok m f r p h = Result-split (m r) f p h

  pub Reads-bind :
      (m : Read A) (f : A → Read B) (us vs : Bytes) {a : A} {b : B}
      → Reads m us a
      → Reads (f a) vs b
      → Reads (m >>= f) (us ++ vs) b
  Reads-bind m f us vs {a} {b} h k = record {
    at = λ pre rest fits.
        let fits_us = rw (← append_assoc pre us vs, append_assoc (pre ++ us) vs rest) at fits in
        let fits_vs = rw (← append_assoc pre us vs) at fits in
        rw (append_assoc us vs rest, ← append_assoc pre us vs)
          (>>=-ok m f _ (h.at pre (vs ++ rest) fits_us) ∙ k.at (pre ++ us) rest fits_vs);
  }

  pub Consumes-bind :
      {R : A → Bytes → Type 0} {S : B → Bytes → Type 0} (m : Read A) (f : A → Read B)
      → Consumes m R
      → ((a : A) (u : Bytes) → R a u → Consumes (f a) (λ b v. S b (u ++ v)))
      → Consumes (m >>= f) S
  Consumes-bind m f h k = record {
    at = λ pre s b r bytes e.
        let (a, r', e₁, e₂) = >>=-eq-ok m f (reader_at pre s) (b, r) e in
        let (u, rest, es, er, ra) = h.at pre s a r' bytes e₁ in
        let (v, rest', es', er', rb) =
          (k a u ra).at (pre ++ u) rest b r (All-append_right IsByte u rest (rw es at bytes))
            (rw er at e₂) in
        (u ++ v, rest', es ∙ rw (es', append_assoc u v rest'), er' ∙ rw append_assoc, rb);
  }

module _ {A : Type 0} where
  pub Reads-pure : (a : A) → Reads (pure a) [] a
  unfolding pure
  Reads-pure a = record { at = λ pre rest fits. rw append-nil }

  pub Reads-lift : (m : Result WireError A) {a : A} → m ≡ ok a → Reads (lift m) [] a
  unfolding lift
  Reads-lift m e = record { at = λ pre rest fits. rw (e, append-nil) }

  pub Consumes-pure : {R : A → Bytes → Type 0} (a : A) → R a [] → Consumes (pure a) R
  unfolding pure
  Consumes-pure {R = R} a h = record {
    at = λ pre s b r bytes e.
        let eb : a ≡ b = cc e in
        let er : r ≡ reader_at pre s = cc e in
        ([], s, refl, rw append-nil er, subst (λ x. R x []) eb h);
  }

  pub Consumes-fail : {R : A → Bytes → Type 0} (e : WireError) → Consumes (fail e) R
  unfolding fail
  Consumes-fail e = record { at = λ pre s b r bytes h. cc }

  pub Consumes-if :
      {R : A → Bytes → Type 0} (t : Bool) (m n : Read A)
      → (t ≡ true → Consumes m R)
      → (t ≡ false → Consumes n R)
      → Consumes (if t then m else n) R
  Consumes-if true m n h k = h refl
  Consumes-if false m n h k = k refl

  -- To weaken what is known of the bytes.
  pub Consumes-mono :
      {R S : A → Bytes → Type 0} {m : Read A}
      → Consumes m R
      → ((a : A) (u : Bytes) → R a u → S a u)
      → Consumes m S
  Consumes-mono h k = record {
    at = λ pre s a r bytes e.
        let (u, rest, es, er, ra) = h.at pre s a r bytes e in (u, rest, es, er, k a u ra);
  }

  pub Reads-cast : {m : Read A} {us vs : Bytes} {a : A} → Reads m us a → us ≡ vs → Reads m vs a
  Reads-cast {m} {a = a} h e = subst (λ bs. Reads m bs a) e h

  pub Consumes-lift_end :
      {R : A → Bytes → Type 0} (m : Result WireError A)
      → ((a : A) → m ≡ ok a → R a [])
      → Consumes (lift m) R
  unfolding lift
  Consumes-lift_end {R = R} (ok a) h = record {
    at = λ pre s b r bytes e.
        let eb : a ≡ b = cc e in
        let er : r ≡ reader_at pre s = cc e in
        ([], s, refl, rw append-nil er, subst (λ x. R x []) eb (h a refl));
  }
  Consumes-lift_end (err e) h = record { at = λ pre s b r bytes e. cc }

module _ {A B : Type 0} where
  -- What follows a step that does not read may use that it succeeded.
  pub Consumes-lift :
      {S : B → Bytes → Type 0} (m : Result WireError A) (f : A → Read B)
      → ((a : A) → m ≡ ok a → Consumes (f a) S)
      → Consumes (lift m >>= f) S
  unfolding lift ◌>>=◌
  Consumes-lift (ok a) f h = record { at = (h a refl).at }
  Consumes-lift (err e) f h = record { at = λ pre s b r bytes e. cc }
