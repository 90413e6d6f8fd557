-- ===== src/Wire/Reader/Rules/Skims.antt =====
-- A decoder that skips what another decoder reads.
use jam_script.Prelude.{
  ℕ, zero, suc, ◌≡◌, refl, ◌∙◌, [], ◌∷◌, map, Bool, true, false, Bytes, Result, ok, err,
  if◌then◌else◌,
}
use jam_script.Wire.{WireError}
use jam_script.Wire.Reader
use jam_script.Wire.Reader.{Reader, Read, ◌>>=◌, ◌>>◌}
use jam_script.Wire.Reader.Rules

-- Wherever `m` reads a value, `n` reads `f` of it and leaves the same reader.
pub record Skims {A B : Type 0} (m : Read A) (n : Read B) (f : A → B) : Type 0 where
  pub at : (r r' : Reader) (a : A) → m r ≡ ok (a, r') → n r ≡ ok (f a, r')

pub Skims-refl : {A : Type 0} (m : Read A) → Skims m m (λ a. a)
Skims-refl m = record { at = λ r r' a h. h }

pub Skims-bind :
    {A B C D : Type 0} {f : A → B} {g : C → D} {m : Read A} {n : Read B} (k : A → Read C)
    (l : B → Read D)
    → Skims m n f
    → ((a : A) → Skims (k a) (l (f a)) g)
    → Skims (m >>= k) (n >>= l) g
Skims-bind {m = m} {n = n} k l h next = record {
  at = λ r r' c e.
      let (a, r₁, e₁, e₂) = Rules.>>=-eq-ok m k r (c, r') e in
      Rules.>>=-ok n l r (h.at r r₁ a e₁) ∙ (next a).at r₁ r' c e₂;
}

pub Skims-pure : {A B : Type 0} {f : A → B} (a : A) → Skims (Reader.pure a) (Reader.pure (f a)) f
unfolding Reader.pure
Skims-pure {f = f} a = record {
  at = λ r r' b h. let same : a ≡ b = cc h in let here : r ≡ r' = cc h in rw (same, here);
}

pub Skims-fail :
    {A B : Type 0} {f : A → B} (e : WireError)
    → Skims {A = A} {B = B} (Reader.fail e) (Reader.fail e) f
unfolding Reader.fail
Skims-fail e = record { at = λ r r' b h. cc }

pub Skims-if :
    {A B : Type 0} {f : A → B} (t : Bool) {m m' : Read A} {n n' : Read B}
    → Skims m n f
    → Skims m' n' f
    → Skims (if t then m else m') (if t then n else n') f
Skims-if true h h' = h
Skims-if false h h' = h'

pub Skims-repeat :
    {A B : Type 0} {f : A → B} {m : Read A} {n : Read B} (count : ℕ)
    → Skims m n f
    → Skims (Reader.repeat count m) (Reader.repeat count n) (map f)
unfolding Reader.repeat
Skims-repeat zero h = Skims-pure []
Skims-repeat (suc count) h =
    Skims-bind _ _ h λ a. Skims-bind _ _ (Skims-repeat count h) λ more. Skims-pure (a ∷ more)

pub Skims-else :
    {A B : Type 0} {f : A → B} (t : Bool) {m : Read A} (n : Read B) {n' : Read B}
    → t ≡ false
    → Skims m n' f
    → Skims m (if t then n else n') f
Skims-else true n e h = cc
Skims-else false n e h = h

pub lift-eq-ok :
    {A : Type 0} (x : Result WireError A) (r r' : Reader) (b : A)
    → Reader.lift x r ≡ ok (b, r')
    → (x ≡ ok b) × (r ≡ r')
unfolding Reader.lift
lift-eq-ok (ok a) r r' b h = (cc, cc)
lift-eq-ok (err e) r r' b h = cc

pub value-eq-ok :
    {A : Type 0} (x : Result WireError (A × Reader)) (a : A)
    → Reader.value x ≡ ok a
    → (r : Reader) × (x ≡ ok (a, r))
unfolding Reader.value
value-eq-ok (ok (b, r)) a h = (r, cc)
value-eq-ok (err e) a h = cc

-- Where nothing is read after `m` and `n` ends.
pub Skims-end :
    {A B C : Type 0} {f : A → B} {g : C → B} {m : Read A} {n : Read B} (k : A → C)
    → Skims m n f
    → ((a : A) → f a ≡ g (k a))
    → Skims (m >>= λ a. Reader.pure (k a)) n g
unfolding Reader.pure
Skims-end {f = f} {g = g} {m = m} {n = n} k h same = record {
  at = λ r r' c e.
      let (a, r₁, e₁, e₂) = Rules.>>=-eq-ok m (λ a. Reader.pure (k a)) r (c, r') e in
      let value : k a ≡ c = cc e₂ in
      let here : r₁ ≡ r' = cc e₂ in rw (h.at r r₁ a e₁, same a, value, here);
}

-- A step that does not read, where the other decoder has a test that it implies.
pub Skims-lift :
    {A C D : Type 0} {g : C → D} (m : Result WireError A) (k : A → Read C) (n : Read D)
    → ((a : A) → m ≡ ok a → Skims (k a) n g)
    → Skims (Reader.lift m >>= k) n g
unfolding ◌>>=◌ Reader.lift
Skims-lift (ok a) k n h = record { at = (h a refl).at }
Skims-lift (err e) k n h = record { at = λ r r' b eq. cc }

-- A last test that returns the value as it is.
pub Skims-check :
    {A B : Type 0} {f : A → B} {m : Read A} {n : Read B} (check : A → Result WireError A)
    → Skims m n f
    → ((a b : A) → check a ≡ ok b → a ≡ b)
    → Skims (m >>= λ a. Reader.lift (check a)) n f
Skims-check {f = f} {m = m} check h same = record {
  at = λ r r' b e.
      let (a, r₁, e₁, e₂) = Rules.>>=-eq-ok m (λ a. Reader.lift (check a)) r (b, r') e in
      let (good, here) = lift-eq-ok (check a) r₁ r' b e₂ in
      rw (h.at r r₁ a e₁, same a b good, here);
}

pub Skims-run :
    {A B : Type 0} {m : Read A} {n : Read B} {f : A → B} (bytes : Bytes) (a : A)
    → Skims m n f
    → Reader.run m bytes ≡ ok a
    → Reader.run n bytes ≡ ok (f a)
unfolding Reader.run
Skims-run {m = m} {n = n} {f = f} bytes a h e =
    let (r, e₁) = value-eq-ok (m (Reader.new bytes)) a e in
    rw (h.at (Reader.new bytes) r a e₁, Reader.value)
