-- ===== src/Wire/Reader/Rules/Yields.antt =====
-- What holds of every value that a decoder reads.
use jam_script.Prelude.{◌≡◌, refl, subst, Bool, true, false, Bytes, Result, ok, if◌then◌else◌}
use jam_script.Wire.{WireError}
use jam_script.Wire.Reader
use jam_script.Wire.Reader.{Reader, Read, ◌>>=◌}
use jam_script.Wire.Reader.Rules
use jam_script.Wire.Reader.Rules.Skims.{lift-eq-ok, value-eq-ok}

-- Whatever `m` reads has the property.
pub record Yields {A : Type 0} (m : Read A) (P : A → Type 0) : Type 0 where
  pub at : (r r' : Reader) (a : A) → m r ≡ ok (a, r') → P a

module _ {A : Type 0} {P : A → Type 0} where
  pub Yields-pure : (a : A) → P a → Yields (Reader.pure a) P
  unfolding Reader.pure
  Yields-pure a h = record { at = λ r r' b e. let same : a ≡ b = cc e in subst P same h }

  pub Yields-fail : (e : WireError) → Yields (Reader.fail e) P
  unfolding Reader.fail
  Yields-fail e = record { at = λ r r' b h. cc }

  pub Yields-if :
      (t : Bool) {m n : Read A}
      → (t ≡ true → Yields m P)
      → (t ≡ false → Yields n P)
      → Yields (if t then m else n) P
  Yields-if true h k = h refl
  Yields-if false h k = k refl

module _ {A B : Type 0} {P : A → Type 0} {Q : B → Type 0} where
  pub Yields-bind :
      (m : Read A) (f : A → Read B)
      → Yields m P
      → ((a : A) → P a → Yields (f a) Q)
      → Yields (m >>= f) Q
  Yields-bind m f h next = record {
    at = λ r r' b e.
        let (a, r₁, e₁, e₂) = Rules.>>=-eq-ok m f r (b, r') e in
        (next a (h.at r r₁ a e₁)).at r₁ r' b e₂;
  }

-- A step of which nothing need be known.
pub Yields-step :
    {A B : Type 0} {Q : B → Type 0} (m : Read A) (f : A → Read B)
    → ((a : A) → Yields (f a) Q)
    → Yields (m >>= f) Q
Yields-step {A = A} m f next =
    Yields-bind {P = λ (x : A). Unit {0}} m f (record { at = λ r r' a e. tt }) λ a known. next a

pub Yields-lift :
    {A : Type 0} {P : A → Type 0} (m : Result WireError A)
    → ((a : A) → m ≡ ok a → P a)
    → Yields (Reader.lift m) P
unfolding Reader.lift
Yields-lift m h = record { at = λ r r' a e. h a (lift-eq-ok m r r' a e).0 }

pub Yields-run :
    {A : Type 0} {P : A → Type 0} {m : Read A} (bytes : Bytes) (a : A)
    → Yields m P
    → Reader.run m bytes ≡ ok a
    → P a
unfolding Reader.run
Yields-run {m = m} bytes a h e =
    let (r, e₁) = value-eq-ok (m (Reader.new bytes)) a e in h.at (Reader.new bytes) r a e₁
