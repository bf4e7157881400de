-- ===== src/System/Keeps.antt =====
-- Rules for what an action keeps of the world, on every branch, errors included.
use ubuntu_insights.Base.{Bool, false, if◌then◌else◌, refl, true, ◌≡◌}
use ubuntu_insights.System.Steps.{bind_elim}
use ubuntu_insights.System.World.{
  Error, Io, Result, World, attempt, hiding, lift, pure, raise, ◌>>=◌,
}

pub record Keeps {ℓ κ} {A : Type ℓ} (P : World → Type κ) (m : Io A) : Type (ℓ ⊔ κ) where
  pub at : (w : World) → P w → P (m w).1

-- Sequencing comes first: the second action starts where the first one ends.
module _ {ℓ μ κ} {A : Type ℓ} {B : Type μ} {P : World → Type κ} where
  pub Keeps-bind :
      (m : Io A) (f : A → Io B) → Keeps P m → ((a : A) → Keeps P (f a)) → Keeps P (m >>= f)
  Keeps-bind m f first next = record {
    at = λ w p.
        let here = first.at w p in
        bind_elim (λ _ v. P v) m f w (λ a _. (next a).at (m w).1 here) (λ _ _. here);
  }

module _ {ℓ κ} {A : Type ℓ} {P : World → Type κ} where
  pub Keeps-attempt : (m : Io A) → Keeps P m → Keeps P (attempt m)
  Keeps-attempt m inner = record { at = inner.at }

  pub Keeps-hiding : (m : Io A) → Keeps P m → Keeps P (hiding m)
  Keeps-hiding m inner = record { at = inner.at }

  -- An action that leaves the world alone.
  pub Keeps-lift : (r : Result A) → Keeps P (lift r)
  Keeps-lift r = record { at = λ w p. p }

  pub Keeps-pure : (a : A) → Keeps P (pure a)
  Keeps-pure a = record { at = λ w p. p }

  pub Keeps-raise : (e : Error) → Keeps P (raise {A = A} e)
  Keeps-raise e = record { at = λ w p. p }

  pub Keeps-if :
      (test : Bool) (this that : Io A)
      → (test ≡ true → Keeps P this)
      → (test ≡ false → Keeps P that)
      → Keeps P (if test then this else that)
  Keeps-if false this that on_true on_false = on_false refl
  Keeps-if true this that on_true on_false = on_true refl

pub ruleset keeps_rules =
    (Keeps-bind, Keeps-if, Keeps-attempt, Keeps-hiding, Keeps-lift, Keeps-pure, Keeps-raise)
