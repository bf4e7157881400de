-- ===== src/System/Returns.antt =====
-- Rules for actions that never fail, whatever the world is, with what holds of their result.
use ubuntu_insights.Base.{Bool, false, if◌then◌else◌, refl, true, ◌≡◌}
use ubuntu_insights.System.World.{Io, World, attempt, ok, pure, ◌>>=◌}

pub record Returns {ℓ κ} {A : Type ℓ} (P : A → Type κ) (m : Io A) : Type (ℓ ⊔ κ) where
  pub at : (w : World) → (a : A) × ((m w).0 ≡ ok a) × P a

module _ {ℓ μ κ ν} {A : Type ℓ} {B : Type μ} {P : A → Type κ} {Q : B → Type ν} where
  pub Returns-bind :
      (m : Io A) (f : A → Io B)
      → Returns P m
      → ((a : A) → P a → Returns Q (f a))
      → Returns Q (m >>= f)
  Returns-bind m f first next = record {
    at = λ w.
        let (a, e, p) = first.at w in let (b, e', q) = (next a p).at (m w).1 in (b, rw e e', q);
  }

module _ {ℓ κ} {A : Type ℓ} {P : A → Type κ} where
  pub Returns-pure : (a : A) → P a → Returns P (pure a)
  Returns-pure a p = record { at = λ w. (a, refl, p) }

  pub Returns-if :
      (b : Bool) (m n : Io A)
      → (b ≡ true → Returns P m)
      → (b ≡ false → Returns P n)
      → Returns P (if b then m else n)
  Returns-if true m n on_true on_false = on_true refl
  Returns-if false m n on_true on_false = on_false refl

-- Any result will do.
abbrev pub Anything {ℓ} : {A : Type ℓ} → A → Type 0
Anything a = Unit

module _ {ℓ} {A : Type ℓ} where
  -- An action whose error is taken as a value
  pub Returns-attempt : (m : Io A) → Returns Anything (attempt m)
  Returns-attempt m = record { at = λ w. ((m w).0, refl, tt) }
