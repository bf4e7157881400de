-- ===== src/System/Steps.antt =====
-- Case analysis on a bind: the first action returned, or it failed and the rest is skipped.
use ubuntu_insights.Base.{arith, refl, ◌≡◌}
use ubuntu_insights.System.World.{Error, Io, Result, World, continue, err, ok, opaque, plain, ◌>>=◌}

module _ {ℓ μ κ} {A : Type ℓ} {B : Type μ} (C : Result B → World → Type κ) where
  continue_elim :
      (r : Result A) (f : A → Io B) (w : World)
      → ((a : A) → r ≡ ok a → C (f a w).0 (f a w).1)
      → ((e : Error) → r ≡ err e → C (err e) w)
      → C (continue r f w).0 (continue r f w).1
  continue_elim (ok a) f w hf he = hf a refl
  continue_elim (err e) f w hf he = he e refl

  pub bind_elim :
      (m : Io A) (f : A → Io B) (w : World)
      → ((a : A) → (m w).0 ≡ ok a → C (f a (m w).1).0 (f a (m w).1).1)
      → ((e : Error) → (m w).0 ≡ err e → C (err e) (m w).1)
      → C ((m >>= f) w).0 ((m >>= f) w).1
  bind_elim m f w hf he = let (r, w') = m w in continue_elim r f w' hf he

pub opaque-eq_ok {ℓ} : {A : Type ℓ} (r : Result A) {a : A} → opaque r ≡ ok a → r ≡ ok a
opaque-eq_ok (ok a) h = h
opaque-eq_ok (err e) h = cc

pub opaque-eq_err {ℓ} :
    {A : Type ℓ} (r : Result A) {e : Error}
    → opaque r ≡ err e
    → (e' : Error) × (r ≡ err e') × (e ≡ plain)
opaque-eq_err (ok a) h = absurd (ground arith)
opaque-eq_err (err e') h = (e', refl, ground arith)

module _ {ℓ μ} {A : Type ℓ} {B : Type μ} where
  continue-eq_ok :
      (r : Result A) (f : A → Io B) (w : World) {b : B}
      → (continue r f w).0 ≡ ok b
      → (a : A) × (r ≡ ok a) × ((f a w).0 ≡ ok b)
  continue-eq_ok (ok a) f w h = (a, refl, h)
  continue-eq_ok (err e) f w h = absurd (ground arith)

  -- Inversion of a bind that returned.
  pub bind-eq_ok :
      (m : Io A) (f : A → Io B) (w : World) {b : B}
      → ((m >>= f) w).0 ≡ ok b
      → (a : A) × ((m w).0 ≡ ok a) × ((f a (m w).1).0 ≡ ok b)
  bind-eq_ok m f w h = let (r, w') = m w in continue-eq_ok r f w' h
