-- ===== src/Server/Migration/Rules.antt =====
-- Rules for the statements of a transaction, and for queries outside one.
use ubuntu_insights.Base.{
  Bool, Bytes, List, Option, [], arith, none, refl, some, subst, ℕ, ◌≡◌, ◌∙◌,
}
use ubuntu_insights.Base.Int.{ℤ}
use ubuntu_insights.Server.Migration.{Session, continue, hiding, ◌>>=◌}
use ubuntu_insights.System.Steps.{opaque-eq_ok}
use ubuntu_insights.System.World.{Error, Result, err, ok}

-- The schema: the rows of schema_migrations if the table exists, the rows of goose_db_version if that
-- exists, and the other tables.
pub record Schema : Type 0 where
  pub state : Option (List (ℤ × Bool))
  pub versions : Option (List ℕ)
  pub has_table : Bytes → Bool

abbrev pub rows_of : Option (List ℕ) → List ℕ
rows_of none = []
rows_of (some l) = l

-- Case analysis on a bind
module _ {S A B : Type 0} (C : Result B → S → Type 0) where
  continue_elim :
      (r : Result A) (f : A → Session S B) (s : S)
      → ((a : A) → r ≡ ok a → C (f a s).0 (f a s).1)
      → ((e : Error) → C (err e) s)
      → C (continue r f s).0 (continue r f s).1
  continue_elim (ok a) f s hf he = hf a refl
  continue_elim (err e) f s hf he = he e

  pub session_elim :
      (m : Session S A) (f : A → Session S B) (s : S)
      → ((a : A) → (m s).0 ≡ ok a → C (f a (m s).1).0 (f a (m s).1).1)
      → ((e : Error) → C (err e) (m s).1)
      → C ((m >>= f) s).0 ((m >>= f) s).1
  session_elim m f s hf he = continue_elim (m s).0 f (m s).1 hf he

-- Other sessions see `db`; the statements of a transaction change `tx`.
module _ {S : Type 0} (db tx : S → Schema) where
  -- A statement of a transaction: nobody else sees it, and if it succeeds it makes its change.
  pub record Pending {A : Type 0} (m : Session S A) (change : Schema → A → Schema → Type 0)
      : Type 0 where
    pub keeps : (s : S) → db (m s).1 ≡ db s
    pub changes : (s : S) (a : A) → (m s).0 ≡ ok a → change (tx s) a (tx (m s).1)

  module _ {A B : Type 0} where
    pub Pending-bind :
        (m : Session S A) (f : A → Session S B) {P : Schema → A → Schema → Type 0}
        {Q : A → Schema → B → Schema → Type 0} {R : Schema → B → Schema → Type 0}
        → Pending m P
        → ((a : A) → Pending (f a) (Q a))
        → ((t : Schema) (a : A) (t' : Schema) (b : B) (t'' : Schema)
            → P t a t'
            → Q a t' b t''
            → R t b t'')
        → Pending (m >>= f) R
    Pending-bind m f {R = R} hm hf join = record {
      keeps = λ s.
          session_elim (λ r s'. db s' ≡ db s) m f s (λ a _. (hf a).keeps (m s).1 ∙ hm.keeps s)
            (λ _. hm.keeps s);
      changes = λ s b e.
          session_elim (λ r s'. r ≡ ok b → R (tx s) b (tx s')) m f s
            (λ a h h'. join _ a _ b _ (hm.changes s a h) ((hf a).changes (m s).1 b h'))
            (λ _ h'. absurd (ground arith)) e;
    }

  module _ {A : Type 0} where
    pub hiding-Pending :
        (m : Session S A) {P : Schema → A → Schema → Type 0} → Pending m P → Pending (hiding m) P
    hiding-Pending m h = record {
      keeps = λ s. h.keeps s;
      changes = λ s a e. h.changes s a (opaque-eq_ok (m s).0 e);
    }

module _ {S : Type 0} (db : S → Schema) where
  -- A query outside a transaction, and what its answer says of the schema
  pub record Reads {A : Type 0} (m : Session S A) (says : Schema → A → Type 0) : Type 0 where
    pub same : (s : S) → db (m s).1 ≡ db s
    pub answer : (s : S) (a : A) → (m s).0 ≡ ok a → says (db s) a

  module _ {A B : Type 0} where
    pub Reads-bind :
        (m : Session S A) (f : A → Session S B) {P : Schema → A → Type 0}
        {Q : A → Schema → B → Type 0} {R : Schema → B → Type 0}
        → Reads m P
        → ((a : A) → Reads (f a) (Q a))
        → ((t : Schema) (a : A) (b : B) → P t a → Q a t b → R t b)
        → Reads (m >>= f) R
    Reads-bind m f {Q = Q} {R = R} hm hf join = record {
      same = λ s.
          session_elim (λ r s'. db s' ≡ db s) m f s (λ a _. (hf a).same (m s).1 ∙ hm.same s)
            (λ _. hm.same s);
      answer = λ s b e.
          session_elim (λ r s'. r ≡ ok b → R (db s) b) m f s
            (λ a h h'.
              join _ a b (hm.answer s a h)
                (subst (λ t. Q a t b) (hm.same s) ((hf a).answer (m s).1 b h')))
            (λ _ h'. absurd (ground arith)) e;
    }

  module _ {A : Type 0} where
    pub hiding-Reads : (m : Session S A) {P : Schema → A → Type 0} → Reads m P → Reads (hiding m) P
    hiding-Reads m h = record {
      same = λ s. h.same s;
      answer = λ s a e. h.answer s a (opaque-eq_ok (m s).0 e);
    }
