-- ===== src/Server/Migration/Transaction.antt =====
-- The transaction of BootstrapFromGolangMigrate, and what it relies on.
use ubuntu_insights.Base.{
  ◌==◌, ap, Bool, Bytes, List, [], arith, false, if◌then◌else◌, inl, inr, is_nil, length, refl,
  some, suc, sym, take, true, zero, ℕ, ◌++◌, ◌∷◌, ◌≡◌, ◌∙◌,
}
use ubuntu_insights.Base.Int.{ℤ}
use mathlib.Core.List.{append-nil}
use ubuntu_insights.Server.Migration.{
  Session, Sql, finish, hiding, prepare, prepare_and_commit, seed_if_empty, seed_versions, up_to,
  verify_tables, ◌>>=◌, ◌>>◌,
}
use ubuntu_insights.Server.Migration.Laws.{
  HasTables, from, seeded, with_rows, no_state, migrated, Committed, IsTransactional,
}
use ubuntu_insights.Server.Migration.Rules.{
  Pending, Pending-bind, Reads, Reads-bind, Schema, hiding-Pending, hiding-Reads, rows_of,
  session_elim,
}
use ubuntu_insights.System.World.{Status, err, ok, opaque, plain}

from-append : (n v : ℕ) (l : List ℕ) → (l ++ (v ∷ [])) ++ from n (suc v) ≡ l ++ from (suc n) v
from-append n v [] = refl
from-append n v (x ∷ l) = ap (λ xs. x ∷ xs) (from-append n v l)

with_rows_same : (t : Schema) (l : List ℕ) → t.versions ≡ some l → t ≡ with_rows l t
with_rows_same t l h = ap (λ o. record t { versions = o }) h

module _ {S : Type 0} (sql : Sql S) (db tx : S → Schema) (law : IsTransactional sql db tx) where
  only_if :
      {m : Session S (Unit {0})} {P : Schema → Unit {0} → Type 0}
      → Reads db m P
      → (b : Bool) → Reads db (if b then m else finish (err plain)) (λ t x. (b ≡ true) × P t x)
  only_if h true = record { same = λ s. h.same s; answer = λ s a e. (refl, h.answer s a e) }
  only_if h false = record { same = λ s. refl; answer = λ s a e. absurd (ground arith) }

  pub verify_tables-Reads :
      (n : ℕ) (names : List Bytes)
      → Reads db (verify_tables sql n names) (λ t _. HasTables t (take n names))
  unfolding verify_tables
  verify_tables-Reads zero [] = record { same = λ s. refl; answer = λ s a e. tt }
  verify_tables-Reads (suc n) [] = record { same = λ s. refl; answer = λ s a e. tt }
  verify_tables-Reads zero (t ∷ ts) = record { same = λ s. refl; answer = λ s a e. tt }
  verify_tables-Reads (suc n) (t ∷ ts) =
      Reads-bind db (hiding (sql.table_exists t))
        (λ b. if b then verify_tables sql n ts else finish (err plain))
        (hiding-Reads db (sql.table_exists t) (law.table_exists-Reads t))
        (λ b. only_if (verify_tables-Reads n ts) b) (λ u b x e h. (sym e ∙ h.0, h.1))

  seed_versions-Pending :
      (n v : ℕ)
      → Pending db tx
          (seed_versions sql n v)
          (λ t _ t'. (l : List ℕ) → t.versions ≡ some l → t' ≡ with_rows (l ++ from n v) t)
  unfolding seed_versions
  seed_versions-Pending zero v = record {
    keeps = λ s. refl;
    changes = λ s a e l h. rw (append-nil l) (with_rows_same (tx s) l h);
  }
  seed_versions-Pending (suc n) v =
      Pending-bind db tx (hiding (sql.insert_version v)) (λ _. seed_versions sql n (suc v))
        (hiding-Pending db tx (sql.insert_version v) (law.insert-Pending v))
        (λ _. seed_versions-Pending n (suc v))
        (λ t a t' b t'' p q l h.
          q (l ++ (v ∷ [])) (ap (λ x. x.versions) p ∙ ap (λ o. some (rows_of o ++ (v ∷ []))) h)
          ∙ ap (λ x. with_rows ((l ++ (v ∷ [])) ++ from n (suc v)) x) p
          ∙ ap (λ k. with_rows k t) (from-append n v l))

  seed_or_not :
      (version : ℤ) (empty : Bool)
      → Pending db tx
          (if empty then seed_versions sql (up_to version) 0 else finish (ok tt))
          (λ t _ t'.
            (l : List ℕ)
            → empty ≡ is_nil l
            → t.versions ≡ some l
            → t' ≡ with_rows (seeded version l) t)
  seed_or_not version true = record {
    keeps = λ s. (seed_versions-Pending (up_to version) 0).keeps s;
    changes = λ s a e l n h.
        (seed_versions-Pending (up_to version) 0).changes s a e [] (h ∙ ap some (nothing l n))
        ∙ ap (λ k. with_rows (seeded version k) (tx s)) (sym (nothing l n));
  }
    where
      nothing : (l : List ℕ) → true ≡ is_nil l → l ≡ []
      nothing [] n = refl
      nothing (v ∷ l) n = absurd (ground arith)
  seed_or_not version false = record {
    keeps = λ s. refl;
    changes =
        λ s a e l n h. with_rows_same (tx s) l h ∙ ap (λ k. with_rows k (tx s)) (something l n);
  }
    where
      something : (l : List ℕ) → false ≡ is_nil l → l ≡ seeded version l
      something [] n = absurd (ground arith)
      something (v ∷ l) n = refl

  seed_if_empty-Pending :
      (version : ℤ) (n : ℕ)
      → Pending db tx (seed_if_empty sql version n) (λ t _ t'.
        (l : List ℕ)
        → (n == 0) ≡ is_nil l
        → t.versions ≡ some l
        → t' ≡ with_rows (seeded version l) t)
  unfolding seed_if_empty
  seed_if_empty-Pending version n = seed_or_not version (n == 0)

  seed_and_drop-Pending :
      (version : ℤ) (n : ℕ)
      → Pending db tx (seed_if_empty sql version n >> hiding sql.drop_state) (λ t _ t'.
        (l : List ℕ)
        → (n == 0) ≡ is_nil l
        → t.versions ≡ some l
        → t' ≡ no_state (with_rows (seeded version l) t))
  seed_and_drop-Pending version n =
      Pending-bind db tx (seed_if_empty sql version n) (λ _. hiding sql.drop_state)
        (seed_if_empty-Pending version n)
        (λ _. hiding-Pending db tx sql.drop_state law.drop-Pending)
        (λ t a t' b t'' p q l e h. q ∙ ap no_state (p l e h))

  count_and_seed-Pending :
      (version : ℤ)
      → Pending db tx
          (hiding sql.count_versions >>= λ n. seed_if_empty sql version n >> hiding sql.drop_state)
          (λ t _ t'.
            (l : List ℕ) → t.versions ≡ some l → t' ≡ no_state (with_rows (seeded version l) t))
  count_and_seed-Pending version =
      Pending-bind db tx (hiding sql.count_versions)
        (λ n. seed_if_empty sql version n >> hiding sql.drop_state)
        (hiding-Pending db tx sql.count_versions law.count-Pending)
        (λ n. seed_and_drop-Pending version n)
        (λ t n t' b t'' p q l h.
          q l (counted n l (p.1 ∙ ap (λ o. length (rows_of o)) h)) (ap (λ x. x.versions) p.0 ∙ h)
          ∙ ap (λ x. no_state (with_rows (seeded version l) x)) p.0)
    where
      counted : (n : ℕ) (l : List ℕ) → n ≡ length l → (n == 0) ≡ is_nil l
      counted n [] e = ground arith
      counted n (v ∷ l) e = ground arith

  prepare-Pending :
      (version : ℤ) → Pending db tx (prepare sql version) (λ t _ t'. t' ≡ migrated version t)
  unfolding prepare
  prepare-Pending version =
      Pending-bind db tx (hiding sql.create_versions)
        (λ _.
          hiding sql.count_versions >>= λ n. seed_if_empty sql version n >> hiding sql.drop_state)
        (hiding-Pending db tx sql.create_versions law.create-Pending)
        (λ _. count_and_seed-Pending version)
        (λ t a t' b t'' p q.
          q (rows_of t.versions) (ap (λ x. x.versions) p)
          ∙ ap (λ x. no_state (with_rows (seeded version (rows_of t.versions)) x)) p)

  committed :
      (version : ℤ) (a : Schema) (s : S) (r : Status)
      → (sql.commit s).0 ≡ r
      → db s ≡ a
      → tx s ≡ migrated version a
      → Committed version a (opaque r) (db (sql.commit s).1)
  committed version a s (ok tt) e same h = inl (refl, law.commit_ok s e ∙ h)
  committed version a s (err f) e same h = elim (law.commit_any s) [
    | inl kept ↦ inr (refl, inl (kept ∙ same))
    | inr made ↦ inr (refl, inr (made ∙ h))
  ]

  pub prepare_and_commit-Committed :
      (version : ℤ) (s : S)
      → tx s ≡ db s
      → Committed version
          (db s)
          (prepare_and_commit sql version s).0
          (db (prepare_and_commit sql version s).1)
  unfolding prepare_and_commit
  prepare_and_commit-Committed version s e =
      session_elim (λ r s'. Committed version (db s) r (db s')) (prepare sql version)
        (λ _. hiding sql.commit) s
        (λ u h.
          let s1 = (prepare sql version s).1 in
          committed version (db s) s1 (sql.commit s1).0 refl ((prepare-Pending version).keeps s)
            ((prepare-Pending version).changes s u h ∙ ap (migrated version) e))
        (λ f. inr (refl, inl ((prepare-Pending version).keeps s)))
