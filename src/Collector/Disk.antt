-- ===== src/Collector/Disk.antt =====
-- What Write leaves on the disk when it must not write.
use ubuntu_insights.Base.{
  Bool, Bytes, List, Option, false, is_nil, not, refl, subst, sym, true, ℕ, ◌≡◌,
}
use ubuntu_insights.Base.Int.{ℤ}
use ubuntu_insights.Collector.{
  Collector, any_duplicate, clear_existing, duplicate_in, exists_maybe, handle_duplicates,
  write_granted, write_insights,
}
use ubuntu_insights.Report.{Report, clear_period, duplicate_exists, walk_reports}
use ubuntu_insights.Report.Duplicates.{walk_reports_tree}
use ubuntu_insights.System.Files.{stat}
use ubuntu_insights.System.Files.Laws.{stat_tree}
use ubuntu_insights.System.Keeps.{
  Keeps, Keeps-attempt, Keeps-bind, Keeps-hiding, Keeps-pure, keeps_rules,
}
use ubuntu_insights.System.World.{
  FilePath, Io, Node, Result, Tree, World, err, fails_with, not_exist, ok,
}

-- Rules for what an action keeps of the tree.
module _ (Q : Tree → Type 0) where
  abbrev pub OnTree : World → Type 0
  OnTree w = Q w.tree

  pub Keeps-of_tree {ℓ} :
      {A : Type ℓ} (m : Io A) → ((w : World) → (m w).1.tree ≡ w.tree) → Keeps OnTree m
  Keeps-of_tree m h = record { at = λ w q. subst Q (sym (h w)) q }

  OnTree-stat : (p : FilePath) → Keeps OnTree (stat p)
  OnTree-stat p = Keeps-of_tree (stat p) (stat_tree p)

  OnTree-walk :
      (from to : ℤ) (exit : List Report → Bool) (d : FilePath)
      → Keeps OnTree (walk_reports from to exit d)
  OnTree-walk from to exit d = Keeps-of_tree _ (walk_reports_tree from to exit d)

  OnTree-clear_dry :
      (d : FilePath) (t : ℤ) (period : ℕ) → Keeps OnTree (clear_period d t period true)
  unfolding clear_period
  OnTree-clear_dry d t period = Keeps-bind _ _ (OnTree-walk _ t _ d) (λ rs. Keeps-pure tt)

  OnTree-duplicate_exists :
      (d : FilePath) (t : ℤ) (period : ℕ) → Keeps OnTree (duplicate_exists d t period)
  unfolding duplicate_exists
  OnTree-duplicate_exists d t period =
      Keeps-bind _ _ (OnTree-walk _ t _ d) (λ rs. Keeps-pure (not (is_nil rs)))

  OnTree-exists_maybe : (d : FilePath) → Keeps OnTree (exists_maybe d)
  unfolding exists_maybe
  OnTree-exists_maybe d =
      Keeps-bind _ _ (Keeps-attempt _ (OnTree-stat d))
        (λ r. Keeps-pure (not (fails_with r not_exist)))

  OnTree-duplicate_in :
      (d : FilePath) (b : Bool) (t : ℤ) (period : ℕ) → Keeps OnTree (duplicate_in d b t period)
  unfolding duplicate_in
  OnTree-duplicate_in d b t period = search (keeps_rules, OnTree-duplicate_exists)

  pub OnTree-any_duplicate :
      (c : Collector) (t : ℤ) (period : ℕ) → Keeps OnTree (any_duplicate c t period)
  unfolding any_duplicate
  OnTree-any_duplicate c t period =
      search (keeps_rules, OnTree-exists_maybe, OnTree-duplicate_in) depth 9

  OnTree-clear_existing :
      (c : Collector) (r : Result Node) (t : ℤ) (period : ℕ)
      → Keeps OnTree (clear_existing c r true t period)
  unfolding clear_existing
  OnTree-clear_existing c (ok node) t period = Keeps-hiding _ (OnTree-clear_dry _ t period)
  OnTree-clear_existing c (err e) t period = search keeps_rules

  OnTree-handle_dry :
      (c : Collector) (force : Bool) (t : ℤ) (period : ℕ)
      → Keeps OnTree (handle_duplicates c force true t period)
  unfolding handle_duplicates
  OnTree-handle_dry c true t period =
      Keeps-bind _ _ (Keeps-attempt _ (OnTree-stat _)) (λ r. OnTree-clear_existing c r t period)
  OnTree-handle_dry c false t period = search (keeps_rules, OnTree-any_duplicate) depth 7

  OnTree-write_insights_dry :
      (c : Collector) (encoded : Option Bytes) (date : ℤ) (period : ℕ) (force : Bool)
      → Keeps OnTree (c.consent c.source)
      → Keeps OnTree (write_insights c encoded date period force true)
  unfolding write_insights write_granted
  OnTree-write_insights_dry c encoded date period force silent =
      search (keeps_rules, OnTree-handle_dry) depth 9

-- A dry run of Write leaves the tree as it is, on every branch, with force or without, and on any
-- schedule of failing calls, if asking for the consent does.
pub write_insights_dry :
    (c : Collector) (encoded : Option Bytes) (date : ℤ) (period : ℕ) (force : Bool) (w : World)
    → ((v : World) → (c.consent c.source v).1.tree ≡ v.tree)
    → (write_insights c encoded date period force true w).1.tree ≡ w.tree
write_insights_dry c encoded date period force w silent =
    (OnTree-write_insights_dry (λ t. t ≡ w.tree) c encoded date period force
        (Keeps-of_tree (λ t. t ≡ w.tree) (c.consent c.source) silent)).at
      w refl
