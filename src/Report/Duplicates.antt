-- ===== src/Report/Duplicates.antt =====
-- DuplicateExists against the tree: it answers whether a report of the period lies in the
-- directory.
use ubuntu_insights.Base.{
  Bool, Bytes, Has, List, Option-cases, [], ap, arith, false, inl, inr, is_nil, not, refl, some,
  true, ℕ, ◌↔◌, ◌∙◌, ◌∷◌, ◌≡◌,
}
use ubuntu_insights.Base.Int.{ℤ}
use ubuntu_insights.Report.{
  Report, admit, collect_reports, duplicate_exists, new_report, outside, period_start, under,
  walk_reports,
}
use ubuntu_insights.Report.Window.{admitted, admitted-Has, collect_reports_first}
use ubuntu_insights.System.Files.{entries_of, node_at, read_dir, sort_entries, stat}
use ubuntu_insights.System.Files.Entries.{
  HasUniquePaths, entries_of-Has, node_at-entries_of, sort_entries-Has,
}
use ubuntu_insights.System.Steps.{bind-eq_ok}
use ubuntu_insights.System.World.{FilePath, Node, Tree, World, dir, file, ok}

pub under-Has :
    (d : FilePath) (n : Bytes) (a : Node) (l : List (Bytes × Node))
    → Has (n, a) l
    → Has (n ∷ d, a) (under d l)
unfolding under
under-Has d n a [] h = absurd h
under-Has d n a ((m, b) ∷ l) h = ground (arith, under-Has d n a l)

pub Has-under :
    (d p : FilePath) (a : Node) (l : List (Bytes × Node))
    → Has (p, a) (under d l)
    → (n : Bytes) × (p ≡ n ∷ d) × Has (n, a) l
unfolding under
Has-under d p a [] h = absurd h
Has-under d p a ((m, b) ∷ l) (inl e) = (m, ground arith, ground arith)
Has-under d p a ((m, b) ∷ l) (inr h) = let (n, e, k) = Has-under d p a l h in (n, e, inr k)

-- The entries that a walk of `d` visits.
abbrev pub visited : FilePath → Tree → List (FilePath × Node)
visited d t = under d (sort_entries (entries_of d t))

pub node_at-visited :
    (d p : FilePath) (a : Node) (t : Tree)
    → HasUniquePaths t
    → Has (p, a) (visited d t)
    → (n : Bytes) × (p ≡ n ∷ d) × (node_at p t ≡ some a)
unfolding node_at
node_at-visited d p a t u h =
    let (n, e, k) = Has-under d p a _ h in
    (n, e, rw e (node_at-entries_of d n a t u ((sort_entries-Has (n, a) (entries_of d t)).0 k)))

pub visited-Has :
    (d : FilePath) (n : Bytes) (a : Node) (t : Tree)
    → node_at (n ∷ d) t ≡ some a
    → Has (n ∷ d, a) (visited d t)
unfolding node_at
visited-Has d n a t h =
    under-Has d n a _ ((sort_entries-Has (n, a) (entries_of d t)).1 (entries_of-Has d n a t h))

-- What the walk returns, when it returns.
pub walk_reports_ok :
    (from to : ℤ) (exit : List Report → Bool) (d : FilePath) (w : World) (rs : List Report)
    → node_at d w.tree ≡ some dir
    → (walk_reports from to exit d w).0 ≡ ok rs
    → rs ≡ collect_reports from to exit [] (visited d w.tree)
unfolding walk_reports stat read_dir
walk_reports_ok from to exit d w rs h e = ground arith

pub walk_reports_tree :
    (from to : ℤ) (exit : List Report → Bool) (d : FilePath) (w : World)
    → (walk_reports from to exit d w).1.tree ≡ w.tree
unfolding walk_reports stat read_dir
walk_reports_tree from to exit d w = ground arith

-- A report of the period [from, to] that lies in the directory.
abbrev pub InPeriod : ℤ → ℤ → FilePath → Tree → Type 0
InPeriod from to d t =
    (n : Bytes) × (b : Bytes) × (r : Report) × (node_at (n ∷ d) t ≡ some (file b))
    × (new_report (n ∷ d) ≡ ok r)
    × (outside from to r.time_stamp ≡ false)

module _ (from to : ℤ) where
  admit-InPeriod :
      (d : FilePath) (t : Tree)
      → InPeriod from to d t
      → (e : FilePath × Node) × (r : Report) × Has e (visited d t) × (admit from to e ≡ some r)
  unfolding admit
  admit-InPeriod d t (n, b, r, at, new, inside) =
      ((n ∷ d, file b), r, visited-Has d n (file b) t at, ground arith)

  admit_cases :
      (p : FilePath) (a : Node) (r : Report)
      → admit from to (p, a) ≡ some r
      → (b : Bytes) × (a ≡ file b) × (new_report p ≡ ok r) × (outside from to r.time_stamp ≡ false)
  unfolding admit
  admit_cases p dir r h = cc
  admit_cases p (file b) r h = (b, refl, ground arith, ground arith)

  nonempty_of_Has : (r : Report) (l : List Report) → Has r l → is_nil l ≡ false
  nonempty_of_Has r [] h = absurd h
  nonempty_of_Has r (s ∷ l) h = refl

  -- Some entry is a report of the period, unless there is none.
  some-admitted :
      (l : List (FilePath × Node))
      → is_nil (admitted from to l) ≡ false
      → (e : FilePath × Node) × (r : Report) × Has e l × (admit from to e ≡ some r)
  unfolding admitted
  some-admitted [] h = absurd (ground arith)
  some-admitted (x ∷ l) h = elim (Option-cases (admit from to x)) [
    | inl k ↦ let (e, r, m, a) = some-admitted l (rw (k, admitted) at h) in (e, r, inr m, a)
    | inr (r, k) ↦ (x, r, inl refl, k)
  ]

  InPeriod-of_admitted :
      (d : FilePath) (t : Tree)
      → HasUniquePaths t
      → is_nil (admitted from to (visited d t)) ≡ false
      → InPeriod from to d t
  InPeriod-of_admitted d t u h =
      let (e, r, m, k) = some-admitted (visited d t) h in
      let (b, is_file, new, inside) = admit_cases e.0 e.1 r k in
      let (n, same, at) = node_at-visited d e.0 e.1 t u m in
      (n, b, r, rw same at (at ∙ ap some is_file), rw same at new, inside)

duplicate_exists_ok :
    (d : FilePath) (t : ℤ) (period : ℕ) (w : World) (b : Bool)
    → node_at d w.tree ≡ some dir
    → (duplicate_exists d t period w).0 ≡ ok b
    → b ≡ not (is_nil (admitted (period_start t period) t (visited d w.tree)))
unfolding duplicate_exists
duplicate_exists_ok d t period w b at h =
    let from = period_start t period in
    let (rs, e, k) = bind-eq_ok (walk_reports from t (λ rs. not (is_nil rs)) d) _ w h in
    ground (
      arith,
      walk_reports_ok from t (λ rs. not (is_nil rs)) d w rs at e,
      collect_reports_first from t (visited d w.tree),
    )

-- A report of the period is never missed.
pub duplicate_exists_finds :
    (d : FilePath) (t : ℤ) (period : ℕ) (w : World) (b : Bool)
    → node_at d w.tree ≡ some dir
    → InPeriod (period_start t period) t d w.tree
    → (duplicate_exists d t period w).0 ≡ ok b
    → b ≡ true
duplicate_exists_finds d t period w b at inside h =
    let from = period_start t period in
    let value = duplicate_exists_ok d t period w b at h in
    let (e, r, m, k) = admit-InPeriod from t d w.tree inside in
    let nonempty = nonempty_of_Has from t r _ (admitted-Has from t e r _ k m) in ground arith

-- Over a directory, when no call fails, DuplicateExists answers true exactly when the directory
-- holds a file whose name reads as a report of the period that ends at `t`.
pub duplicate_exists_iff :
    (d : FilePath) (t : ℤ) (period : ℕ) (w : World) (b : Bool)
    → HasUniquePaths w.tree
    → node_at d w.tree ≡ some dir
    → (duplicate_exists d t period w).0 ≡ ok b
    → (b ≡ true) ↔ InPeriod (period_start t period) t d w.tree
duplicate_exists_iff d t period w b u at h =
    let from = period_start t period in
    let value = duplicate_exists_ok d t period w b at h in
    (
      λ yes_. InPeriod-of_admitted from t d w.tree u (ground arith),
      λ inside. duplicate_exists_finds d t period w b at inside h,
    )
