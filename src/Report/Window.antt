-- ===== src/Report/Window.antt =====
-- The walk over a directory, against a plain filter of its entries.
use mathlib.Core.List.{append_assoc, append-nil}
use ubuntu_insights.Base.{
  All, All-append, Bool, Bool-cases, Has, List, Option-cases, [], false, inl, inr, is_nil, none,
  not, refl, some, sym, ◌++◌, ◌∙◌, ◌∷◌, ◌≡◌,
}
use ubuntu_insights.Base.Int.{ℤ}
use ubuntu_insights.Report.{Report, admit, collect_reports}
use ubuntu_insights.System.World.{FilePath, Node}

-- The reports of a period among some entries: the reference for the walk.
unfoldable pub admitted : ℤ → ℤ → List (FilePath × Node) → List Report
admitted from to [] = []
admitted from to (e ∷ l) = elim (admit from to e) [
  | none ↦ admitted from to l
  | some r ↦ r ∷ admitted from to l
]

module _ (from to : ℤ) where
  -- With no early exit the walk is the filter.
  pub collect_reports_all :
      (acc : List Report) (l : List (FilePath × Node))
      → collect_reports from to (λ rs. false) acc l ≡ acc ++ admitted from to l
  unfolding collect_reports admitted
  collect_reports_all acc [] = sym (append-nil acc)
  collect_reports_all acc (e ∷ l) = elim (Option-cases (admit from to e)) [
    | inl h ↦ rw (h, collect_reports) (rw (h, admitted) (collect_reports_all acc l))
    | inr (r, h) ↦
        rw (h, collect_reports)
          (rw (h, admitted)
            (collect_reports_all (acc ++ (r ∷ [])) l
              ∙ append_assoc acc (r ∷ []) (admitted from to l)))
  ]

  -- Stopping at the first report tells whether there is one.
  pub collect_reports_first :
      (l : List (FilePath × Node))
      → is_nil (collect_reports from to (λ rs. not (is_nil rs)) [] l) ≡ is_nil (admitted from to l)
  unfolding collect_reports admitted
  collect_reports_first [] = refl
  collect_reports_first (e ∷ l) = elim (Option-cases (admit from to e)) [
    | inl h ↦ rw (h, collect_reports) (rw (h, admitted) (collect_reports_first l))
    | inr (r, h) ↦ rw (h, collect_reports) (rw (h, admitted))
  ]

  -- The walk that stops at `n` reports finds no others than the filter.
  pub All-collect_reports :
      (P : Report → Type 0) (exit : List Report → Bool) (acc : List Report)
      (l : List (FilePath × Node))
      → All P acc
      → All P (admitted from to l)
      → All P (collect_reports from to exit acc l)
  unfolding collect_reports admitted
  All-collect_reports P exit acc [] ha hl = ha
  All-collect_reports P exit acc (e ∷ l) ha hl = elim (Option-cases (admit from to e)) [
    | inl h ↦ rw (h, collect_reports) (All-collect_reports P exit acc l ha (rw (h, admitted) at hl))
    | inr (r, h) ↦
        let hl' = rw (h, admitted) at hl in
        let ha' = All-append P acc (r ∷ []) ha (hl'.0, tt) in
        rw (h, collect_reports)
          (elim (Bool-cases (exit (acc ++ (r ∷ [])))) [
            | inl stop ↦ rw stop ha'
            | inr more ↦ rw more (All-collect_reports P exit (acc ++ (r ∷ [])) l ha' hl'.1)
          ])
  ]

  -- Every entry that is a report of the period is found.
  pub admitted-Has :
      (e : FilePath × Node) (r : Report) (l : List (FilePath × Node))
      → admit from to e ≡ some r
      → Has e l
      → Has r (admitted from to l)
  unfolding admitted
  admitted-Has e r [] h m = absurd m
  admitted-Has e r (x ∷ l) h (inl same) = rw (← same) (rw (h, admitted) (inl refl))
  admitted-Has e r (x ∷ l) h (inr m) = elim (Option-cases (admit from to x)) [
    | inl k ↦ rw (k, admitted) (admitted-Has e r l h m)
    | inr (s, k) ↦ rw (k, admitted) (inr (admitted-Has e r l h m))
  ]

  -- Whatever holds of the report of every entry holds of every report found.
  pub All-admitted :
      (P : Report → Type 0) (l : List (FilePath × Node))
      → ((e : FilePath × Node) (r : Report) → Has e l → admit from to e ≡ some r → P r)
      → All P (admitted from to l)
  unfolding admitted
  All-admitted P [] h = tt
  All-admitted P (x ∷ l) h = elim (Option-cases (admit from to x)) [
    | inl k ↦ rw (k, admitted) (All-admitted P l (λ e r m. h e r (inr m)))
    | inr (s, k) ↦ rw (k, admitted) (h x s (inl refl) k, All-admitted P l (λ e r m. h e r (inr m)))
  ]
