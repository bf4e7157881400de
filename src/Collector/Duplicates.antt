-- ===== src/Collector/Duplicates.antt =====
-- Without force, Write refuses a second report for a period.
use ubuntu_insights.Base.{
  Bool, Bytes, Option, ap, arith, false, if◌then◌else◌, inl, inr, is_nil, not, refl, some, subst,
  sym, true, ℕ, ◌∙◌, ◌≡◌, ◌⊎◌,
}
use ubuntu_insights.Base.Int.{ℤ}
use ubuntu_insights.Collector.{
  Collector, any_duplicate, duplicate_in, exists_maybe, handle_duplicates, report_date,
  write_granted, write_insights,
}
use ubuntu_insights.Collector.Disk.{OnTree-any_duplicate}
use ubuntu_insights.Env.{or_plain}
use ubuntu_insights.Report.{duplicate_exists, period_start, walk_reports}
use ubuntu_insights.Report.Duplicates.{InPeriod, duplicate_exists_finds, walk_reports_tree}
use ubuntu_insights.System.Files.{node_at, stat}
use ubuntu_insights.System.Steps.{bind-eq_ok, bind_elim, opaque-eq_ok}
use ubuntu_insights.System.World.{FilePath, Tree, World, dir, is_ok, lift, ok, pure}

exists_maybe_dir :
    (d : FilePath) (w : World) → node_at d w.tree ≡ some dir → (exists_maybe d w).0 ≡ ok true
unfolding exists_maybe stat
exists_maybe_dir d w h = ground arith

exists_maybe_tree : (d : FilePath) (w : World) → (exists_maybe d w).1.tree ≡ w.tree
unfolding exists_maybe stat
exists_maybe_tree d w = ground arith

duplicate_in_tree :
    (d : FilePath) (b : Bool) (t : ℤ) (period : ℕ) (w : World)
    → (duplicate_in d b t period w).1.tree ≡ w.tree
unfolding duplicate_in duplicate_exists
duplicate_in_tree d true t period w =
    bind_elim (λ _ w'. w'.tree ≡ w.tree)
      (walk_reports (period_start t period) t (λ rs. not (is_nil rs)) d) _ w
      (λ _ _. walk_reports_tree (period_start t period) t (λ rs. not (is_nil rs)) d w)
      (λ _ _. walk_reports_tree (period_start t period) t (λ rs. not (is_nil rs)) d w)
duplicate_in_tree d false t period w = refl

-- A report of the period that ends at `t`, in a directory.
abbrev pub HasReportOf : ℤ → ℕ → FilePath → Tree → Type 0
HasReportOf t period d tree =
    (node_at d tree ≡ some dir) × InPeriod (period_start t period) t d tree

duplicate_in_finds :
    (d : FilePath) (t : ℤ) (period : ℕ) (w : World) (b : Bool)
    → HasReportOf t period d w.tree
    → (duplicate_in d true t period w).0 ≡ ok b
    → b ≡ true
unfolding duplicate_in
duplicate_in_finds d t period w b (at, inside) h =
    duplicate_exists_finds d t period w b at inside
      (opaque-eq_ok (duplicate_exists d t period w).0 h)

module _ (c : Collector) (t : ℤ) (period : ℕ) (w : World) where
  abbrev w1 : World
  w1 = (exists_maybe c.collected_dir w).1

  abbrev w2 : World
  w2 = (exists_maybe c.uploaded_dir w1).1

  w2_tree : w2.tree ≡ w.tree
  w2_tree = exists_maybe_tree c.uploaded_dir w1 ∙ exists_maybe_tree c.collected_dir w

  abbrev w3 : Bool → World
  w3 b1 = (duplicate_in c.collected_dir b1 t period w2).1

  conclude :
      (b b1 b2 first : Bool)
      → HasReportOf t period c.collected_dir w.tree ⊎ HasReportOf t period c.uploaded_dir w.tree
      → (exists_maybe c.collected_dir w).0 ≡ ok b1
      → (exists_maybe c.uploaded_dir w1).0 ≡ ok b2
      → (duplicate_in c.collected_dir b1 t period w2).0 ≡ ok first
      → ((if first then pure true else duplicate_in c.uploaded_dir b2 t period) (w3 b1)).0 ≡ ok b
      → b ≡ true
  conclude b b1 b2 true h e1 e2 e3 k = ground arith
  conclude b b1 b2 false (inl h) e1 e2 e3 k =
      let b1_true : b1 ≡ true = ground (arith, exists_maybe_dir c.collected_dir w h.0) in
      let found =
        duplicate_in_finds c.collected_dir t period w2 false
          (subst (HasReportOf t period c.collected_dir) (sym w2_tree) h)
          (subst (λ x. (duplicate_in c.collected_dir x t period w2).0 ≡ ok false) b1_true e3) in
      absurd (ground arith)
  conclude b b1 b2 false (inr h) e1 e2 e3 k =
      let same : (w3 b1).tree ≡ w.tree =
        duplicate_in_tree c.collected_dir b1 t period w2 ∙ w2_tree in
      let at1 : node_at c.uploaded_dir w1.tree ≡ some dir =
        ap (node_at c.uploaded_dir) (exists_maybe_tree c.collected_dir w) ∙ h.0 in
      let b2_true : b2 ≡ true = ground (arith, exists_maybe_dir c.uploaded_dir w1 at1) in
      duplicate_in_finds c.uploaded_dir t period (w3 b1) b
        (subst (HasReportOf t period c.uploaded_dir) (sym same) h)
        (subst (λ x. (duplicate_in c.uploaded_dir x t period (w3 b1)).0 ≡ ok b) b2_true k)

  any_duplicate_finds :
      (b : Bool)
      → HasReportOf t period c.collected_dir w.tree ⊎ HasReportOf t period c.uploaded_dir w.tree
      → (any_duplicate c t period w).0 ≡ ok b
      → b ≡ true
  unfolding any_duplicate
  any_duplicate_finds b h e =
      let (b1, e1, k1) = bind-eq_ok (exists_maybe c.collected_dir) _ w e in
      let (b2, e2, k2) = bind-eq_ok (exists_maybe c.uploaded_dir) _ w1 k1 in
      let (first, e3, k3) = bind-eq_ok (duplicate_in c.collected_dir b1 t period) _ w2 k2 in
      conclude b b1 b2 first h e1 e2 e3 k3

  any_duplicate_tree : (any_duplicate c t period w).1.tree ≡ w.tree
  any_duplicate_tree = (OnTree-any_duplicate (λ x. x ≡ w.tree) c t period).at w refl

  -- handleDuplicates without force does not succeed, and changes nothing.
  handle_duplicates_refuses :
      (dry_run : Bool)
      → HasReportOf t period c.collected_dir w.tree ⊎ HasReportOf t period c.uploaded_dir w.tree
      → (is_ok (handle_duplicates c false dry_run t period w).0 ≡ false)
        × ((handle_duplicates c false dry_run t period w).1.tree ≡ w.tree)
  unfolding handle_duplicates
  handle_duplicates_refuses dry_run h =
      bind_elim (λ r w'. (is_ok r ≡ false) × (w'.tree ≡ w.tree)) (any_duplicate c t period) _ w
        (λ b e. rw (any_duplicate_finds b h e) (refl, any_duplicate_tree))
        (λ _ _. (refl, any_duplicate_tree))

granted_refuses :
    (c : Collector) (data' : Bytes) (t : ℤ) (period : ℕ) (dry_run granted : Bool) (v : World)
    → HasReportOf t period c.collected_dir v.tree ⊎ HasReportOf t period c.uploaded_dir v.tree
    → (is_ok (write_granted c data' t period false dry_run granted v).0 ≡ false)
      × ((write_granted c data' t period false dry_run granted v).1.tree ≡ v.tree)
unfolding write_granted
granted_refuses c data' t period dry_run granted v h =
    let refused = handle_duplicates_refuses c t period v dry_run h in
    bind_elim (λ r w'. (is_ok r ≡ false) × (w'.tree ≡ v.tree))
      (handle_duplicates c false dry_run t period) _ v (λ _ e. absurd (ground (arith, refused.0)))
      (λ _ _. (refl, refused.1))

module _ (c : Collector) (encoded : Option Bytes) (date : ℤ) (period : ℕ) (dry_run : Bool)
    (w : World) where
  -- Where a report of the period stands in the collected or in the uploaded directory, a Write
  -- without force returns an error and leaves the tree as it is, on any schedule of failing calls,
  -- if asking for the consent leaves the tree as it is.
  pub write_insights_refuses :
      ((v : World) → (c.consent c.source v).1.tree ≡ v.tree)
      → HasReportOf (report_date c date) period c.collected_dir w.tree
        ⊎ HasReportOf (report_date c date) period c.uploaded_dir w.tree
      → let (r, w') = write_insights c encoded date period false dry_run w in
        (is_ok r ≡ false) × (w'.tree ≡ w.tree)
  unfolding write_insights write_granted
  write_insights_refuses silent h =
      bind_elim (λ r w'. (is_ok r ≡ false) × (w'.tree ≡ w.tree)) (lift (or_plain encoded)) _ w
        (λ data' _.
          bind_elim (λ r w'. (is_ok r ≡ false) × (w'.tree ≡ w.tree)) (c.consent c.source) _ w
            (λ granted _.
              let (no_, same) =
                granted_refuses c data' (report_date c date) period dry_run granted
                  (c.consent c.source w).1
                  (subst
                    (λ x.
                      HasReportOf (report_date c date) period c.collected_dir x
                      ⊎ HasReportOf (report_date c date) period c.uploaded_dir x)
                    (sym (silent w)) h) in
              (no_, same ∙ silent w))
            (λ _ _. (refl, silent w)))
        (λ _ _. (refl, refl))
