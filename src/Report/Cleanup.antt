-- ===== src/Report/Cleanup.antt =====
-- What Cleanup removes.
use ubuntu_insights.Base.{
  All, All-Has, Bool-cases, Bytes, Has, List, [], ap, arith, false, inl, inr, leb, leb→le, length,
  ltb, none, refl, some, suc, sym, ℕ, ◌-◌, ◌<◌, ◌^◌, ◌∙◌, ◌∷◌, ◌≡◌, ◌≤◌, ◌⊎◌,
}
use ubuntu_insights.Base.Int.{IsInt64, max_int64, min_int64, negsuc, pos, ℤ, ◌<ℤ◌, ◌≤ℤ◌}
use ubuntu_insights.Report.{
  Report, admit, cleanup, get_all, new_report, remove_reports, remove_surplus, sort_reports,
  too_many, walk_reports,
}
use ubuntu_insights.Report.Duplicates.{node_at-visited, visited, walk_reports_ok, walk_reports_tree}
use ubuntu_insights.Report.Ranks.{
  count_after, count_from, count_after-kept, some_taken, surplus, surplus-Has, surplus-count_from,
  surplus_or_kept,
}
use ubuntu_insights.Report.Removal.{OnlyRemoves, remove_reports_calm, remove_reports_tree}
use ubuntu_insights.Report.Sort.{IsEpoch}
use ubuntu_insights.Report.Window.{All-admitted, admitted, collect_reports_all}
use ubuntu_insights.System.Calm.{IsCalm, IsCalm-of_fault}
use ubuntu_insights.System.Files.{node_at, read_dir, stat}
use ubuntu_insights.System.Files.Entries.{HasUniquePaths}
use ubuntu_insights.System.Steps.{bind_elim}
use ubuntu_insights.System.World.{FilePath, Node, Tree, World, dir, file, ok}

-- The reports that lie in `d`.
abbrev pub all_reports : FilePath → Tree → List Report
all_reports d t = admitted min_int64 max_int64 (visited d t)

admit-IsInt64 :
    (x : FilePath × Node) (r : Report) → admit min_int64 max_int64 x ≡ some r → IsInt64 r.time_stamp
unfolding admit
admit-IsInt64 (p, dir) r h = absurd (ground arith)
admit-IsInt64 (p, file b) r h = ground arith

dated_cases : (t : ℤ) → (pos 0 ≤ℤ t) ⊎ (t <ℤ pos 0)
dated_cases (pos n) = inl (omega arith)
dated_cases (negsuc n) = inr (omega arith)

module _ (d : FilePath) (max_reports : ℕ) (w : World) where
  abbrev oldest : List Report
  oldest = surplus max_reports (all_reports d w.tree)

  abbrev after : World
  after = (cleanup d max_reports w).1

  get_all_ok :
      (rs : List Report)
      → node_at d w.tree ≡ some dir
      → (get_all d w).0 ≡ ok rs
      → rs ≡ all_reports d w.tree
  unfolding get_all
  get_all_ok rs at h =
      walk_reports_ok min_int64 max_int64 (λ rs. false) d w rs at h
      ∙ collect_reports_all min_int64 max_int64 [] (visited d w.tree)

  OnlyRemoves-from :
      (rs : List Report) (n : Bytes) (e : FilePath) (w1 w2 : World)
      → w1.tree ≡ w.tree
      → OnlyRemoves rs n e w1 w2
      → OnlyRemoves rs n e w w2
  OnlyRemoves-from rs n e w1 w2 same (inl h) = inl (h ∙ ap (node_at (n ∷ e)) same)
  OnlyRemoves-from rs n e w1 w2 same (inr h) = inr h

  remove_surplus_removes :
      (n : Bytes) (e : FilePath) (w1 : World)
      → w1.tree ≡ w.tree
      → OnlyRemoves oldest n e w (remove_surplus max_reports (all_reports d w.tree) w1).1
  unfolding remove_surplus
  remove_surplus_removes n e w1 same =
      elim (Bool-cases (leb (length (all_reports d w.tree)) max_reports)) [
        | inl few ↦ rw few (inl (ap (node_at (n ∷ e)) same))
        | inr many ↦ rw many (
            OnlyRemoves-from oldest n e w1 (remove_reports oldest w1).1 same
              (remove_reports_tree oldest w1 n e))
      ]

  get_all_tree : (get_all d w).1.tree ≡ w.tree
  unfolding get_all
  get_all_tree = walk_reports_tree min_int64 max_int64 (λ rs. false) d w

  cleanup-OnlyRemoves :
      (n : Bytes) (e : FilePath) → node_at d w.tree ≡ some dir → OnlyRemoves oldest n e w after
  unfolding cleanup
  cleanup-OnlyRemoves n e at = elim (Bool-cases (too_many max_reports)) [
    | inl big ↦ rw (big, after) (inl refl)
    | inr fits ↦
        rw (fits, after)
          (bind_elim (λ _ w'. OnlyRemoves oldest n e w w') (get_all d) (remove_surplus max_reports)
            w
            (λ rs eq.
              rw (get_all_ok rs at eq) (remove_surplus_removes n e (get_all d w).1 get_all_tree))
            (λ f _. inl (ap (node_at (n ∷ e)) get_all_tree)))
  ]

  -- On any schedule of failing calls, in a directory whose reports are dated from 1970 on: Cleanup
  -- changes a path only by removing a report of the directory, and only one with which more reports
  -- of the directory than the limit allows, it among them, are dated at its time or later.
  pub cleanup_removes :
      (n : Bytes) (e : FilePath)
      → node_at d w.tree ≡ some dir
      → All IsEpoch (all_reports d w.tree)
      → (node_at (n ∷ e) after.tree ≡ node_at (n ∷ e) w.tree)
        ⊎ ((r : Report) × Has r (all_reports d w.tree)
            × (r.path ≡ n ∷ e)
            × (max_reports < count_from r.time_stamp (all_reports d w.tree))
            × (node_at (n ∷ e) after.tree ≡ none))
  cleanup_removes n e at epoch = elim (cleanup-OnlyRemoves n e at) [
    | inl same ↦ inl same
    | inr (r, m, p, gone) ↦
        let rs = all_reports d w.tree in
        inr
          (r, surplus-Has max_reports r rs m, p, surplus-count_from max_reports r rs epoch m, gone)
  ]

  -- A report at `p` that is gone because more reports than the limit allows are dated at its time or
  -- later, or one report of the directory is dated before 1970.
  abbrev pub WasSurplus : FilePath → Type 0
  WasSurplus p =
      (r : Report) × Has r (all_reports d w.tree)
      × (r.path ≡ p)
      × ((max_reports < count_from r.time_stamp (all_reports d w.tree))
          ⊎ ((s : Report) × Has s (all_reports d w.tree) × (s.time_stamp <ℤ pos 0)))

  all_reports-IsInt64 : All (λ r. IsInt64 r.time_stamp) (all_reports d w.tree)
  all_reports-IsInt64 =
      All-admitted min_int64 max_int64 (λ r. IsInt64 r.time_stamp) (visited d w.tree)
        (λ x r m h. admit-IsInt64 x r h)

  IsEpoch-or_early :
      (l : List Report)
      → All (λ r. IsInt64 r.time_stamp) l
      → All IsEpoch l ⊎ ((s : Report) × Has s l × (s.time_stamp <ℤ pos 0))
  IsEpoch-or_early [] h = inl tt
  IsEpoch-or_early (r ∷ l) h = elim (dated_cases r.time_stamp) [
    | inr early ↦ inr (r, inl refl, early)
    | inl from_1970 ↦ elim (IsEpoch-or_early l h.1) [
      | inl all ↦ inl ((from_1970, h.0.1), all)
      | inr (s, m, early) ↦ inr (s, inr m, early)
    ]
  ]

  pub cleanup_surplus :
      (n : Bytes) (e : FilePath)
      → node_at d w.tree ≡ some dir
      → (node_at (n ∷ e) after.tree ≡ node_at (n ∷ e) w.tree)
        ⊎ ((node_at (n ∷ e) after.tree ≡ none) × WasSurplus (n ∷ e))
  cleanup_surplus n e at = elim (cleanup-OnlyRemoves n e at) [
    | inl same ↦ inl same
    | inr (r, m, p, gone) ↦
        let rs = all_reports d w.tree in
        let has = surplus-Has max_reports r rs m in
        elim (IsEpoch-or_early rs all_reports-IsInt64) [
          | inl epoch ↦ inr (gone, (r, has, p, inl (surplus-count_from max_reports r rs epoch m)))
          | inr early ↦ inr (gone, (r, has, p, inr early))
        ]
  ]

  get_all_calm :
      IsCalm w → node_at d w.tree ≡ some dir → (get_all d w).0 ≡ ok (all_reports d w.tree)
  unfolding get_all walk_reports stat read_dir IsCalm
  get_all_calm calm at =
      rw (← collect_reports_all min_int64 max_int64 [] (visited d w.tree))
        (ground (arith, calm w.calls, calm (suc w.calls)))

  get_all_fault : (get_all d w).1.fault ≡ w.fault
  unfolding get_all walk_reports stat read_dir
  get_all_fault = ground arith

  -- The file that a report was made of.
  abbrev IsFound : Report → Type 0
  IsFound r =
      (n : Bytes) × (e : FilePath) × (b : Bytes) × (r.path ≡ n ∷ e)
      × (node_at (n ∷ e) w.tree ≡ some (file b))

  admit-IsFound :
      (x : FilePath × Node) (r : Report)
      → HasUniquePaths w.tree
      → Has x (visited d w.tree)
      → admit min_int64 max_int64 x ≡ some r
      → IsFound r
  unfolding admit new_report
  admit-IsFound (p, dir) r u m h = absurd (ground arith)
  admit-IsFound (p, file b) r u m h =
      let (n, e, at) = node_at-visited d p (file b) w.tree u m in
      let same : r.path ≡ p = ground arith in
      (n, d, b, same ∙ e, ap (λ q. node_at q w.tree) (sym e) ∙ at)

  all_reports-IsFound :
      (r : Report) → HasUniquePaths w.tree → Has r (all_reports d w.tree) → IsFound r
  all_reports-IsFound r u =
      All-Has IsFound (all_reports d w.tree) r
        (All-admitted min_int64 max_int64 IsFound (visited d w.tree) (λ x s. admit-IsFound x s u))

  remove_surplus_calm :
      (r : Report) (n b : Bytes) (e : FilePath) (w1 : World)
      → IsCalm w1
      → node_at (n ∷ e) w1.tree ≡ some (file b)
      → Has r oldest
      → r.path ≡ n ∷ e
      → node_at (n ∷ e) (remove_surplus max_reports (all_reports d w.tree) w1).1.tree ≡ none
  unfolding remove_surplus
  remove_surplus_calm r n b e w1 calm at m p =
      let rs = all_reports d w.tree in
      elim (Bool-cases (leb (length rs) max_reports)) [
        | inl few ↦ absurd (
            omega
              (arith, leb→le _ _ few, some_taken (length rs - max_reports) (sort_reports rs) r m))
        | inr many ↦ rw many (remove_reports_calm oldest w1 n e b r calm (inl at) m p)
      ]

  -- When no call fails and the limit is an int32, in a directory whose reports are dated from 1970
  -- on (in a tree that lists no path twice): Cleanup removes every report of the directory that is
  -- dated before as many reports of the directory as the limit says, or more.
  pub cleanup_removes_old :
      (r : Report)
      → IsCalm w
      → HasUniquePaths w.tree
      → node_at d w.tree ≡ some dir
      → max_reports < 2 ^ 31
      → All IsEpoch (all_reports d w.tree)
      → Has r (all_reports d w.tree)
      → max_reports ≤ count_after r.time_stamp (all_reports d w.tree)
      → node_at r.path after.tree ≡ none
  unfolding cleanup too_many
  cleanup_removes_old r calm u at fits epoch m later =
      let rs = all_reports d w.tree in
      let (n, e, b, p, held) = all_reports-IsFound r u m in
      let w1 = (get_all d w).1 in
      let small : ltb (2 ^ 31 - 1) max_reports ≡ false = ground arith in
      let gone : node_at (n ∷ e) (remove_surplus max_reports rs w1).1.tree ≡ none =
        elim (surplus_or_kept max_reports r rs m) [
          | inl old ↦
              remove_surplus_calm r n b e w1 (IsCalm-of_fault w w1 get_all_fault calm)
                (ap (node_at (n ∷ e)) get_all_tree ∙ held) old p
          | inr young ↦ absurd (omega (arith, count_after-kept max_reports r rs epoch young))
        ] in
      rw p (
        rw (small, after)
          (bind_elim (λ _ w'. node_at (n ∷ e) w'.tree ≡ none) (get_all d)
            (remove_surplus max_reports) w (λ rs' eq. rw (get_all_ok rs' at eq) gone)
            (λ f h. absurd (ground (arith, get_all_calm calm at, h)))))
