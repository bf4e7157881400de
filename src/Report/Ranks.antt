-- ===== src/Report/Ranks.antt =====
-- How many reports are dated later than one that Cleanup removes, and than one that it keeps.
use ubuntu_insights.Base.{
  All, All-Has, Bool, Bool-cases, Has, List, [], arith, drop, false, if◌then◌else◌, inl, inr,
  length, length-drop, not, refl, suc, take, true, zero, ℕ, ◌+◌, ◌-◌, ◌<◌, ◌∷◌, ◌≡◌, ◌≤◌, ◌⊎◌,
}
use ubuntu_insights.Base.Int.{ltb_ℤ, ℤ}
use ubuntu_insights.Report.{Report, insert_report, older, sort_reports}
use ubuntu_insights.Report.Sort.{
  All-sort_reports, IsEpoch, IsSorted-take-drop, NotAfter, length-sort_reports,
  sort_reports-IsSorted,
}

-- The number of the reports that pass a test.
unfoldable pub count : (Report → Bool) → List Report → ℕ
count p [] = 0
count p (r ∷ l) = (if p r then 1 else 0) + count p l

-- The numbers of the reports that are dated `t` or later, and later than `t`.
abbrev pub count_from : ℤ → List Report → ℕ
count_from t = count (λ r. not (ltb_ℤ r.time_stamp t))

abbrev pub count_after : ℤ → List Report → ℕ
count_after t = count (λ r. ltb_ℤ t r.time_stamp)

module _ (p : Report → Bool) where
  count-insert_report :
      (r : Report) (l : List Report) → count p (insert_report r l) ≡ count p (r ∷ l)
  unfolding count insert_report
  count-insert_report r [] = refl
  count-insert_report r (s ∷ l) = elim (Bool-cases (older s r)) [
    | inl y ↦ rw y (omega (arith, count-insert_report r l))
    | inr n ↦ rw n refl
  ]

  count-sort_reports : (l : List Report) → count p (sort_reports l) ≡ count p l
  unfolding count sort_reports
  count-sort_reports [] = refl
  count-sort_reports (r ∷ l) =
      omega (arith, count-insert_report r (sort_reports l), count-sort_reports l)

  count-take-drop : (k : ℕ) (l : List Report) → count p (take k l) + count p (drop k l) ≡ count p l
  unfolding count
  count-take-drop zero l = omega arith
  count-take-drop (suc k) [] = refl
  count-take-drop (suc k) (r ∷ l) = omega (arith, count-take-drop k l)

  count-All : (l : List Report) → All (λ r. p r ≡ true) l → count p l ≡ length l
  unfolding count
  count-All [] h = refl
  count-All (r ∷ l) h = rw h.0 (omega (arith, count-All l h.1))

  count-none : (l : List Report) → All (λ r. p r ≡ false) l → count p l ≡ 0
  unfolding count
  count-none [] h = refl
  count-none (r ∷ l) h = rw h.0 (omega (arith, count-none l h.1))

  count_le : (l : List Report) → count p l ≤ length l
  unfolding count
  count_le [] = omega arith
  count_le (r ∷ l) = ground (arith, count_le l)

  count_pos : (r : Report) (l : List Report) → Has r l → p r ≡ true → 0 < count p l
  unfolding count
  count_pos r [] h e = absurd h
  count_pos r (s ∷ l) (inl same) e = rw (← same) (rw e (omega arith))
  count_pos r (s ∷ l) (inr m) e = omega (arith, count_pos r l m e)

  count_lt : (r : Report) (l : List Report) → Has r l → p r ≡ false → count p l < length l
  unfolding count
  count_lt r [] h e = absurd h
  count_lt r (s ∷ l) (inl same) e = rw (← same) (rw e (omega (arith, count_le l)))
  count_lt r (s ∷ l) (inr m) e = ground (arith, count_lt r l m e)

All-map : (P Q : Report → Type 0) (l : List Report) → ((r : Report) → P r → Q r) → All P l → All Q l
All-map P Q [] f h = tt
All-map P Q (r ∷ l) f h = (f r h.0, All-map P Q l f h.1)

All-of_Has : (P : Report → Type 0) (l : List Report) → ((r : Report) → Has r l → P r) → All P l
All-of_Has P [] f = tt
All-of_Has P (r ∷ l) f = (f r (inl refl), All-of_Has P l (λ s m. f s (inr m)))

Has-take : (k : ℕ) (r : Report) (l : List Report) → Has r (take k l) → Has r l
Has-take zero r l h = absurd h
Has-take (suc k) r [] h = absurd h
Has-take (suc k) r (s ∷ l) (inl e) = inl e
Has-take (suc k) r (s ∷ l) (inr m) = inr (Has-take k r l m)

take_or_drop :
    (k : ℕ) (r : Report) (l : List Report) → Has r l → Has r (take k l) ⊎ Has r (drop k l)
take_or_drop zero r l h = inr h
take_or_drop (suc k) r [] h = absurd h
take_or_drop (suc k) r (s ∷ l) (inl e) = inl (inl e)
take_or_drop (suc k) r (s ∷ l) (inr m) = elim (take_or_drop k r l m) [
  | inl x ↦ inl (inr x)
  | inr x ↦ inr x
]

pub sort_reports-Has : (r : Report) (l : List Report) → Has r (sort_reports l) → Has r l
sort_reports-Has r l =
    All-Has (λ s. Has s l) (sort_reports l) r
      (All-sort_reports (λ s. Has s l) l (All-of_Has (λ s. Has s l) l (λ s m. m)))

skip_second :
    (r s x : Report) (l l' : List Report)
    → (Has r (s ∷ l) → Has r l')
    → Has r (s ∷ x ∷ l)
    → Has r (x ∷ l')
skip_second r s x l l' f (inl e) = inr (f (inl e))
skip_second r s x l l' f (inr (inl e)) = inl e
skip_second r s x l l' f (inr (inr m)) = inr (f (inr m))

insert_report-Has : (r s : Report) (l : List Report) → Has r (s ∷ l) → Has r (insert_report s l)
unfolding insert_report
insert_report-Has r s [] h = h
insert_report-Has r s (x ∷ l) h = elim (Bool-cases (older x s)) [
  | inl y ↦ rw y (skip_second r s x l _ (insert_report-Has r s l) h)
  | inr n ↦ rw n h
]

Has-sort_reports : (r : Report) (l : List Report) → Has r l → Has r (sort_reports l)
unfolding sort_reports
Has-sort_reports r [] h = absurd h
Has-sort_reports r (s ∷ l) (inl e) = insert_report-Has r s (sort_reports l) (inl e)
Has-sort_reports r (s ∷ l) (inr m) =
    insert_report-Has r s (sort_reports l) (inr (Has-sort_reports r l m))

-- The reports that Cleanup removes when there are too many, and those that it keeps.
abbrev pub surplus : ℕ → List Report → List Report
surplus max_reports rs = take (length rs - max_reports) (sort_reports rs)

abbrev pub kept : ℕ → List Report → List Report
kept max_reports rs = drop (length rs - max_reports) (sort_reports rs)

pub surplus-Has : (k : ℕ) (r : Report) (rs : List Report) → Has r (surplus k rs) → Has r rs
surplus-Has k r rs m = sort_reports-Has r rs (Has-take (length rs - k) r (sort_reports rs) m)

pub some_taken : (k : ℕ) (l : List Report) (s : Report) → Has s (take k l) → 0 < k
some_taken zero l s h = absurd h
some_taken (suc k) l s h = omega arith

-- More reports than the limit are as late as one of the surplus.
pub surplus-count_from :
    (k : ℕ) (r : Report) (rs : List Report)
    → All IsEpoch rs
    → Has r (surplus k rs)
    → k < count_from r.time_stamp rs
surplus-count_from k r rs epoch m =
    let p : Report → Bool = λ s. not (ltb_ℤ s.time_stamp r.time_stamp) in
    let n = length rs - k in
    let l = sort_reports rs in
    let later =
      All-map (NotAfter r) (λ s. p s ≡ true) (drop n l) (λ s h. ground arith)
        (IsSorted-take-drop n l r (sort_reports-IsSorted rs epoch) m) in
    omega (
      arith,
      count-sort_reports p rs,
      count-take-drop p n l,
      count_pos p r (take n l) m (ground arith),
      count-All p (drop n l) later,
      length-drop n l,
      length-sort_reports rs,
      some_taken n l r m,
    )

-- Fewer reports than the limit are later than one that is kept.
pub count_after-kept :
    (k : ℕ) (r : Report) (rs : List Report)
    → All IsEpoch rs
    → Has r (kept k rs)
    → count_after r.time_stamp rs < k
count_after-kept k r rs epoch m =
    let p : Report → Bool = λ s. ltb_ℤ r.time_stamp s.time_stamp in
    let n = length rs - k in
    let l = sort_reports rs in
    let earlier =
      All-of_Has (λ s. p s ≡ false) (take n l)
        (λ s taken.
          let le : NotAfter s r =
            All-Has (NotAfter s) (drop n l) r
              (IsSorted-take-drop n l s (sort_reports-IsSorted rs epoch) taken) m in
          ground arith) in
    omega (
      arith,
      count-sort_reports p rs,
      count-take-drop p n l,
      count_lt p r (drop n l) m (ground arith),
      count-none p (take n l) earlier,
      length-drop n l,
      length-sort_reports rs,
    )

pub surplus_or_kept :
    (k : ℕ) (r : Report) (rs : List Report) → Has r rs → Has r (surplus k rs) ⊎ Has r (kept k rs)
surplus_or_kept k r rs m =
    take_or_drop (length rs - k) r (sort_reports rs) (Has-sort_reports r rs m)
