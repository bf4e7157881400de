-- ===== src/Report/Sort.antt =====
-- The order in which Cleanup sorts reports. The difference of two time stamps does not wrap when
-- neither is negative, and the order is then that of the time stamps.
use ubuntu_insights.Base.{
  All, Bool-cases, Has, List, [], arith, drop, false, inl, inr, length, refl, suc, take, true, zero,
  ℕ, ◌∷◌, ◌≡◌,
}
use ubuntu_insights.Base.Int.{
  IsInt64, ltb_ℤ, max_int64, min_int64, negsuc, pos, wrap64, ℤ, ◌-ℤ◌, ◌<ℤ◌, ◌≤ℤ◌,
}
use ubuntu_insights.Report.{Report, insert_report, older, sort_reports}

-- A time stamp from 1970 on, as the name of a report.
abbrev pub IsEpoch : Report → Type 0
IsEpoch r = (pos 0 ≤ℤ r.time_stamp) × (r.time_stamp ≤ℤ max_int64)

abbrev pub NotAfter : Report → Report → Type 0
NotAfter r s = r.time_stamp ≤ℤ s.time_stamp

older-true : (i j : Report) → IsEpoch i → IsEpoch j → older i j ≡ true → NotAfter i j
unfolding older
older-true i j hi hj h = older_ts i.time_stamp j.time_stamp hi hj h
  where
    older_ts :
        (a b : ℤ)
        → (pos 0 ≤ℤ a) × (a ≤ℤ max_int64)
        → (pos 0 ≤ℤ b) × (b ≤ℤ max_int64)
        → ltb_ℤ (wrap64 (a -ℤ b)) (pos 0) ≡ true
        → a ≤ℤ b
    older_ts (pos a) (pos b) ha hb e = ground arith
    older_ts (negsuc a) b ha hb e = absurd (omega arith)
    older_ts (pos a) (negsuc b) ha hb e = absurd (omega arith)

older-false : (i j : Report) → IsEpoch i → IsEpoch j → older i j ≡ false → NotAfter j i
unfolding older
older-false i j hi hj h = older_ts i.time_stamp j.time_stamp hi hj h
  where
    older_ts :
        (a b : ℤ)
        → (pos 0 ≤ℤ a) × (a ≤ℤ max_int64)
        → (pos 0 ≤ℤ b) × (b ≤ℤ max_int64)
        → ltb_ℤ (wrap64 (a -ℤ b)) (pos 0) ≡ false
        → b ≤ℤ a
    older_ts (pos a) (pos b) ha hb e = ground arith
    older_ts (negsuc a) b ha hb e = absurd (omega arith)
    older_ts (pos a) (negsuc b) ha hb e = absurd (omega arith)

-- Where two int64 time stamps lie more than 2^63 apart, the comparison of Cleanup is the wrong way
-- round: the earlier report does not count as older.
pub older_wraps :
    (i j : Report)
    → IsInt64 i.time_stamp
    → IsInt64 j.time_stamp
    → i.time_stamp -ℤ j.time_stamp <ℤ min_int64
    → (i.time_stamp <ℤ j.time_stamp) × (older i j ≡ false)
unfolding older
older_wraps i j hi hj h = wraps i.time_stamp j.time_stamp hi hj h
  where
    wraps :
        (a b : ℤ)
        → IsInt64 a
        → IsInt64 b
        → a -ℤ b <ℤ min_int64
        → (a <ℤ b) × (ltb_ℤ (wrap64 (a -ℤ b)) (pos 0) ≡ false)
    wraps (pos a) (pos b) ha hb e = ground arith
    wraps (pos a) (negsuc b) ha hb e = ground arith
    wraps (negsuc a) (pos b) ha hb e = ground arith
    wraps (negsuc a) (negsuc b) ha hb e = ground arith

abbrev pub IsSorted : List Report → Type 0
IsSorted [] = Unit
IsSorted (r ∷ l) = All (NotAfter r) l × IsSorted l

All-trans :
    (r s : Report) (l : List Report) → NotAfter r s → All (NotAfter s) l → All (NotAfter r) l
All-trans r s [] h a = tt
All-trans r s (x ∷ l) h a = (omega arith, All-trans r s l h a.1)

All-insert_report :
    (P : Report → Type 0) (r : Report) (l : List Report) → P r → All P l → All P (insert_report r l)
unfolding insert_report
All-insert_report P r [] p h = (p, tt)
All-insert_report P r (s ∷ l) p h = elim (Bool-cases (older s r)) [
  | inl y ↦ rw y (h.0, All-insert_report P r l p h.1)
  | inr n ↦ rw n (p, h)
]

insert_report-IsSorted :
    (r : Report) (l : List Report)
    → IsEpoch r
    → All IsEpoch l
    → IsSorted l
    → IsSorted (insert_report r l)
unfolding insert_report
insert_report-IsSorted r [] e es h = (tt, tt)
insert_report-IsSorted r (s ∷ l) e es h = elim (Bool-cases (older s r)) [
  | inl y ↦ rw y (
    All-insert_report (NotAfter s) r l (older-true s r es.0 e y) h.0,
    insert_report-IsSorted r l e es.1 h.1,
  )
  | inr n ↦ let le = older-false s r es.0 e n in rw n ((le, All-trans r s l le h.0), h)
]

pub All-sort_reports : (P : Report → Type 0) (l : List Report) → All P l → All P (sort_reports l)
unfolding sort_reports
All-sort_reports P [] h = tt
All-sort_reports P (r ∷ l) h = All-insert_report P r _ h.0 (All-sort_reports P l h.1)

pub sort_reports-IsSorted : (l : List Report) → All IsEpoch l → IsSorted (sort_reports l)
unfolding sort_reports
sort_reports-IsSorted [] h = tt
sort_reports-IsSorted (r ∷ l) h =
    insert_report-IsSorted r _ h.0 (All-sort_reports IsEpoch l h.1) (sort_reports-IsSorted l h.1)

length-insert_report : (r : Report) (l : List Report) → length (insert_report r l) ≡ suc (length l)
unfolding insert_report
length-insert_report r [] = refl
length-insert_report r (s ∷ l) = ground (arith, length-insert_report r l)

pub length-sort_reports : (l : List Report) → length (sort_reports l) ≡ length l
unfolding sort_reports
length-sort_reports [] = refl
length-sort_reports (r ∷ l) =
    omega (arith, length-insert_report r (sort_reports l), length-sort_reports l)

All-drop : (P : Report → Type 0) (k : ℕ) (l : List Report) → All P l → All P (drop k l)
All-drop P zero l h = h
All-drop P (suc k) [] h = tt
All-drop P (suc k) (r ∷ l) h = All-drop P k l h.1

-- In a sorted list what is taken is not after what is left.
pub IsSorted-take-drop :
    (k : ℕ) (l : List Report) (r : Report)
    → IsSorted l
    → Has r (take k l)
    → All (NotAfter r) (drop k l)
IsSorted-take-drop zero l r h m = absurd m
IsSorted-take-drop (suc k) [] r h m = absurd m
IsSorted-take-drop (suc k) (s ∷ l) r h (inl e) = rw e (All-drop (NotAfter s) k l h.0)
IsSorted-take-drop (suc k) (s ∷ l) r h (inr m) = IsSorted-take-drop k l r h.1 m
