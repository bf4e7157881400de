-- ===== src/Report.antt =====
-- insights/internal/report/report.go: report files, and the operations on directories of them.
-- JSON validity (package encoding/json) is the parameter `json_valid`.
pub mod Confined
pub mod Names
pub mod Window
pub mod Duplicates
pub mod Sort
pub mod Ranks
pub mod Removal
pub mod Cleanup
pub mod Moves
pub mod Undo
pub mod Trace
use ubuntu_insights.Base.{
  Bool, Bytes, List, Option, [], codes, ext, false, if◌then◌else◌, is_nil, leb, length, ltb, none,
  not, same_bytes, some, take, trim_suffix, true, ℕ, ◌++◌, ◌+◌, ◌-◌, ◌==◌, ◌^◌, ◌||◌, ◌∷◌,
}
use ubuntu_insights.Base.Decimal.{parse_int}
use ubuntu_insights.Base.Int.{ltb_ℤ, max_int64, min_int64, pos, wrap64, ℤ, ◌+ℤ◌, ◌-ℤ◌}
use ubuntu_insights.FileUtils.{write_file}
use ubuntu_insights.System.Files.{read_dir, read_file, remove, stat}
use ubuntu_insights.System.World.{
  FilePath, Io, Node, Result, attempt, dir, err, file, hiding, invalid_report_ext,
  invalid_report_name, ok, plain, pure, raise, ◌>>=◌, ◌>>◌,
}

-- The stash holds where the report came from and what it held; an empty path is no stash.
pub record Report : Type 0 where
  pub path : FilePath
  pub name : Bytes
  pub time_stamp : ℤ
  pub stash_path : FilePath
  pub stash_data : Bytes

abbrev pub report_ext : Bytes
report_ext = codes ".json"

-- filepath.Base
abbrev pub base : FilePath → Bytes
base [] = codes "."
base (n ∷ p) = n

abbrev named_time : Option ℤ → Result ℤ
named_time none = err (invalid_report_name ∷ [])
named_time (some t) = ok t

-- getReportTime
unfoldable pub report_time : Bytes → Result ℤ
report_time n = named_time (parse_int (trim_suffix n (ext n)))

abbrev dated : FilePath → Result ℤ → Result Report
dated p (err e) = err e
dated p (ok t) =
    ok (record { path = p; name = base p; time_stamp = t; stash_path = []; stash_data = [] })

-- New
unfoldable pub new_report : FilePath → Result Report
new_report p =
    if same_bytes (ext (base p)) report_ext
    then dated p (report_time (base p))
    else err (invalid_report_ext ∷ [])

module _ (json_valid : Bytes → Bool) where
  -- ReadJSON
  unfoldable pub read_json : Report → Io Bytes
  read_json r = do
    data' ← hiding (read_file r.path)
    if json_valid data' then pure data' else raise plain

  -- MarkAsProcessed
  unfoldable pub mark_as_processed : FilePath → Bytes → Report → Io Report
  mark_as_processed dest data' r = do
    orig ← hiding (read_json r)
    let moved : Report = record {
      path = r.name ∷ dest;
      name = r.name;
      time_stamp = r.time_stamp;
      stash_path = r.path;
      stash_data = orig;
    }
    hiding (write_file moved.path data')
    hiding (remove r.path)
    pure moved

-- UndoProcessed
unfoldable pub undo_processed : Report → Io Report
undo_processed r = if is_nil r.stash_path then raise plain else do
  hiding (write_file r.stash_path r.stash_data)
  hiding (remove r.path)
  pure (record r { path = r.stash_path; stash_path = []; stash_data = [] })

-- GetPeriodStart
unfoldable pub period_start : ℤ → ℕ → ℤ
unfolding wrap64 ◌+ℤ◌ ◌-ℤ◌
period_start t period =
    if period == 0
    then t
    else if ltb_ℤ t (wrap64 (min_int64 +ℤ pos period))
    then min_int64
    else wrap64 (t -ℤ pos period)

-- r.TimeStamp < periodStart || r.TimeStamp > periodEnd
abbrev pub outside : ℤ → ℤ → ℤ → Bool
outside from to t = ltb_ℤ t from || ltb_ℤ to t

abbrev windowed : ℤ → ℤ → Result Report → Option Report
windowed from to (err e) = none
windowed from to (ok r) = if outside from to r.time_stamp then none else some r

-- What the callback of walkReports makes of one entry: a directory, a file that is no report, and
-- a report outside the period are skipped.
unfoldable pub admit : ℤ → ℤ → FilePath × Node → Option Report
admit from to (p, dir) = none
admit from to (p, file b) = windowed from to (new_report p)

-- The walk over the entries, up to the early exit.
unfoldable pub collect_reports :
    ℤ → ℤ → (List Report → Bool) → List Report → List (FilePath × Node) → List Report
collect_reports from to exit acc [] = acc
collect_reports from to exit acc (e ∷ l) = elim (admit from to e) [
  | none ↦ collect_reports from to exit acc l
  | some r ↦
      let found' = acc ++ (r ∷ []) in
      elim (exit found') [ true ↦ found' | false ↦ collect_reports from to exit found' l ]
]

unfoldable pub under : FilePath → List (Bytes × Node) → List (FilePath × Node)
under d [] = []
under d ((n, a) ∷ l) = (n ∷ d, a) ∷ under d l

-- filepath.WalkDir with every subdirectory skipped: the root, then its entries in order of name.
abbrev pub walk_entries : FilePath → Node → Io (List (FilePath × Node))
walk_entries d (file b) = pure ((d, file b) ∷ [])
walk_entries d dir = do entries ← hiding (read_dir d); pure (under d entries)

-- walkReports
unfoldable pub walk_reports : ℤ → ℤ → (List Report → Bool) → FilePath → Io (List Report)
walk_reports from to exit d = do
  root ← hiding (stat d)
  entries ← walk_entries d root
  pure (collect_reports from to exit [] entries)

-- DuplicateExists
unfoldable pub duplicate_exists : FilePath → ℤ → ℕ → Io Bool
duplicate_exists d t period = do
  reports ← walk_reports (period_start t period) t (λ rs. not (is_nil rs)) d
  pure (not (is_nil reports))

-- GetAll
unfoldable pub get_all : FilePath → Io (List Report)
get_all d = walk_reports min_int64 max_int64 (λ rs. false) d

-- The loops that remove reports: a failure is logged and the loop goes on.
unfoldable pub remove_reports : List Report → Io (Unit {0})
remove_reports [] = pure tt
remove_reports (r ∷ rs) = do _ ← attempt (remove r.path); remove_reports rs

-- ClearPeriod
unfoldable pub clear_period : FilePath → ℤ → ℕ → Bool → Io (Unit {0})
clear_period d t period dry_run = do
  reports ← walk_reports (period_start t period) t (λ rs. leb (period + 1) (length rs)) d
  if dry_run then pure tt else remove_reports reports

-- int(i.TimeStamp - j.TimeStamp) < 0: the difference is an int64
unfoldable pub older : Report → Report → Bool
unfolding wrap64 ◌-ℤ◌
older i j = ltb_ℤ (wrap64 (i.time_stamp -ℤ j.time_stamp)) (pos 0)

unfoldable pub insert_report : Report → List Report → List Report
insert_report r [] = r ∷ []
insert_report r (s ∷ l) = let rest = insert_report r l in if older s r then s ∷ rest else r ∷ s ∷ l

-- slices.SortStableFunc by that comparison
unfoldable pub sort_reports : List Report → List Report
sort_reports [] = []
sort_reports (r ∷ l) = insert_report r (sort_reports l)

-- The end of Cleanup: with few reports nothing, else the oldest are removed.
unfoldable pub remove_surplus : ℕ → List Report → Io (Unit {0})
remove_surplus max_reports reports =
    if leb (length reports) max_reports
    then pure tt
    else remove_reports (take (length reports - max_reports) (sort_reports reports))

-- maxReports > math.MaxInt32
unfoldable pub too_many : ℕ → Bool
too_many max_reports = ltb (2 ^ 31 - 1) max_reports

-- Cleanup: more than MaxInt32 reports cannot be kept.
unfoldable pub cleanup : FilePath → ℕ → Io (Unit {0})
cleanup d max_reports =
    if too_many max_reports then raise plain else (get_all d >>= remove_surplus max_reports)
