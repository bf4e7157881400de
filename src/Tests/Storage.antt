-- ===== src/Tests/Storage.antt =====
-- The theorems on file names, reports and consent files at concrete values.
use ubuntu_insights.Base.{
  Bool, Bytes, [], arith, bytes_dec, codes, false, ite, list_dec, none, refl, some, sym, true,
  ℕ_discrete, ◌^◌, ◌∷◌, ◌≡◌, ◌≢◌,
}
use ubuntu_insights.Base.Decimal.{digits, format_int, format_ℕ, parse_int}
use ubuntu_insights.Base.Decimal.RoundTrip.{parse_int-format_int}
use ubuntu_insights.Base.Dict.{erase, insert, lookup}
use ubuntu_insights.Base.Int.{IsInt64, min_int64, negsuc, pos, ◌-ℤ◌, ◌<ℤ◌}
use ubuntu_insights.FileUtils.{
  atomic_write, fill_and_rename, remove_temp, write_file, write_file_with_perm,
}
use ubuntu_insights.FileUtils.Atomic.{OldOrNew, atomic_write-OldOrNew, temp_path}
use ubuntu_insights.FileUtils.Temp.{ne-temp_path}
use ubuntu_insights.Report.{Report, mark_as_processed, new_report, older, read_json, undo_processed}
use ubuntu_insights.Report.Moves.{IsMovable, mark_as_processed_err, marked}
use ubuntu_insights.Report.Names.{new_report-report_name, report_name}
use ubuntu_insights.Report.Sort.{older_wraps}
use ubuntu_insights.Report.Undo.{undo_processed-mark_as_processed}
use ubuntu_insights.System.Files.{
  chmod, close, create_temp, mkdir_all, node_at, read_dir, read_file, remove, rename, stat, syscall,
  temp_name, write,
}
use ubuntu_insights.System.World.{
  FilePath, Sentinel-discrete, Tree, dir, done, err, ok, path_dec, plain,
}
use ubuntu_insights.Tests.Setting.{report_10, reports_dir, two_reports, world_of}

IsInt64-small : IsInt64 (negsuc 41)
IsInt64-small = (omega arith, omega arith)

parse_int-format_int_example : parse_int (format_int (negsuc 41)) ≡ some (negsuc 41)
parse_int-format_int_example = parse_int-format_int (negsuc 41) IsInt64-small

new_report-report_name_example :
    new_report (report_name (pos 1700000000) ∷ reports_dir)
    ≡ ok (record {
      path = report_name (pos 1700000000) ∷ reports_dir;
      name = report_name (pos 1700000000);
      time_stamp = pos 1700000000;
      stash_path = [];
      stash_data = [];
    })
new_report-report_name_example =
    new_report-report_name (pos 1700000000) reports_dir (omega arith, omega arith)

-- Two reports 2^63 + 1 seconds apart.
abbrev early_report : Report
early_report = record report_10 { time_stamp = negsuc (2 ^ 62) }

abbrev late_report : Report
late_report = record report_10 { time_stamp = pos (2 ^ 62) }

far_apart : early_report.time_stamp -ℤ late_report.time_stamp <ℤ min_int64
unfolding ◌-ℤ◌
far_apart = omega arith

older_wraps_example :
    (early_report.time_stamp <ℤ late_report.time_stamp) × (older early_report late_report ≡ false)
older_wraps_example =
    older_wraps early_report late_report (omega arith, omega arith) (omega arith, omega arith)
      far_apart

abbrev other : FilePath
other = codes "20.json" ∷ reports_dir

other_no_temp : other ≢ temp_path (codes "10.json" ∷ reports_dir) (world_of two_reports)
other_no_temp =
    ne-temp_path (codes "20") (codes "json") b'.' reports_dir (world_of two_reports) (omega arith)

atomic_write-OldOrNew_example :
    OldOrNew
      (codes "10.json" ∷ reports_dir)
      (codes "new")
      other
      (world_of two_reports)
      (atomic_write (codes "10.json" ∷ reports_dir) (codes "new") 0 (world_of two_reports)).1
atomic_write-OldOrNew_example =
    atomic_write-OldOrNew (codes "10.json") reports_dir (codes "new") 0 (world_of two_reports) other
      other_no_temp

write_run :
    (atomic_write (codes "10.json" ∷ reports_dir) (codes "new") 0 (world_of two_reports)).0 ≡ done
unfolding atomic_write fill_and_rename remove_temp create_temp write close rename chmod remove
    node_at lookup insert erase path_dec bytes_dec temp_name format_ℕ digits Sentinel-discrete
write_run = refl

-- Moving the report 10 to a directory beside its own.
abbrev uploaded : FilePath
uploaded = codes "uploaded" ∷ []

abbrev with_uploaded : Tree
with_uploaded = (uploaded, dir) ∷ two_reports

abbrev accept : Bytes → Bool
accept b = true

tail_ne : (x y : Bytes) → x ∷ reports_dir ≢ y ∷ uploaded
tail_ne x y e = ground arith

movable : IsMovable uploaded report_10 (codes "10.json") reports_dir
movable = record {
  at = refl;
  elsewhere = tail_ne (codes "10.json") (codes "10.json");
  no_temp = λ w. tail_ne (codes "10.json") (temp_name (w.random w.draws));
  no_temp_back = λ w. ne-temp_path (codes "10") (codes "json") b'.' reports_dir w (omega arith);
  named = λ w. ne-temp_path (codes "10") (codes "json") b'.' uploaded w (omega arith);
  named_back = λ w e. tail_ne (temp_name (w.random w.draws)) (codes "10.json") (sym e);
}

-- No directory to move to: the first call after the read fails.
move_fails :
    (mark_as_processed accept uploaded (codes "p") report_10 (world_of two_reports)).0 ≡ err plain
unfolding mark_as_processed read_json write_file write_file_with_perm atomic_write fill_and_rename
    remove_temp create_temp write close rename chmod remove read_file stat read_dir mkdir_all
    node_at lookup insert erase path_dec bytes_dec list_dec ℕ_discrete temp_name format_ℕ digits
    Sentinel-discrete syscall
move_fails = refl

mark_as_processed_err_example :
    node_at
      (codes "10.json" ∷ reports_dir)
      (mark_as_processed accept uploaded (codes "p") report_10 (world_of two_reports)).1.tree
    ≡ node_at (codes "10.json" ∷ reports_dir) two_reports
mark_as_processed_err_example =
    mark_as_processed_err accept uploaded (codes "p") report_10 (codes "10.json") reports_dir
      movable (world_of two_reports) plain move_fails

abbrev moved_10 : Report
moved_10 = record report_10 {
  path = codes "10.json" ∷ uploaded;
  stash_path = codes "10.json" ∷ reports_dir;
  stash_data = codes "{}";
}

move_run :
    (mark_as_processed accept uploaded (codes "p") report_10 (world_of with_uploaded)).0
    ≡ ok moved_10
unfolding mark_as_processed read_json write_file write_file_with_perm atomic_write fill_and_rename
    remove_temp create_temp write close rename chmod remove read_file stat read_dir mkdir_all
    node_at lookup insert erase path_dec bytes_dec list_dec ℕ_discrete temp_name format_ℕ digits
    Sentinel-discrete syscall
move_run = refl

undo_run :
    (undo_processed moved_10
      (mark_as_processed accept uploaded (codes "p") report_10 (world_of with_uploaded)).1).0
    ≡ ok report_10
unfolding mark_as_processed undo_processed read_json write_file write_file_with_perm atomic_write
    fill_and_rename remove_temp create_temp write close rename chmod remove read_file stat read_dir
    mkdir_all node_at lookup insert erase path_dec bytes_dec list_dec ℕ_discrete temp_name format_ℕ
    digits Sentinel-discrete syscall
undo_run = refl

undo_processed-mark_as_processed_example :
    (report_10 ≡ record report_10 { stash_path = []; stash_data = [] })
    × (node_at other
          (undo_processed moved_10
            (mark_as_processed accept uploaded
              (codes "p")
              report_10
              (world_of with_uploaded)).1).1.tree
        ≡ ite (path_dec other (marked uploaded report_10)) none (node_at other with_uploaded))
undo_processed-mark_as_processed_example =
    undo_processed-mark_as_processed accept uploaded (codes "p") report_10 (codes "10.json")
      reports_dir movable other (world_of with_uploaded) moved_10 report_10 move_run undo_run
