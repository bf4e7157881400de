-- ===== src/Tests/Reports.antt =====
-- The theorems on directories of reports, at a directory of two reports.
use ubuntu_insights.Base.{
  All, Has, arith, bytes_dec, codes, ext, inl, list_dec, none, refl, some, trim_suffix, true,
  ℕ_discrete, ◌<◌, ◌↔◌, ◌∷◌, ◌≡◌, ◌≤◌, ◌⊎◌,
}
use ubuntu_insights.Base.Decimal.{digits, format_ℕ, parse_digits, parse_int, scan}
use ubuntu_insights.Base.Dict.{erase, insert, lookup}
use ubuntu_insights.Base.Int.{pos, wrap64, ◌+ℤ◌, ◌-ℤ◌}
use ubuntu_insights.FileUtils.{
  atomic_write, fill_and_rename, remove_temp, write_file, write_file_with_perm,
}
use ubuntu_insights.Report.{
  Report, admit, cleanup, collect_reports, duplicate_exists, insert_report, new_report, older,
  period_start, report_time, sort_reports, under, walk_reports,
}
use ubuntu_insights.Report.Cleanup.{all_reports, cleanup_removes, cleanup_removes_old}
use ubuntu_insights.Report.Duplicates.{InPeriod, duplicate_exists_iff}
use ubuntu_insights.Report.Ranks.{count, count_after, count_from}
use ubuntu_insights.Report.Sort.{IsEpoch}
use ubuntu_insights.Report.Window.{admitted}
use ubuntu_insights.System.Files.{
  bytes_before, chmod, close, create_temp, entries_of, insert_entry, mkdir_all, node_at, read_dir,
  read_file, remove, rename, sort_entries, stat, syscall, temp_name, write,
}
use ubuntu_insights.System.Files.Entries.{HasUniquePaths}
use ubuntu_insights.System.World.{Sentinel-discrete, World, dir, ok, path_dec}
use ubuntu_insights.Tests.Setting.{report_10, reports_dir, two_reports, world_of, world_of-IsCalm}

abbrev two : World
two = world_of two_reports

at_dir : node_at reports_dir two_reports ≡ some dir
unfolding write_file write_file_with_perm atomic_write fill_and_rename remove_temp create_temp write
    close rename chmod remove read_file stat read_dir mkdir_all node_at lookup insert erase path_dec
    bytes_dec list_dec ℕ_discrete temp_name format_ℕ digits Sentinel-discrete syscall
at_dir = refl

both-IsEpoch : All IsEpoch (all_reports reports_dir two_reports)
unfolding under admitted admit new_report report_time parse_int parse_digits scan entries_of
    sort_entries insert_entry bytes_before trim_suffix ext write_file write_file_with_perm
    atomic_write fill_and_rename remove_temp create_temp write close rename chmod remove read_file
    stat read_dir mkdir_all node_at lookup insert erase path_dec bytes_dec list_dec ℕ_discrete
    temp_name format_ℕ digits Sentinel-discrete syscall
both-IsEpoch = ((omega arith, omega arith), ((omega arith, omega arith), tt))

found_10 : Has report_10 (all_reports reports_dir two_reports)
unfolding under admitted admit new_report report_time parse_int parse_digits scan entries_of
    sort_entries insert_entry bytes_before trim_suffix ext sort_reports insert_report older wrap64
    ◌-ℤ◌ ◌+ℤ◌ write_file write_file_with_perm atomic_write fill_and_rename remove_temp create_temp
    write close rename chmod remove read_file stat read_dir mkdir_all node_at lookup insert erase
    path_dec bytes_dec list_dec ℕ_discrete temp_name format_ℕ digits Sentinel-discrete syscall
found_10 = inl refl

one_later : 1 ≤ count_after report_10.time_stamp (all_reports reports_dir two_reports)
unfolding count under admitted admit new_report report_time parse_int parse_digits scan entries_of
    sort_entries insert_entry bytes_before trim_suffix ext sort_reports insert_report older wrap64
    ◌-ℤ◌ ◌+ℤ◌ write_file write_file_with_perm atomic_write fill_and_rename remove_temp create_temp
    write close rename chmod remove read_file stat read_dir mkdir_all node_at lookup insert erase
    path_dec bytes_dec list_dec ℕ_discrete temp_name format_ℕ digits Sentinel-discrete syscall
one_later = omega arith

-- One report may stay: 10.json is removed.
cleanup_removes_example :
    (node_at (codes "10.json" ∷ reports_dir) (cleanup reports_dir 1 two).1.tree
      ≡ node_at (codes "10.json" ∷ reports_dir) two_reports)
    ⊎ ((r : Report) × Has r (all_reports reports_dir two_reports)
        × (r.path ≡ codes "10.json" ∷ reports_dir)
        × (1 < count_from r.time_stamp (all_reports reports_dir two_reports))
        × (node_at (codes "10.json" ∷ reports_dir) (cleanup reports_dir 1 two).1.tree ≡ none))
cleanup_removes_example =
    cleanup_removes reports_dir 1 two (codes "10.json") reports_dir at_dir both-IsEpoch

two_unique : HasUniquePaths two_reports
unfolding write_file write_file_with_perm atomic_write fill_and_rename remove_temp create_temp write
    close rename chmod remove read_file stat read_dir mkdir_all node_at lookup insert erase path_dec
    bytes_dec list_dec ℕ_discrete temp_name format_ℕ digits Sentinel-discrete syscall
two_unique = (refl, (refl, (refl, tt)))

cleanup_removes_old_example : node_at report_10.path (cleanup reports_dir 1 two).1.tree ≡ none
cleanup_removes_old_example =
    cleanup_removes_old reports_dir 1 two report_10 (world_of-IsCalm two_reports) two_unique at_dir
      (omega arith) both-IsEpoch found_10 one_later

found_run : (duplicate_exists reports_dir (pos 20) 5 two).0 ≡ ok true
unfolding duplicate_exists walk_reports collect_reports under period_start admit new_report
    report_time parse_int parse_digits scan entries_of sort_entries insert_entry bytes_before
    trim_suffix ext wrap64 ◌-ℤ◌ ◌+ℤ◌ write_file write_file_with_perm atomic_write fill_and_rename
    remove_temp create_temp write close rename chmod remove read_file stat read_dir mkdir_all
    node_at lookup insert erase path_dec bytes_dec list_dec ℕ_discrete temp_name format_ℕ digits
    Sentinel-discrete syscall
found_run = refl

duplicate_exists_iff_example :
    (true ≡ true) ↔ InPeriod (period_start (pos 20) 5) (pos 20) reports_dir two_reports
duplicate_exists_iff_example =
    duplicate_exists_iff reports_dir (pos 20) 5 two true two_unique at_dir found_run
