-- ===== src/Tests/Writing.antt =====
-- The theorems on the collector's Write, at a concrete collector.
use ubuntu_insights.Base.{
  Bytes, Option, [], bytes_dec, codes, ext, false, list_dec, none, refl, some, trim_suffix, true,
  ℕ_discrete, ◌∷◌, ◌≡◌,
}
use ubuntu_insights.Base.Decimal.{digits, format_int, format_ℕ, parse_digits, parse_int, scan}
use ubuntu_insights.Base.Dict.{erase, insert, lookup}
use ubuntu_insights.Base.Int.{pos, wrap64, ◌+ℤ◌, ◌-ℤ◌}
use ubuntu_insights.Collector.{
  Collector, any_duplicate, duplicate_in, exists_maybe, handle_duplicates, make_dirs, store,
  write_granted, write_insights, write_report,
}
use ubuntu_insights.Collector.Stored.{HoldsPayload, write_insights_stores}
use ubuntu_insights.FileUtils.{
  atomic_write, fill_and_rename, remove_temp, write_file, write_file_with_perm,
}
use ubuntu_insights.Report.{
  admit, cleanup, collect_reports, duplicate_exists, get_all, new_report, period_start,
  remove_surplus, report_time, too_many, under, walk_reports,
}
use ubuntu_insights.Report.Names.{report_name}
use ubuntu_insights.System.Files.{
  bytes_before, chmod, close, create_temp, entries_of, insert_entry, mkdir_all, node_at, read_dir,
  read_file, remove, rename, sort_entries, stat, syscall, temp_name, write,
}
use ubuntu_insights.System.World.{Sentinel-discrete, World, dir, done, path_dec, pure}
use ubuntu_insights.Tests.Setting.{linux, reports_dir, world_of}

-- Consent is always granted; there is room for 10 reports.
abbrev linux_collector : Collector
linux_collector = record {
  consent = λ source. pure true;
  source = linux;
  collected_dir = reports_dir;
  uploaded_dir = codes "uploaded" ∷ [];
  source_metrics_path = [];
  source_metrics_json = none;
  max_reports = 10;
  time = pos 25;
}

abbrev empty_dir : World
empty_dir = world_of ((reports_dir, dir) ∷ [])

abbrev encoded : Option Bytes
encoded = some (codes "{}")

write_run : (write_insights linux_collector encoded (pos 0) 5 false false empty_dir).0 ≡ done
unfolding write_insights write_granted handle_duplicates any_duplicate exists_maybe duplicate_in
    make_dirs store write_report report_name format_int cleanup get_all remove_surplus
    duplicate_exists walk_reports collect_reports under period_start admit new_report report_time
    parse_int parse_digits scan entries_of sort_entries insert_entry bytes_before trim_suffix ext
    wrap64 ◌-ℤ◌ ◌+ℤ◌ write_file write_file_with_perm atomic_write fill_and_rename remove_temp
    create_temp write close rename chmod remove read_file stat read_dir mkdir_all node_at lookup
    insert erase path_dec bytes_dec list_dec ℕ_discrete temp_name format_ℕ digits Sentinel-discrete
    syscall too_many
write_run = refl

write_insights_stores_example :
    HoldsPayload linux_collector encoded
      (pos 0)
      5
      false
      empty_dir
      (write_insights linux_collector encoded (pos 0) 5 false false empty_dir).1
write_insights_stores_example =
    write_insights_stores linux_collector encoded (pos 0) 5 false empty_dir write_run
