-- ===== src/Tests/Ingest.antt =====
-- The theorems on the ingest service, at concrete settings.
use ubuntu_insights.Base.{
  Bytes, [], arith, bytes_dec, codes, false, list_dec, none, refl, some, true, ℕ_discrete, ◌∷◌, ◌≡◌,
}
use ubuntu_insights.Base.Decimal.{digits, format_ℕ}
use ubuntu_insights.Base.Dict.{erase, insert, lookup}
use ubuntu_insights.Base.Int.{pos}
use ubuntu_insights.FileUtils.{
  atomic_write, fill_and_rename, remove_temp, write_file, write_file_with_perm,
}
use ubuntu_insights.Server.Handlers.{legacy_app}
use ubuntu_insights.Server.Path.{contains}
use ubuntu_insights.Server.Processor.{
  Database, Decoders, TargetModel, TargetSystemInfo, is_legacy, parse_legacy_app, process_file,
  validate_report,
}
use ubuntu_insights.Server.Processor.Legacy.{IsElement, parse_legacy_app-legacy_app}
use ubuntu_insights.Server.Processor.Kinds.{current}
use ubuntu_insights.Server.Processor.Removal.{
  IsRefused, IsRetried, IsSendable, process_file-IsRetried,
}
use ubuntu_insights.Server.Sanitize.{null_escape, sanitize_invalid_unicode_escapes}
use ubuntu_insights.Server.Sanitize.Clean.{sanitize-contains}
use ubuntu_insights.System.Files.{
  chmod, close, create_temp, mkdir_all, node_at, read_dir, read_file, remove, rename, stat, syscall,
  temp_name, write,
}
use ubuntu_insights.System.World.{
  FilePath, Sentinel-discrete, Tree, dir, done, file, path_dec, plain, raise,
}
use ubuntu_insights.Tests.Setting.{world_of, world_of-IsCalm}

sanitize-contains_example :
    contains (sanitize_invalid_unicode_escapes (codes "{\"a\":\"\\u0000\"}")) null_escape ≡ false
sanitize-contains_example = sanitize-contains (codes "{\"a\":\"\\u0000\"}")

abbrev pub app_dir : FilePath
app_dir = codes "linux" ∷ codes "reports" ∷ []

abbrev pub stored_at : FilePath
stored_at = codes "id.json" ∷ app_dir

abbrev pub ingest_tree : Tree
ingest_tree = (app_dir, dir) ∷ (stored_at, file (codes "{}")) ∷ []

abbrev empty_info : TargetSystemInfo
empty_info = record { hardware = none; software = none; platform = none; extras = none }

abbrev some_report : TargetModel
some_report = record {
  insights_version = codes "1";
  collection_time = pos 10;
  system_info = empty_info;
  source_metrics = none;
  opt_out = false;
  extras = some (codes "{}");
}

abbrev all_decoders : Decoders
all_decoders = record {
  target = λ b. some some_report;
  legacy = λ b. none;
  object_size = λ b. none;
  is_uuid = λ b. false;
  new_uuid = format_ℕ;
}

abbrev refusing : Database
refusing = record {
  upload = λ id app report. raise plain;
  upload_legacy = λ id distribution version report. raise plain;
  upload_invalid = λ id app raw. raise plain;
}

pub stored_report : node_at stored_at ingest_tree ≡ some (file (codes "{}"))
unfolding write_file write_file_with_perm atomic_write fill_and_rename remove_temp create_temp write
    close rename chmod remove read_file stat read_dir mkdir_all node_at lookup insert erase path_dec
    bytes_dec list_dec ℕ_discrete temp_name format_ℕ digits Sentinel-discrete syscall
stored_report = refl

sendable : IsSendable (validate_report some_report)
unfolding validate_report write_file write_file_with_perm atomic_write fill_and_rename remove_temp
    create_temp write close rename chmod remove read_file stat read_dir mkdir_all node_at lookup
    insert erase path_dec bytes_dec list_dec ℕ_discrete temp_name format_ℕ digits Sentinel-discrete
    syscall
sendable = refl

refused : (id : Bytes) → IsRefused (refusing.upload id (codes "linux") some_report)
refused id w = (refl, refl)

process_file-IsRetried_example :
    IsRetried stored_at
      (codes "{}")
      (process_file all_decoders refusing stored_at (codes "linux") false (world_of ingest_tree)).0
      (process_file all_decoders refusing stored_at (codes "linux") false (world_of ingest_tree)).1
process_file-IsRetried_example =
    process_file-IsRetried all_decoders refusing stored_at (codes "linux") (codes "{}")
      (world_of ingest_tree) (world_of-IsCalm ingest_tree) stored_report (current some_report) refl
      sendable refused

ubuntu-IsElement : IsElement (codes "ubuntu")
ubuntu-IsElement = ground arith

version-IsElement : IsElement (codes "24.04")
version-IsElement = ground arith

parse_legacy_app-legacy_app_example :
    (is_legacy (legacy_app (codes "ubuntu") (codes "24.04")) ≡ true)
    × (parse_legacy_app (legacy_app (codes "ubuntu") (codes "24.04"))
        ≡ (codes "ubuntu", codes "24.04"))
parse_legacy_app-legacy_app_example =
    parse_legacy_app-legacy_app (codes "ubuntu") (codes "24.04") ubuntu-IsElement version-IsElement
      refl refl

abbrev pub valid_report : TargetModel
valid_report = record some_report { extras = none }

abbrev pub valid_decoders : Decoders
valid_decoders = record all_decoders { target = λ b. some valid_report }

pub valid : validate_report valid_report ≡ done
unfolding validate_report
valid = refl
