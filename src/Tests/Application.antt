-- ===== src/Tests/Application.antt =====
-- The theorems on the client's Go interface and on its command line, at concrete settings.
use ubuntu_insights.Base.{
  Bool, Bytes, List, arith, ◌++◌, ◌≢◌, [], bytes_dec, codes, false, list_dec, none, refl, some,
  true, ℕ_discrete, ◌∷◌, ◌≡◌, suc,
}
use ubuntu_insights.Base.Decimal.{digits, format_ℕ}
use ubuntu_insights.Base.Dict.{erase, insert, lookup}
use ubuntu_insights.Base.Int.{pos}
use ubuntu_insights.Client.Api.{
  Config, Setup, UploadFlags, get_consent_state, resolve, set_consent_state, set_system_opt_out,
  upload_reports, warn_if_system_opted_out,
}
use ubuntu_insights.Client.Api.AllSources.{upload_reports_all-set_system_opt_out}
use ubuntu_insights.Client.Api.RoundTrip.{get_consent_state-set_consent_state}
use ubuntu_insights.Client.Api.Sources.{directories_in, upload_named, upload_reports_none}
use ubuntu_insights.Client.Commands.{
  AppConfig, after_setting, change_opt_out, change_sources, consent_command, consent_run,
  get_sources, is_word, opt_out_command, parse_bool, pre_run, report_sources, set_sources,
}
use ubuntu_insights.Client.Commands.Consented.{AllSet}
use ubuntu_insights.Client.Commands.Run.{
  asked_sources, consent_command-AllSet, opt_out_command-Decodes,
}
use ubuntu_insights.Collector.{Codec}
use ubuntu_insights.Consent.{
  get_state, new_manager, raw_state, read_consent, set_state, system_opt_out,
}
use ubuntu_insights.Consent.Laws.{Decodes}
use ubuntu_insights.FileUtils.{
  atomic_write, fill_and_rename, remove_temp, write_file, write_file_with_perm,
}
use ubuntu_insights.System.Calm.{IsCalm}
use ubuntu_insights.System.Files.{
  chmod, close, create_temp, entries_of, insert_entry, mkdir_all, node_at, read_dir, read_file,
  remove, rename, sort_entries, stat, syscall, temp_name, write,
}
use ubuntu_insights.System.World.{FilePath, Sentinel-discrete, World, done, ok, path_dec, pure, dir}
use ubuntu_insights.SystemConfig.{
  config_file, decode_file, is_opted_out, set_opt_out, system_opt_out_key, write_toml,
}
use ubuntu_insights.Tests.Setting.{
  cache_dir, consent_dir, digit_env, digit_env-HasTomlRoundTrip, granted_tree, linux, system_dir,
  world_of, world_of-IsCalm,
}
use ubuntu_insights.Uploader.Confined.{PicksFrom}
use ubuntu_insights.Uploader.Privacy.{OnlyOptOutsAfter}
use ubuntu_insights.Uploader.Retry.{get_all_sources, source_dirs}

abbrev pub unit_codec : Codec
unit_codec = record {
  SysInfo = Unit {0};
  Metrics = Unit {0};
  unmarshal = λ b. none;
  marshal = λ version t info metrics. some (codes "{}");
}

abbrev pub setup : Setup unit_codec
setup = record {
  env = digit_env;
  default_config_path = consent_dir;
  default_cache_path = cache_dir;
  default_system_config_path = system_dir;
  version = codes "1";
  collect_info = pure tt;
  marshal_indent = λ i. some (codes "{}");
  decode_insights = λ b. none;
  time = pos 1000;
  now = λ r. pos 1000;
  order = λ rs. rs;
  source_order = λ s. s;
}

abbrev pub paths : Config
paths = record { consent_dir = []; insights_dir = cache_dir; system_config_dir = [] }

abbrev pub granted : World
granted = world_of granted_tree

abbrev opted : World
opted = (set_system_opt_out setup paths true granted).1

abbrev pub upload_flags : UploadFlags
upload_flags = record { min_age = 0; force = true; dry_run = false }

pub opted_run : (set_system_opt_out setup paths true granted).0 ≡ done
unfolding set_system_opt_out resolve set_opt_out write_toml write_file write_file_with_perm
    atomic_write fill_and_rename remove_temp create_temp write close rename chmod remove read_file
    stat read_dir mkdir_all node_at lookup insert erase path_dec bytes_dec list_dec ℕ_discrete
    temp_name format_ℕ digits Sentinel-discrete syscall
opted_run = refl

pub config_outside :
    (p : FilePath)
    → config_file (resolve setup paths).system_config_dir ≢ p ++ (resolve setup paths).insights_dir
unfolding resolve
config_outside [] = λ e. ground arith
config_outside (x ∷ []) = λ e. ground arith
config_outside (x ∷ y ∷ []) = λ e. ground arith
config_outside (x ∷ y ∷ z ∷ p) = λ e. ground arith

pub all_picked : PicksFrom setup.order
all_picked rs r h = h

upload_reports_all-set_system_opt_out_example :
    OnlyOptOutsAfter opted.posts
      (upload_reports setup paths (linux ∷ codes "app" ∷ []) upload_flags opted).1.posts
upload_reports_all-set_system_opt_out_example =
    upload_reports_all-set_system_opt_out setup paths config_outside all_picked
      (linux ∷ codes "app" ∷ []) upload_flags granted digit_env-HasTomlRoundTrip opted_run

denied_run : (set_consent_state setup paths linux false opted).0 ≡ done
unfolding set_consent_state warn_if_system_opted_out is_opted_out decode_file set_state
    set_system_opt_out resolve set_opt_out write_toml write_file write_file_with_perm atomic_write
    fill_and_rename remove_temp create_temp write close rename chmod remove read_file stat read_dir
    mkdir_all node_at lookup insert erase path_dec bytes_dec list_dec ℕ_discrete temp_name format_ℕ
    digits Sentinel-discrete syscall
denied_run = refl

denied_calm :
    let w' = (set_consent_state setup paths linux false opted).1 in w'.fault (suc w'.calls) ≡ false
unfolding set_consent_state warn_if_system_opted_out is_opted_out decode_file set_state
    set_system_opt_out resolve set_opt_out write_toml IsCalm write_file write_file_with_perm
    atomic_write fill_and_rename remove_temp create_temp write close rename chmod remove read_file
    stat read_dir mkdir_all node_at lookup insert erase path_dec bytes_dec list_dec ℕ_discrete
    temp_name format_ℕ digits Sentinel-discrete syscall
denied_calm = refl

get_consent_state-set_consent_state_example :
    (get_consent_state setup paths linux (set_consent_state setup paths linux false opted).1).0
    ≡ ok false
get_consent_state-set_consent_state_example =
    get_consent_state-set_consent_state setup digit_env-HasTomlRoundTrip paths linux false opted
      denied_run denied_calm

consent_dir_found : node_at (resolve setup paths).consent_dir granted.tree ≡ some dir
unfolding get_all_sources source_dirs resolve sort_entries entries_of insert_entry write_file
    write_file_with_perm atomic_write fill_and_rename remove_temp create_temp write close rename
    chmod remove read_file stat read_dir mkdir_all node_at lookup insert erase path_dec bytes_dec
    list_dec ℕ_discrete temp_name format_ℕ digits Sentinel-discrete syscall
consent_dir_found = refl

upload_reports_none_example :
    upload_reports setup paths [] upload_flags granted
    ≡ upload_named setup paths upload_flags
        (directories_in (resolve setup paths).consent_dir granted.tree)
        (get_all_sources (resolve setup paths).consent_dir granted).1
upload_reports_none_example =
    upload_reports_none setup paths upload_flags granted (world_of-IsCalm granted_tree) refl
      consent_dir_found

abbrev app : AppConfig
app = record {
  consent_dir = consent_dir;
  insights_dir = cache_dir;
  system_config_dir = system_dir;
  quiet = false;
  upload_config = record {
    sources = [];
    min_age = 0;
    force = false;
    dry_run = false;
    retry = false;
  };
  collect_source = [];
  collect_metrics_path = [];
  collect_period = 0;
  collect_force = false;
  collect_dry_run = false;
  consent_sources = [];
  consent_state = codes "FALSE";
  opt_out_state = codes "T";
}

consent_words : parse_bool app.consent_state ≡ some false
unfolding parse_bool is_word write_file write_file_with_perm atomic_write fill_and_rename
    remove_temp create_temp write close rename chmod remove read_file stat read_dir mkdir_all
    node_at lookup insert erase path_dec bytes_dec list_dec ℕ_discrete temp_name format_ℕ digits
    Sentinel-discrete syscall
consent_words = refl

abbrev two_sources : List Bytes
two_sources = codes "wsl" ∷ [] ∷ []

abbrev two_lines : List (Bytes × Bool)
two_lines = (codes "wsl", false) ∷ (linux, false) ∷ []

consent_command_run : (consent_command digit_env app two_sources granted).0 ≡ ok (two_lines, done)
unfolding consent_command pre_run consent_run change_sources set_sources after_setting
    report_sources get_sources parse_bool is_word is_opted_out decode_file set_state get_state
    raw_state system_opt_out read_consent write_toml write_file write_file_with_perm atomic_write
    fill_and_rename remove_temp create_temp write close rename chmod remove read_file stat read_dir
    mkdir_all node_at lookup insert erase path_dec bytes_dec list_dec ℕ_discrete temp_name format_ℕ
    digits Sentinel-discrete syscall
consent_command_run = refl

consent_command-AllSet_example :
    AllSet digit_env
      (new_manager consent_dir)
      false
      false
      (asked_sources app two_sources)
      two_lines
      (consent_command digit_env app two_sources granted).1
consent_command-AllSet_example =
    consent_command-AllSet digit_env app two_sources false two_lines granted
      digit_env-HasTomlRoundTrip consent_words consent_command_run

opt_out_words : parse_bool app.opt_out_state ≡ some true
unfolding parse_bool is_word write_file write_file_with_perm atomic_write fill_and_rename
    remove_temp create_temp write close rename chmod remove read_file stat read_dir mkdir_all
    node_at lookup insert erase path_dec bytes_dec list_dec ℕ_discrete temp_name format_ℕ digits
    Sentinel-discrete syscall
opt_out_words = refl

opt_out_command_run : (opt_out_command digit_env app granted).0 ≡ ok (true ∷ [])
unfolding opt_out_command pre_run change_opt_out parse_bool is_word is_opted_out decode_file
    set_opt_out write_toml write_file write_file_with_perm atomic_write fill_and_rename remove_temp
    create_temp write close rename chmod remove read_file stat read_dir mkdir_all node_at lookup
    insert erase path_dec bytes_dec list_dec ℕ_discrete temp_name format_ℕ digits Sentinel-discrete
    syscall
opt_out_command_run = refl

opt_out_command-Decodes_example :
    (true ∷ [] ≡ true ∷ [])
    × Decodes digit_env system_opt_out_key
        (config_file app.system_config_dir)
        true
        (opt_out_command digit_env app granted).1
opt_out_command-Decodes_example =
    opt_out_command-Decodes digit_env app true (true ∷ []) granted digit_env-HasTomlRoundTrip
      opt_out_words opt_out_command_run
