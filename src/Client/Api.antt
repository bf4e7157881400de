-- ===== src/Client/Api.antt =====
-- insights/api.go: the Go interface of the client. Each call resolves the configuration, makes the
-- managers and runs them. The logger is not modelled.
use ubuntu_insights.Base.{
  Bool, Bytes, List, Option, [], false, if◌then◌else◌, is_nil, none, not, some, ℕ, ◌||◌,
}
use ubuntu_insights.Base.Int.{ℤ}
use ubuntu_insights.Collector.{Codec, Collector, Insights, compile, new_collector, write_report_of}
use ubuntu_insights.Consent.{get_state, new_manager, new_with_system_config, set_state}
use ubuntu_insights.Env.{Env, or_plain}
use ubuntu_insights.Report.{Report}
use ubuntu_insights.System.World.{
  FilePath, Io, Status, attempt, consent_file_not_found, done, err, hiding, is_error, lift, ok,
  pure, ◌>>=◌, ◌>>◌,
}
use ubuntu_insights.SystemConfig.{is_opted_out, set_opt_out}
use ubuntu_insights.Uploader.{Uploader, default_options}
use ubuntu_insights.Uploader.Retry.{new_uploader, sanitize, upload_all}
pub mod AllSources
pub mod RoundTrip
pub mod Sources

-- What the calls meet outside the program's own code: the default paths of package constants, the
-- version, package sysinfo, encoding/json on reports, and the clocks and schedules of an uploader.
pub record Setup (K : Codec) : Type 0 where
  pub env : Env
  pub default_config_path : FilePath
  pub default_cache_path : FilePath
  pub default_system_config_path : FilePath
  pub version : Bytes
  pub collect_info : Io K.SysInfo
  pub marshal_indent : Insights K → Option Bytes
  pub decode_insights : Bytes → Option (Insights K)
  pub time : ℤ
  pub now : Report → ℤ
  pub order : List Report → List Report
  pub source_order : List Bytes → List Bytes

-- Config; a path that is not set is empty.
pub record Config : Type 0 where
  pub consent_dir : FilePath
  pub insights_dir : FilePath
  pub system_config_dir : FilePath

pub record CollectFlags : Type 0 where
  pub source_metrics_path : FilePath
  pub source_metrics_json : Option Bytes
  pub period : ℕ
  pub force : Bool
  pub dry_run : Bool

pub record CompileFlags : Type 0 where
  pub source_metrics_path : FilePath
  pub source_metrics_json : Option Bytes

pub record WriteFlags : Type 0 where
  pub period : ℕ
  pub force : Bool
  pub dry_run : Bool

pub record UploadFlags : Type 0 where
  pub min_age : ℕ
  pub force : Bool
  pub dry_run : Bool

-- constants.MaxReports
abbrev pub max_reports : ℕ
max_reports = 150

-- The error of Write that Collect passes over in a dry run.
abbrev pub passed_over : Bool → Status → Status
passed_over dry_run (ok _) = done
passed_over dry_run (err e) =
    if not dry_run || not (is_error e consent_file_not_found) then err e else done

module _ {K : Codec} (s : Setup K) where
  -- Resolve
  unfoldable pub resolve : Config → Config
  resolve c = record {
    consent_dir = if is_nil c.consent_dir then s.default_config_path else c.consent_dir;
    insights_dir = if is_nil c.insights_dir then s.default_cache_path else c.insights_dir;
    system_config_dir =
        if is_nil c.system_config_dir then s.default_system_config_path else c.system_config_dir;
  }

  -- The consent manager of Collect, Write and Upload, which honours the system-wide opt-out.
  abbrev pub honouring : Config → Bytes → Io Bool
  honouring r = get_state s.env (new_with_system_config r.consent_dir r.system_config_dir)

  -- collector.New
  abbrev pub make_collector :
      (Bytes → Io Bool) → Bytes → FilePath → FilePath → Option Bytes → Io Collector
  make_collector consent source cache path json =
      new_collector s.env.json_valid s.env.goos s.default_cache_path (some consent)
        (record {
          source = source;
          cache_path = cache;
          source_metrics_path = path;
          source_metrics_json = json;
        })
        max_reports s.time

  -- Collect
  unfoldable pub collect : Config → Bytes → CollectFlags → Io Bytes
  collect c source flags = do
    col ←
        make_collector (honouring (resolve c)) source (resolve c).insights_dir
          flags.source_metrics_path flags.source_metrics_json
    insights ← compile K s.version s.collect_info col
    written ← attempt (write_report_of K col insights flags.period flags.force flags.dry_run)
    lift (passed_over flags.dry_run written)
    lift (or_plain (s.marshal_indent insights))

  -- Compile
  unfoldable pub compile_report : Config → CompileFlags → Io Bytes
  compile_report c flags = do
    col ←
        make_collector (get_state s.env (new_manager (resolve c).consent_dir)) s.env.goos
          (resolve c).insights_dir flags.source_metrics_path flags.source_metrics_json
    insights ← compile K s.version s.collect_info col
    lift (or_plain (s.marshal_indent insights))

  -- Write
  unfoldable pub write_report : Config → Bytes → Bytes → WriteFlags → Io (Unit {0})
  write_report c source report flags = do
    col ← make_collector (honouring (resolve c)) source (resolve c).insights_dir [] none
    insights ← lift (or_plain (s.decode_insights report))
    write_report_of K col insights flags.period flags.force flags.dry_run

  abbrev pub make_uploader : Config → ℕ → Bool → Uploader
  make_uploader r min_age dry_run =
      new_uploader (honouring r) r.insights_dir min_age dry_run default_options s.env.json_valid
        s.now s.order s.source_order

  -- Upload. The sources come from Sanitize, which Upload calls with the consent directory.
  unfoldable pub upload_reports : Config → List Bytes → UploadFlags → Io (Unit {0})
  upload_reports c sources flags = do
    u_conf ← sanitize (resolve c).consent_dir (record {
      sources = sources;
      min_age = flags.min_age;
      force = flags.force;
      dry_run = flags.dry_run;
      retry = false;
    })
    upload_all (make_uploader (resolve c) u_conf.min_age u_conf.dry_run) u_conf.sources u_conf.force
        u_conf.retry

  -- warnIfSystemOptedOut: it only asks, and logs
  unfoldable pub warn_if_system_opted_out : Config → Io (Unit {0})
  warn_if_system_opted_out r = do _ ← attempt (is_opted_out s.env r.system_config_dir); pure tt

  -- GetConsentState
  unfoldable pub get_consent_state : Config → Bytes → Io Bool
  get_consent_state c source = do
    warn_if_system_opted_out (resolve c)
    hiding (get_state s.env (new_manager (resolve c).consent_dir) source)

  -- SetConsentState
  unfoldable pub set_consent_state : Config → Bytes → Bool → Io (Unit {0})
  set_consent_state c source state = do
    warn_if_system_opted_out (resolve c)
    set_state s.env (new_manager (resolve c).consent_dir) source state

  -- IsSystemOptOut
  unfoldable pub is_system_opt_out : Config → Io Bool
  is_system_opt_out c = is_opted_out s.env (resolve c).system_config_dir

  -- SetSystemOptOut
  unfoldable pub set_system_opt_out : Config → Bool → Io (Unit {0})
  set_system_opt_out c state = set_opt_out s.env (resolve c).system_config_dir state
