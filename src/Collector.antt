-- ===== src/Collector.antt =====
-- insights/internal/collector/collector.go: making a report and writing it to disk.
-- The system information and the source metrics are values that this package passes on: their
-- types and their JSON are parameters.
pub mod Disk
pub mod Duplicates
pub mod Stored
use ubuntu_insights.Base.{
  Bool, Bytes, Option, [], codes, false, if◌then◌else◌, is_nil, none, not, some, true, ℕ, ◌&&◌,
  ◌==◌, ◌∷◌,
}
use ubuntu_insights.Base.Int.{negsuc, pos, ℤ}
use ubuntu_insights.Env.{or_plain}
use ubuntu_insights.FileUtils.{write_file}
use ubuntu_insights.Report.{cleanup, clear_period, duplicate_exists}
use ubuntu_insights.Report.Names.{report_name}
use ubuntu_insights.System.Files.{mkdir_all, read_file, stat}
use ubuntu_insights.System.World.{
  FilePath, Io, Node, Result, Sentinel, attempt, duplicate_report, err, fails_with, hiding,
  is_error, lift, not_exist, ok, plain, pure, raise, sanitize_error, source_metrics_error, ◌>>=◌,
  ◌>>◌,
}
use ubuntu_insights.Uploader.{collected_dir, opt_out_payload, uploaded_dir}

-- The collector's view of package sysinfo and of encoding/json: the types of what it gathers, the
-- decoding of the source metrics (an object, or none), and the encoding of a report.
pub record Codec : Type 1 where
  pub SysInfo : Type 0
  pub Metrics : Type 0
  pub unmarshal : Bytes → Option Metrics
  pub marshal : Bytes → ℤ → SysInfo → Option Metrics → Option Bytes

-- Config; nil source metrics are none.
pub record Config : Type 0 where
  pub source : Bytes
  pub cache_path : FilePath
  pub source_metrics_path : FilePath
  pub source_metrics_json : Option Bytes

-- collector
pub record Collector : Type 0 where
  pub consent : Bytes → Io Bool
  pub source : Bytes
  pub collected_dir : FilePath
  pub uploaded_dir : FilePath
  pub source_metrics_path : FilePath
  pub source_metrics_json : Option Bytes
  pub max_reports : ℕ
  pub time : ℤ

abbrev valid_json : (Bytes → Bool) → Option Bytes → Bool
valid_json json_valid none = true
valid_json json_valid (some b) = json_valid b

abbrev is_some {ℓ} : {A : Type ℓ} → Option A → Bool
is_some none = false
is_some (some a) = true

-- Config.Sanitize, with the platform's name and the default cache path
unfoldable pub sanitize : (Bytes → Bool) → Bytes → FilePath → Config → Result Config
sanitize json_valid goos default_cache c =
    if not (is_nil c.source_metrics_path) && is_some c.source_metrics_json
    then err plain
    else if not (valid_json json_valid c.source_metrics_json)
    then err plain
    else ok (record c {
      source = if is_nil c.source then goos else c.source;
      cache_path = if is_nil c.cache_path then default_cache else c.cache_path;
    })

-- errors.Join(ErrSanitizeError, err)
abbrev tagged {ℓ} : {A : Type ℓ} → Sentinel → Result A → Result A
tagged s (ok a) = ok a
tagged s (err e) = err (s ∷ e)

-- New; a nil consent manager is none
unfoldable pub new_collector :
    (Bytes → Bool) → Bytes → FilePath → Option (Bytes → Io Bool) → Config → ℕ → ℤ → Io Collector
new_collector json_valid goos default_cache none c max_reports time = raise plain
new_collector json_valid goos default_cache (some consent) c max_reports time = do
  c' ← lift (tagged sanitize_error (sanitize json_valid goos default_cache c))
  hiding (mkdir_all c'.cache_path)
  pure (record {
    consent = consent;
    source = c'.source;
    collected_dir = codes "local" ∷ c'.source ∷ c'.cache_path;
    uploaded_dir = codes "uploaded" ∷ c'.source ∷ c'.cache_path;
    source_metrics_path = c'.source_metrics_path;
    source_metrics_json = c'.source_metrics_json;
    max_reports = max_reports;
    time = time;
  })

-- makeDirs
unfoldable pub make_dirs : Collector → Io (Unit {0})
make_dirs c = do hiding (mkdir_all c.collected_dir); hiding (mkdir_all c.uploaded_dir)

-- A directory is looked at unless os.Stat says that it does not exist.
unfoldable pub exists_maybe : FilePath → Io Bool
exists_maybe d = do r ← attempt (stat d); pure (not (fails_with r not_exist))

unfoldable pub duplicate_in : FilePath → Bool → ℤ → ℕ → Io Bool
duplicate_in d looked_at t period =
    if looked_at then hiding (duplicate_exists d t period) else pure false

-- duplicateExists: the collected directory first, then the uploaded one
unfoldable pub any_duplicate : Collector → ℤ → ℕ → Io Bool
any_duplicate c t period = do
  collected ← exists_maybe c.collected_dir
  uploaded ← exists_maybe c.uploaded_dir
  first ← duplicate_in c.collected_dir collected t period
  if first then pure true else duplicate_in c.uploaded_dir uploaded t period

-- What a forced write does about older reports, from what os.Stat says of the directory.
unfoldable pub clear_existing : Collector → Result Node → Bool → ℤ → ℕ → Io (Unit {0})
clear_existing c (err e) dry_run t period = if is_error e not_exist then pure tt else raise e
clear_existing c (ok node) dry_run t period = hiding (clear_period c.collected_dir t period dry_run)

-- handleDuplicates
unfoldable pub handle_duplicates : Collector → Bool → Bool → ℤ → ℕ → Io (Unit {0})
handle_duplicates c true dry_run t period = do
  r ← attempt (stat c.collected_dir)
  clear_existing c r dry_run t period
handle_duplicates c false dry_run t period = do
  duplicate ← any_duplicate c t period
  if duplicate then raise (duplicate_report ∷ []) else pure tt

-- write
unfoldable pub write_report : Collector → Bytes → ℤ → Io (Unit {0})
write_report c data' t = hiding (write_file (report_name t ∷ c.collected_dir) data')

-- The payload that Write stores, and the time that it stores it under.
abbrev pub payload_for : Bool → Bytes → Bytes
payload_for granted data' = if granted then data' else opt_out_payload

abbrev is_zero : ℤ → Bool
is_zero (pos n) = n == 0
is_zero (negsuc n) = false

abbrev pub report_date : Collector → ℤ → ℤ
report_date c collection_time = if is_zero collection_time then c.time else collection_time

-- Write from the consent on.
unfoldable pub store : Collector → Bytes → ℤ → Io (Unit {0})
store c data' t = do
  hiding (make_dirs c)
  hiding (write_report c data' t)
  hiding (cleanup c.collected_dir c.max_reports)

unfoldable pub write_granted : Collector → Bytes → ℤ → ℕ → Bool → Bool → Bool → Io (Unit {0})
write_granted c data' t period force dry_run granted = do
  handle_duplicates c force dry_run t period
  if dry_run then pure tt else store c (payload_for granted data') t

-- Write, of an encoded report: `none` if json.Marshal fails
unfoldable pub write_insights : Collector → Option Bytes → ℤ → ℕ → Bool → Bool → Io (Unit {0})
write_insights c encoded collection_time period force dry_run = do
  data' ← lift (or_plain encoded)
  granted ← c.consent c.source
  write_granted c data' (report_date c collection_time) period force dry_run granted

module _ (K : Codec) where
  -- Insights
  pub record Insights : Type 0 where
    pub version : Bytes
    pub collection_time : ℤ
    pub sys_info : K.SysInfo
    pub source_metrics : Option K.Metrics

  abbrev decoded : Result Bytes → Result (Option K.Metrics)
  decoded (err e) = err e
  decoded (ok b) = elim (K.unmarshal b) [ none ↦ err plain | some m ↦ ok (some m) ]

  -- getSourceMetrics
  unfoldable pub get_source_metrics : Collector → Io (Option K.Metrics)
  get_source_metrics c = elim c.source_metrics_json [
    | some b ↦ lift (decoded (ok b))
    | none ↦
        if is_nil c.source_metrics_path
        then pure none
        else (do b ← hiding (read_file c.source_metrics_path); lift (decoded (ok b)))
  ]

  -- compile, with the version and what package sysinfo collects
  unfoldable pub compile : Bytes → Io K.SysInfo → Collector → Io Insights
  compile version collect_info c = do
    info ← hiding collect_info
    r ← attempt (get_source_metrics c)
    metrics ← lift (tagged source_metrics_error r)
    pure (record {
      version = version;
      collection_time = c.time;
      sys_info = info;
      source_metrics = metrics;
    })

  -- Write
  unfoldable pub write_report_of : Collector → Insights → ℕ → Bool → Bool → Io (Unit {0})
  write_report_of c i period force dry_run =
      write_insights c (K.marshal i.version i.collection_time i.sys_info i.source_metrics)
        i.collection_time period force dry_run
