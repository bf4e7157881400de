-- ===== src/Client/Commands.antt =====
-- insights/cmd/insights/commands: what the commands do once cobra has read the flags into the
-- configuration. What a command prints is a value, given with its error. Logs, help and the
-- display of the usage are not modelled.
pub mod Words
pub mod Consented
pub mod Run
use ubuntu_insights.Base.{
  Bool, Bytes, List, Option, [], codes, false, if◌then◌else◌, is_nil, leb, map, none, same_bytes,
  some, true, ℕ, ◌&&◌, ◌+◌, ◌||◌, ◌∷◌,
}
use ubuntu_insights.Client.Api.{Setup, make_collector}
use ubuntu_insights.Collector.{Codec, Collector, Insights, compile, write_report_of}
use ubuntu_insights.Consent.{
  Manager, get_state, new_manager, new_with_system_config, set_state, source_or_platform,
}
use ubuntu_insights.Env.{Env, or_plain}
use ubuntu_insights.System.Files.{stat}
use ubuntu_insights.System.World.{
  FilePath, Io, Node, Result, Status, attempt, consent_file_not_found, dir, done, err, file, hiding,
  is_error, lift, ok, plain, pure, raise, ◌>>=◌, ◌>>◌,
}
use ubuntu_insights.SystemConfig.{is_opted_out, set_opt_out}
use ubuntu_insights.Uploader.{default_options}
use ubuntu_insights.Uploader.Retry.{Config, new_uploader, sanitize, upload_all}

-- The configuration of an App.
pub record AppConfig : Type 0 where
  pub consent_dir : FilePath
  pub insights_dir : FilePath
  pub system_config_dir : FilePath
  pub quiet : Bool
  pub upload_config : Config
  pub collect_source : Bytes
  pub collect_metrics_path : FilePath
  pub collect_period : ℕ
  pub collect_force : Bool
  pub collect_dry_run : Bool
  pub consent_sources : List Bytes
  pub consent_state : Bytes
  pub opt_out_state : Bytes

-- strconv.ParseBool
abbrev pub true_words : List Bytes
true_words = codes "1" ∷ codes "t" ∷ codes "T" ∷ codes "TRUE" ∷ codes "true" ∷ codes "True" ∷ []

abbrev pub false_words : List Bytes
false_words = codes "0" ∷ codes "f" ∷ codes "F" ∷ codes "FALSE" ∷ codes "false" ∷ codes "False" ∷ []

unfoldable pub is_word : Bytes → List Bytes → Bool
is_word b [] = false
is_word b (x ∷ xs) = same_bytes b x || is_word b xs

unfoldable pub parse_bool : Bytes → Option Bool
parse_bool b =
    if is_word b true_words then some true else if is_word b false_words then some false else none

-- strings.ToLower, of a text of ASCII characters
abbrev pub lower_byte : ℕ → ℕ
lower_byte c = if leb b'A' c && leb c b'Z' then c + 32 else c

abbrev pub to_lower : Bytes → Bytes
to_lower b = map lower_byte b

-- PreRunE of the consent and of the system-opt-out command
abbrev pub refused_state : Bytes → Option Bool → Status
refused_state state (some v) = done
refused_state state none = if is_nil state then done else err plain

unfoldable pub pre_run : Bytes → Status
pre_run state = refused_state state (parse_bool state)

-- Args of the collect command, with what a path on the command line stands for
abbrev no_directory : Node → Status
no_directory dir = err plain
no_directory (file b) = done

unfoldable pub collect_args : (Bytes → FilePath) → List Bytes → Io (Unit {0})
collect_args path_of [] = pure tt
collect_args path_of (source ∷ []) = raise plain
collect_args path_of (source ∷ metrics ∷ []) = do
  node ← hiding (stat (path_of metrics))
  lift (no_directory node)
collect_args path_of (source ∷ metrics ∷ more ∷ args) = raise plain

-- RunE of the collect command, before collectRun
abbrev pub with_collect_args : (Bytes → FilePath) → AppConfig → List Bytes → AppConfig
with_collect_args path_of a (source ∷ metrics ∷ []) = record a {
  collect_source = source;
  collect_metrics_path = path_of metrics;
}
with_collect_args path_of a _ = a

-- The error of Write that collectRun only logs.
abbrev pub only_logged : Status → Status
only_logged (ok _) = done
only_logged (err e) = if is_error e consent_file_not_found then done else err e

module _ {K : Codec} (s : Setup K) where
  abbrev consent_manager : AppConfig → Bytes → Io Bool
  consent_manager a = get_state s.env (new_with_system_config a.consent_dir a.system_config_dir)

  -- collectRun up to the compiled report
  unfoldable pub collect_report : AppConfig → Io (Collector × Insights K)
  collect_report a = do
    col ←
        make_collector s (consent_manager a) a.collect_source a.insights_dir a.collect_metrics_path
          none
    insights ← compile K s.version s.collect_info col
    pure (col, insights)

  unfoldable pub write_collected : AppConfig → Collector → Insights K → Io Status
  write_collected a col insights = do
    r ← attempt (write_report_of K col insights a.collect_period a.collect_force a.collect_dry_run)
    pure (only_logged r)

  -- The report is printed before it is written.
  unfoldable pub print_and_write :
      AppConfig → Result (Collector × Insights K) → Io (List Bytes × Status)
  print_and_write a (err e) = pure ([], err e)
  print_and_write a (ok (col, insights)) =
      if a.quiet
      then (do r ← write_collected a col insights; pure ([], r))
      else elim (s.marshal_indent insights) [
        | none ↦ pure ([], err plain)
        | some b ↦ do r ← write_collected a col insights; pure (b ∷ [], r)
      ]

  -- collectRun
  unfoldable pub collect_run : AppConfig → Io (List Bytes × Status)
  collect_run a = do r ← attempt (collect_report a); print_and_write a r

  -- uploadRun
  unfoldable pub upload_run : AppConfig → Io (Unit {0})
  upload_run a = do
    u_config ← sanitize a.insights_dir a.upload_config
    upload_all
        (new_uploader (consent_manager a) a.insights_dir u_config.min_age u_config.dry_run
          default_options s.env.json_valid s.now s.order s.source_order)
        u_config.sources u_config.force u_config.retry

  -- RunE of the upload command: sources of a configuration file serve if none are named
  unfoldable pub upload_command : AppConfig → List Bytes → Io (Unit {0})
  upload_command a args = upload_run (
      if is_nil args
      then a
      else record a { upload_config = record a.upload_config { sources = args } })

-- The source "" stands for the platform's.
abbrev pub sources_or_platform : List Bytes → List Bytes
sources_or_platform sources = if is_nil sources then [] ∷ [] else sources

-- The error of consentRun, from the sources that failed
abbrev pub with_error : List (Bytes × Bool) × List Bytes → List (Bytes × Bool) × Status
with_error (lines, failed) = (lines, if is_nil failed then done else err plain)

-- What `state, _ := strconv.ParseBool` leaves in state
abbrev pub value_or_false : Option Bool → Bool
value_or_false none = false
value_or_false (some v) = v

module _ (env : Env) where
  -- The loop of consentRun that sets the state
  unfoldable pub set_sources : Manager → Bool → List Bytes → Io (Unit {0})
  set_sources cm v [] = pure tt
  set_sources cm v (source ∷ sources) = do set_state env cm source v; set_sources cm v sources

  -- One round of the loop that gets the states: the lines, and the sources that failed
  abbrev pub with_state :
      Bool
      → Bytes
      → Result Bool
      → List (Bytes × Bool) × List Bytes
      → List (Bytes × Bool) × List Bytes
  with_state quiet source (err e) (lines, failed) = (lines, source_or_platform env source ∷ failed)
  with_state quiet source (ok v) (lines, failed) =
      (if quiet then lines else (source_or_platform env source, v) ∷ lines, failed)

  unfoldable pub get_sources : Manager → Bool → List Bytes → Io (List (Bytes × Bool) × List Bytes)
  get_sources cm quiet [] = pure ([], [])
  get_sources cm quiet (source ∷ sources) = do
    r ← attempt (get_state env cm source)
    later ← get_sources cm quiet sources
    pure (with_state quiet source r later)

  unfoldable pub report_sources : Manager → Bool → List Bytes → Io (List (Bytes × Bool) × Status)
  report_sources cm quiet sources = do found ← get_sources cm quiet sources; pure (with_error found)

  -- The setting of the states, which ends consentRun on an error
  unfoldable pub after_setting :
      Manager → Bool → List Bytes → Status → Io (List (Bytes × Bool) × Status)
  after_setting cm quiet sources (err e) = pure ([], err e)
  after_setting cm quiet sources (ok _) = report_sources cm quiet sources

  unfoldable pub change_sources : Manager → List Bytes → Bytes → Io (Unit {0})
  change_sources cm sources state =
      if is_nil state
      then pure tt
      else (do v ← lift (or_plain (parse_bool state)); set_sources cm v sources)

  -- consentRun; it asks for the system-wide opt-out only to log it
  unfoldable pub consent_run : AppConfig → Io (List (Bytes × Bool) × Status)
  consent_run a = do
    _ ← attempt (is_opted_out env a.system_config_dir)
    r ← attempt (
        change_sources (new_manager a.consent_dir) (sources_or_platform a.consent_sources)
          a.consent_state)
    after_setting (new_manager a.consent_dir) a.quiet (sources_or_platform a.consent_sources) r

  -- The consent command: PreRunE, then RunE
  unfoldable pub consent_command : AppConfig → List Bytes → Io (List (Bytes × Bool) × Status)
  consent_command a args = do
    lift (pre_run a.consent_state)
    consent_run (record a {
      consent_sources = if is_nil args then a.consent_sources else args;
      consent_state = to_lower a.consent_state;
    })

  unfoldable pub change_opt_out : FilePath → Bytes → Io (Unit {0})
  change_opt_out d state =
      if is_nil state then pure tt else set_opt_out env d (value_or_false (parse_bool state))

  -- The system-opt-out command: PreRunE, then RunE, which drops the error of ParseBool
  unfoldable pub opt_out_command : AppConfig → Io (List Bool)
  opt_out_command a = do
    lift (pre_run a.opt_out_state)
    change_opt_out a.system_config_dir (to_lower a.opt_out_state)
    state ← is_opted_out env a.system_config_dir
    pure (if a.quiet then [] else state ∷ [])
