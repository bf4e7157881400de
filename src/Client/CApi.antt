-- ===== src/Client/CApi.antt =====
-- insights/C/libinsights.go: the C interface, on top of insights/api.go. A pointer is none where it
-- is NULL; a char* is the memory that it points to, of which Go reads what comes before the first
-- NUL. What a path's text stands for and what an error says are parameters. Log callbacks and the
-- verbosity are not modelled.
pub mod Calls
pub mod Promises
use ubuntu_insights.Base.{
  Bool, not, Bytes, List, Option, [], false, if◌then◌else◌, is_nil, ltb, map, none, some, take, ℕ,
  ◌%◌, ◌==◌, ◌^◌, ◌∷◌,
}
use ubuntu_insights.Client.Api.{
  CollectFlags, CompileFlags, Config, Setup, UploadFlags, WriteFlags, collect, compile_report,
  get_consent_state, is_system_opt_out, set_consent_state, set_system_opt_out, upload_reports,
  write_report,
}
use ubuntu_insights.Collector.{Codec}
use ubuntu_insights.System.World.{Error, FilePath, Io, Result, World, err, ok}

-- A call from C: none if the Go code panics, which ends the process
abbrev pub Call : Type 0 → Type 0
Call A = World → Option A × World

-- insights_config, insights_collect_flags and the others of types.h
pub record CConfig : Type 0 where
  pub consent_dir : Option Bytes
  pub insights_dir : Option Bytes
  pub system_config_dir : Option Bytes

pub record CCollectFlags : Type 0 where
  pub source_metrics_path : Option Bytes
  pub source_metrics_json : Option Bytes
  pub source_metrics_json_len : ℕ
  pub period : ℕ
  pub force : Bool
  pub dry_run : Bool

pub record CCompileFlags : Type 0 where
  pub source_metrics_path : Option Bytes
  pub source_metrics_json : Option Bytes
  pub source_metrics_json_len : ℕ

pub data ConsentState : Type 0 where
  consent_unknown consent_false consent_true : ConsentState

-- What is at out_report: nothing was written, or a pointer
pub data Out : Type 0 where
  untouched : Out
  written : Option Bytes → Out

pub record CReport : Type 0 where
  pub error : Option Bytes
  pub out : Out

-- What comes before the first NUL: C.GoString of a char*, and what C reads of a C.CString
abbrev pub until_nul : Bytes → Bytes
until_nul [] = []
until_nul (c ∷ b) = let rest = until_nul b in if c == 0 then [] else c ∷ rest

abbrev pub go_string : Option Bytes → Bytes
go_string none = []
go_string (some b) = until_nul b

-- C.GoBytes of a length that C.int made of a size_t: a negative one panics
unfoldable pub go_bytes : Bytes → ℕ → Option Bytes
go_bytes b len = let n = len % (2 ^ 32) in if ltb n (2 ^ 31) then some (take n b) else none

-- The JSON of the flags: none if it panics, and no JSON without a pointer or a length
abbrev pub as_json : Option Bytes → Option (Option Bytes)
as_json none = none
as_json (some b) = some (some b)

unfoldable pub metrics_json : Option Bytes → ℕ → Option (Option Bytes)
metrics_json none len = some none
metrics_json (some b) len = if len == 0 then some none else as_json (go_bytes b len)

-- The sources of insights_upload: an array of 2^28 pointers is sliced
unfoldable pub go_sources : Option (List (Option Bytes)) → ℕ → Option (List Bytes)
go_sources none len = some []
go_sources (some ps) len =
    if len == 0
    then some []
    else if ltb (2 ^ 28) len
    then none
    else some (map go_string (take len ps))

abbrev pub state_of : Result Bool → ConsentState
state_of (ok b) = if b then consent_true else consent_false
state_of (err e) = consent_unknown

abbrev pub opt_out_of : Result Bool → Bool
opt_out_of (ok b) = b
opt_out_of (err e) = false

-- A call of Go that needs an argument which may have panicked
abbrev pub with_arg : {A B : Type 0} → Option A → (A → World → B × World) → Call B
with_arg none f w = (none, w)
with_arg (some a) f w = let (b, w') = f a w in (some b, w')

abbrev pub shown : {A B : Type 0} → (Result A → B) → Io A → World → B × World
shown f m w = let (r, w') = m w in (f r, w')

module _ (message : Error → Bytes) where
  -- errToCString
  abbrev pub err_to_c_string : {A : Type 0} → Result A → Option Bytes
  err_to_c_string (ok a) = none
  err_to_c_string (err e) = some (until_nul (message e))

  -- The end of collectCustomInsights and of compileCustomInsights
  unfoldable pub report_to_c : Bool → Result Bytes → CReport
  report_to_c has_out (err e) = record {
    error = some (until_nul (message e));
    out = if has_out then written none else untouched;
  }
  report_to_c has_out (ok report) = record {
    error = none;
    out =
        if not has_out
        then untouched
        else if is_nil report
        then written none
        else written (some (until_nul report));
  }

module _ (path_of : Bytes → FilePath) where
  abbrev pub path_or_empty : Option Bytes → FilePath
  path_or_empty none = []
  path_or_empty (some b) = path_of (until_nul b)

  -- toGoInsightsConfig
  unfoldable pub to_go_insights_config : Option CConfig → Config
  to_go_insights_config none = record {
    consent_dir = [];
    insights_dir = [];
    system_config_dir = [];
  }
  to_go_insights_config (some c) = record {
    consent_dir = path_or_empty c.consent_dir;
    insights_dir = path_or_empty c.insights_dir;
    system_config_dir = path_or_empty c.system_config_dir;
  }

  abbrev collect_flags_with : CCollectFlags → Option (Option Bytes) → Option CollectFlags
  collect_flags_with f none = none
  collect_flags_with f (some json) = some (record {
    source_metrics_path = path_or_empty f.source_metrics_path;
    source_metrics_json = json;
    period = f.period;
    force = f.force;
    dry_run = f.dry_run;
  })

  unfoldable pub go_collect_flags : Option CCollectFlags → Option CollectFlags
  go_collect_flags none = some (record {
    source_metrics_path = [];
    source_metrics_json = none;
    period = 0;
    force = false;
    dry_run = false;
  })
  go_collect_flags (some f) =
      collect_flags_with f (metrics_json f.source_metrics_json f.source_metrics_json_len)

  abbrev compile_flags_with : CCompileFlags → Option (Option Bytes) → Option CompileFlags
  compile_flags_with f none = none
  compile_flags_with f (some json) = some (record {
    source_metrics_path = path_or_empty f.source_metrics_path;
    source_metrics_json = json;
  })

  unfoldable pub go_compile_flags : Option CCompileFlags → Option CompileFlags
  go_compile_flags none = some (record { source_metrics_path = []; source_metrics_json = none })
  go_compile_flags (some f) =
      compile_flags_with f (metrics_json f.source_metrics_json f.source_metrics_json_len)

abbrev pub go_write_flags : Option WriteFlags → WriteFlags
go_write_flags none = record { period = 0; force = false; dry_run = false }
go_write_flags (some f) = f

abbrev pub go_upload_flags : Option UploadFlags → UploadFlags
go_upload_flags none = record { min_age = 0; force = false; dry_run = false }
go_upload_flags (some f) = f
