-- ===== src/Server/Handlers.antt =====
-- server/internal/webservice/handlers: json_hander.go, upload.go, legacy_upload.go and version.go.
-- Metrics and logs are not modelled; the request's fresh UUID is an argument.
pub mod Stored
pub mod Confined
use ubuntu_insights.Base.{
  Bool, Bytes, Option, codes, if◌then◌else◌, is_nil, leb, length, none, not, same_bytes, some, ℕ,
  ◌++◌, ◌||◌, ◌∷◌,
}
use ubuntu_insights.FileUtils.{write_file}
use ubuntu_insights.Server.Config.{is_allowed}
use ubuntu_insights.Server.Path.{clean, contains, join_path}
use ubuntu_insights.System.Files.{mkdir_all}
use ubuntu_insights.System.World.{FilePath, Io, Status, World, err, ok}

-- http.Status...
abbrev pub status_ok : ℕ
status_ok = 200

abbrev pub status_accepted : ℕ
status_accepted = 202

abbrev pub status_bad_request : ℕ
status_bad_request = 400

abbrev pub status_forbidden : ℕ
status_forbidden = 403

abbrev pub status_method_not_allowed : ℕ
status_method_not_allowed = 405

abbrev pub status_internal_server_error : ℕ
status_internal_server_error = 500

-- A body is read as it is, or reading it fails.
pub record Request : Type 0 where
  pub method : Bytes
  pub body : Option Bytes
  pub req_id : Bytes

pub record JsonHandler : Type 0 where
  pub is_allowed : Bytes → Bool
  pub reports_dir : FilePath
  pub max_upload_size : ℕ
  pub success_status : ℕ
  pub json_valid : Bytes → Bool

-- io.ReadAll of http.MaxBytesReader
abbrev pub read_body : ℕ → Option Bytes → Option Bytes
read_body max_size none = none
read_body max_size (some b) = if leb (length b) max_size then some b else none

-- A handler's answer: the status of the response.
abbrev pub Handler : Type 0
Handler = World → ℕ × World

abbrev pub answer : ℕ → Handler
answer s w = (s, w)

-- The rest of a handler after a call that may fail, which is answered by 500.
abbrev pub or_internal_error : Status → Handler → Handler
or_internal_error (ok _) next = next
or_internal_error (err e) next = answer status_internal_server_error

abbrev pub require : Io (Unit {0}) → Handler → Handler
require m next w = let (r, w') = m w in or_internal_error r next w'

unfoldable pub target_path : FilePath → Bytes → Bytes → FilePath
target_path reports_dir app req_id = (req_id ++ codes ".json") ∷ join_path reports_dir app

-- serveHTTP, from the directory on
unfoldable pub save : JsonHandler → Bytes → Bytes → Bytes → Handler
save h app req_id json_data = require (mkdir_all (join_path h.reports_dir app)) (
    require (write_file (target_path h.reports_dir app req_id) json_data) (answer h.success_status))

abbrev pub serve_body : JsonHandler → Bytes → Bytes → Option Bytes → Handler
serve_body h app req_id none = answer status_bad_request
serve_body h app req_id (some b) =
    if h.json_valid b then save h app req_id b else answer status_bad_request

-- serveHTTP
unfoldable pub serve_http : JsonHandler → Bytes → Request → Handler
serve_http h app r =
    if not (h.is_allowed app)
    then answer status_forbidden
    else if not (same_bytes r.method (codes "POST"))
    then answer status_method_not_allowed
    else serve_body h app r.req_id (read_body h.max_upload_size r.body)

-- The test on a cleaned path value of a URL.
unfoldable pub is_bad_name : Bytes → Bool
is_bad_name s = is_nil s || same_bytes s (codes ".") || contains s (codes "..")

-- NewUpload and NewLegacyReport
abbrev pub new_upload : (Bytes → Bool) → FilePath → ℕ → (Bytes → Bool) → JsonHandler
new_upload cfg reports_dir max_size json_valid = record {
  is_allowed = cfg;
  reports_dir = reports_dir;
  max_upload_size = max_size;
  success_status = status_accepted;
  json_valid = json_valid;
}

abbrev pub new_legacy_report : (Bytes → Bool) → FilePath → ℕ → (Bytes → Bool) → JsonHandler
new_legacy_report cfg reports_dir max_size json_valid = record {
  is_allowed = cfg;
  reports_dir = reports_dir;
  max_upload_size = max_size;
  success_status = status_ok;
  json_valid = json_valid;
}

-- Upload.ServeHTTP, on the path value "app"
unfoldable pub serve_upload : JsonHandler → Bytes → Request → Handler
serve_upload h app_value r =
    let app = clean app_value in
    if is_bad_name app then answer status_forbidden else serve_http h app r

abbrev pub legacy_report_tag : Bytes
legacy_report_tag = codes "ubuntu-report"

unfoldable pub legacy_app : Bytes → Bytes → Bytes
legacy_app distribution version =
    legacy_report_tag ++ (codes "/" ++ (distribution ++ (codes "/desktop/" ++ version)))

-- LegacyReport.ServeHTTP, on the path values "distribution" and "version"
unfoldable pub serve_legacy_report : JsonHandler → Bytes → Bytes → Request → Handler
serve_legacy_report h distribution_value version_value r =
    let distribution = clean distribution_value in
    let version = clean version_value in
    if is_bad_name distribution
    then answer status_forbidden
    else if is_bad_name version
    then answer status_forbidden
    else serve_http h (legacy_app distribution version) r

-- VersionHandler: the status and the body
unfoldable pub version_handler : Bytes → Bytes → ℕ × Bytes
version_handler version method =
    if not (same_bytes method (codes "GET"))
    then (status_method_not_allowed, codes "Method not allowed")
    else (status_ok, codes "{\"version\":\"" ++ (version ++ codes "\"}"))
