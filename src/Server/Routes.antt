-- ===== src/Server/Routes.antt =====
-- The routes of the primary server: setupPrimaryMux of server/internal/webservice/webservice.go, on
-- http.ServeMux. The middleware, which measures and logs, and the timeout of a request are not
-- modelled.
pub mod Confined
use ubuntu_insights.Base.{
  Bool, Bytes, List, [], codes, if◌then◌else◌, is_nil, not, same_bytes, ℕ, ◌&&◌, ◌||◌, ◌∷◌,
}
use ubuntu_insights.Server.Handlers.{
  Handler, JsonHandler, Request, answer, new_legacy_report, new_upload, serve_legacy_report,
  serve_upload, status_method_not_allowed, version_handler,
}
use ubuntu_insights.System.World.{FilePath}

-- A request's path as the multiplexer sees it: the segments of a clean one, each unescaped, so that
-- it may hold any byte, or one that is not clean and that it redirects.
pub data Target : Type 0 where
  segments : List Bytes → Target
  unclean : Target

-- The pattern that a path matches, with the path values of its wildcards, which are not empty
pub data Route : Type 0 where
  upload_route : Bytes → Route
  legacy_route : Bytes → Bytes → Route
  version_route : Route
  no_route : Route

abbrev pub status_moved_permanently : ℕ
status_moved_permanently = 301

abbrev pub status_not_found : ℕ
status_not_found = 404

abbrev is_segment : Bytes → Bytes → Bool
is_segment s literal = same_bytes s literal

-- POST /upload/{app}, POST /{distribution}/desktop/{version} and GET /version, without the methods
unfoldable pub route_of : List Bytes → Route
route_of [] = no_route
route_of (v ∷ []) = if is_segment v (codes "version") then version_route else no_route
route_of (u ∷ app ∷ []) =
    if is_segment u (codes "upload") && not (is_nil app) then upload_route app else no_route
route_of (distribution ∷ d ∷ version ∷ []) =
    if is_segment d (codes "desktop") && not (is_nil distribution) && not (is_nil version)
    then legacy_route distribution version
    else no_route
route_of (a ∷ b ∷ c ∷ d ∷ l) = no_route

-- The handler of a pattern, if the method is one of it; a HEAD counts as a GET
abbrev pub for_method : Bool → Handler → Handler
for_method allowed h = if allowed then h else answer status_method_not_allowed

-- What setupPrimaryMux is given: IsAllowed of the configuration, and the static configuration
pub record PrimaryConfig : Type 0 where
  pub is_allowed : Bytes → Bool
  pub reports_dir : FilePath
  pub max_upload_bytes : ℕ
  pub json_valid : Bytes → Bool
  pub version : Bytes

abbrev pub upload_handler : PrimaryConfig → JsonHandler
upload_handler c = new_upload c.is_allowed c.reports_dir c.max_upload_bytes c.json_valid

abbrev pub legacy_upload_handler : PrimaryConfig → JsonHandler
legacy_upload_handler c =
    new_legacy_report c.is_allowed c.reports_dir c.max_upload_bytes c.json_valid

abbrev is_post : Request → Bool
is_post r = same_bytes r.method (codes "POST")

abbrev is_get : Request → Bool
is_get r = same_bytes r.method (codes "GET") || same_bytes r.method (codes "HEAD")

unfoldable pub serve_route : PrimaryConfig → Route → Request → Handler
serve_route c (upload_route app) r = for_method (is_post r) (serve_upload (upload_handler c) app r)
serve_route c (legacy_route distribution version) r =
    for_method (is_post r) (serve_legacy_report (legacy_upload_handler c) distribution version r)
serve_route c version_route r =
    for_method (is_get r) (answer (version_handler c.version r.method).0)
serve_route c no_route r = answer status_not_found

-- The primary server's answer to a request
unfoldable pub serve_primary : PrimaryConfig → Target → Request → Handler
serve_primary c (segments l) r = serve_route c (route_of l) r
serve_primary c unclean r = answer status_moved_permanently
