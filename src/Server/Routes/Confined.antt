-- ===== src/Server/Routes/Confined.antt =====
-- What the requests to the primary server can do to the files.
use ubuntu_insights.Base.{Bool, Bytes, codes, false, same_bytes, some, true, ◌≡◌, ◌||◌}
use ubuntu_insights.Server.Handlers.{Handler, Request, serve_legacy_report, serve_upload}
use ubuntu_insights.Server.Handlers.Confined.{serve_legacy_report_confined, serve_upload_confined}
use ubuntu_insights.Server.Path.Dots.{IsBelow}
use ubuntu_insights.Server.Routes.{
  PrimaryConfig, Route, Target, for_method, legacy_route, legacy_upload_handler, no_route, route_of,
  segments, serve_primary, serve_route, unclean, upload_handler, upload_route, version_route,
}
use ubuntu_insights.System.Files.{node_at}
use ubuntu_insights.System.World.{FilePath, World, file}

module _ (c : PrimaryConfig) (r : Request) (w : World) (q : FilePath) (a : Bytes)
    (outside : ¬ IsBelow c.reports_dir q) (kept : node_at q w.tree ≡ some (file a)) where
  for_method_confined :
      (allowed : Bool) (h : Handler)
      → node_at q (h w).1.tree ≡ some (file a)
      → node_at q (for_method allowed h w).1.tree ≡ some (file a)
  for_method_confined true h e = e
  for_method_confined false h e = kept

  serve_route_confined :
      (route : Route) → node_at q (serve_route c route r w).1.tree ≡ some (file a)
  unfolding serve_route
  serve_route_confined (upload_route app) =
      for_method_confined (same_bytes r.method (codes "POST"))
        (serve_upload (upload_handler c) app r)
        (serve_upload_confined (upload_handler c) r w q a outside kept app)
  serve_route_confined (legacy_route distribution version) =
      for_method_confined (same_bytes r.method (codes "POST"))
        (serve_legacy_report (legacy_upload_handler c) distribution version r)
        (serve_legacy_report_confined (legacy_upload_handler c) r w q a outside kept distribution
          version)
  serve_route_confined (version_route) =
      for_method_confined (same_bytes r.method (codes "GET") || same_bytes r.method (codes "HEAD"))
        (λ w'. (_, w')) kept
  serve_route_confined (no_route) = kept

  -- Whatever a request's method, path and body, and whatever names the configuration allows: the
  -- primary server leaves every file that is not below the directory of the reports as it is.
  pub serve_primary_confined :
      (target : Target) → node_at q (serve_primary c target r w).1.tree ≡ some (file a)
  unfolding serve_primary
  serve_primary_confined (segments l) = serve_route_confined (route_of l)
  serve_primary_confined (unclean) = kept
