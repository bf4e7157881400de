-- ===== src/Tests/Web.antt =====
-- The theorems on the web service, at concrete requests.
use ubuntu_insights.Base.{
  [], arith, bytes_dec, codes, list_dec, refl, some, true, ℕ_discrete, ◌∷◌, ◌≡◌, ◌≢◌,
}
use ubuntu_insights.Base.Decimal.{digits, format_ℕ}
use ubuntu_insights.Base.Dict.{erase, insert, lookup}
use ubuntu_insights.FileUtils.{
  atomic_write, fill_and_rename, remove_temp, write_file, write_file_with_perm,
}
use ubuntu_insights.Server.Handlers.{JsonHandler, Request, new_upload, serve_http}
use ubuntu_insights.Server.Handlers.Stored.{ServeOutcome, serve_http_outcome}
use ubuntu_insights.Server.Path.Dots.{IsBelow}
use ubuntu_insights.Server.Routes.{PrimaryConfig, Target, segments, serve_primary}
use ubuntu_insights.Server.Routes.Confined.{serve_primary_confined}
use ubuntu_insights.System.Files.{
  chmod, close, create_temp, mkdir_all, node_at, read_dir, read_file, remove, rename, stat, syscall,
  temp_name, write,
}
use ubuntu_insights.System.World.{FilePath, Sentinel-discrete, World, dir, file, path_dec}
use ubuntu_insights.Tests.Setting.{world_of}

abbrev server_dir : FilePath
server_dir = codes "reports" ∷ []

abbrev secret : FilePath
secret = codes "secret" ∷ []

abbrev server_world : World
server_world = world_of ((server_dir, dir) ∷ (secret, file (codes "x")) ∷ [])

-- Whatever the name, it is allowed.
abbrev web : JsonHandler
web = new_upload (λ app. true) server_dir 10 (λ b. true)

abbrev upload_request : Request
upload_request = record { method = codes "POST"; body = some (codes "{}"); req_id = codes "id" }

serve_http_outcome_example :
    ServeOutcome web
      (codes "app")
      upload_request
      server_world
      (serve_http web (codes "app") upload_request server_world)
serve_http_outcome_example = serve_http_outcome web (codes "app") upload_request server_world

not-IsBelow : ¬ IsBelow server_dir secret
not-IsBelow ([], e) = absurd (ne e)
  where
    ne : secret ≢ server_dir
    ne e = ground arith
not-IsBelow (x ∷ [], e) = absurd (ground arith)
not-IsBelow (x ∷ y ∷ q, e) = absurd (ground arith)

secret_at : node_at secret server_world.tree ≡ some (file (codes "x"))
unfolding write_file write_file_with_perm atomic_write fill_and_rename remove_temp create_temp write
    close rename chmod remove read_file stat read_dir mkdir_all node_at lookup insert erase path_dec
    bytes_dec list_dec ℕ_discrete temp_name format_ℕ digits Sentinel-discrete syscall
secret_at = refl

abbrev primary : PrimaryConfig
primary = record {
  is_allowed = λ app. true;
  reports_dir = server_dir;
  max_upload_bytes = 10;
  json_valid = λ b. true;
  version = codes "1";
}

-- A name with an escaped way out of the directory.
abbrev way_out : Target
way_out = segments (codes "upload" ∷ codes "a/../../secret" ∷ [])

serve_primary_confined_example :
    node_at secret (serve_primary primary way_out upload_request server_world).1.tree
    ≡ some (file (codes "x"))
serve_primary_confined_example =
    serve_primary_confined primary upload_request server_world secret (codes "x") not-IsBelow
      secret_at way_out
