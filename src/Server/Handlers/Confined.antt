-- ===== src/Server/Handlers/Confined.antt =====
-- No request reaches a file outside the directory of the reports.
use ubuntu_insights.Base.{
  Bool-cases, Bytes, Option, ap, arith, codes, false, inl, inr, none, refl, same_bytes, some, ◌++◌,
  ◌∙◌, ◌∷◌, ◌≡◌, ◌≢◌,
}
use ubuntu_insights.Server.Handlers.{
  JsonHandler, Request, is_bad_name, legacy_app, legacy_report_tag, read_body, serve_body,
  serve_http, serve_legacy_report, serve_upload,
}
use ubuntu_insights.Server.Handlers.Stored.{save_keeps}
use ubuntu_insights.Server.Path.{clean, contains, dot_dot, has_prefix, join_path}
use ubuntu_insights.Server.Path.Append.{contains-append}
use ubuntu_insights.Server.Path.Dots.{IsBelow, join_path-IsBelow}
use ubuntu_insights.System.Files.{node_at}
use ubuntu_insights.System.World.{FilePath, World, file}

module _ (h : JsonHandler) (r : Request) (w : World) (q : FilePath) (a : Bytes)
    (outside : ¬ IsBelow h.reports_dir q) (kept : node_at q w.tree ≡ some (file a)) where
  outside_target :
      (app : Bytes)
      → contains app dot_dot ≡ false
      → (n : Bytes) → q ≢ n ∷ join_path h.reports_dir app
  outside_target app c n e =
      let (p, below) = join_path-IsBelow h.reports_dir app c in
      outside (n ∷ p, e ∙ ap (λ x. n ∷ x) below)

  body_confined :
      (app : Bytes) (o : Option Bytes)
      → contains app dot_dot ≡ false
      → node_at q (serve_body h app r.req_id o w).1.tree ≡ some (file a)
  body_confined app none c = kept
  body_confined app (some b) c = elim (Bool-cases (h.json_valid b)) [
    | inl e ↦ rw e (save_keeps h app r.req_id b w q a (outside_target app c) kept)
    | inr e ↦ rw e kept
  ]

  serve_http_confined :
      (app : Bytes)
      → contains app dot_dot ≡ false
      → node_at q (serve_http h app r w).1.tree ≡ some (file a)
  unfolding serve_http
  serve_http_confined app c = elim (Bool-cases (h.is_allowed app)) [
    | inr f ↦ rw f kept
    | inl t ↦ elim (Bool-cases (same_bytes r.method (codes "POST"))) [
      | inl e ↦ rw (t, e) (body_confined app (read_body h.max_upload_size r.body) c)
      | inr e ↦ rw (t, e) kept
    ]
  ]

  good_name : (s : Bytes) → is_bad_name s ≡ false → contains s dot_dot ≡ false
  unfolding is_bad_name
  good_name s e = ground arith

  -- Whatever name is in the URL and whatever names are allowed, an upload request leaves every file
  -- that is not below the directory of the reports as it is.
  pub serve_upload_confined :
      (app_value : Bytes) → node_at q (serve_upload h app_value r w).1.tree ≡ some (file a)
  unfolding serve_upload
  serve_upload_confined app_value = elim (Bool-cases (is_bad_name (clean app_value))) [
    | inl e ↦ rw e kept
    | inr e ↦ rw e (serve_http_confined (clean app_value) (good_name (clean app_value) e))
  ]

  legacy_app_no_dots :
      (d v : Bytes)
      → contains d dot_dot ≡ false
      → contains v dot_dot ≡ false
      → contains (legacy_app d v) dot_dot ≡ false
  unfolding legacy_app contains has_prefix
  legacy_app_no_dots d v hd hv =
      contains-append legacy_report_tag (d ++ (codes "/desktop/" ++ v)) b'/' refl refl (
        contains-append d (codes "desktop/" ++ v) b'/' refl hd
          (contains-append (codes "desktop") v b'/' refl refl hv))

  -- A legacy request, too, leaves every file outside the directory of the reports as it is.
  pub serve_legacy_report_confined :
      (distribution version : Bytes)
      → node_at q (serve_legacy_report h distribution version r w).1.tree ≡ some (file a)
  unfolding serve_legacy_report
  serve_legacy_report_confined distribution version =
      elim (Bool-cases (is_bad_name (clean distribution))) [
        | inl e ↦ rw e kept
        | inr e ↦ elim (Bool-cases (is_bad_name (clean version))) [
          | inl f ↦ rw (e, f) kept
          | inr f ↦
              rw (e, f)
                (serve_http_confined (legacy_app (clean distribution) (clean version)) (
                  legacy_app_no_dots (clean distribution) (clean version)
                    (good_name (clean distribution) e) (good_name (clean version) f)))
        ]
      ]
