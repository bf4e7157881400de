-- ===== src/Server/Handlers/Stored.antt =====
-- What an upload stores, and where.
use ubuntu_insights.Base.{
  Bool-cases, Bytes, Option, arith, bytes_dec, codes, false, inl, inr, leb, leb-false→lt, leb→le,
  length, none, refl, same_bytes, some, subst, true, ℕ, ◌++◌, ◌<◌, ◌∙◌, ◌∷◌, ◌≡◌, ◌≢◌, ◌≤◌, ◌⊎◌,
}
use ubuntu_insights.FileUtils.{write_file}
use ubuntu_insights.FileUtils.Atomic.{atomic_write-done, atomic_write-OldOrNew, temp_path}
use ubuntu_insights.FileUtils.Temp.{ne-temp_path}
use ubuntu_insights.Server.Handlers.{
  Handler, JsonHandler, Request, or_internal_error, read_body, require, save, serve_body,
  serve_http, status_bad_request, status_forbidden, status_internal_server_error,
  status_method_not_allowed, target_path,
}
use ubuntu_insights.Server.Path.{join_path}
use ubuntu_insights.System.Files.{mkdir_all, node_at, temp_name}
use ubuntu_insights.System.Files.Laws.{mkdir_all_keeps}
use ubuntu_insights.System.World.{FilePath, Io, Status, World, done, err, file, ok}

module _ (C : ℕ → World → Type 0) where
  or_internal_elim :
      (r : Status) (next : Handler) (w : World)
      → (r ≡ done → C (next w).0 (next w).1)
      → C status_internal_server_error w
      → C (or_internal_error r next w).0 (or_internal_error r next w).1
  or_internal_elim (ok tt) next w hf he = hf refl
  or_internal_elim (err e) next w hf he = he

  require_elim :
      (m : Io (Unit {0})) (next : Handler) (w : World)
      → ((m w).0 ≡ done → C (next (m w).1).0 (next (m w).1).1)
      → C status_internal_server_error (m w).1
      → C (require m next w).0 (require m next w).1
  require_elim m next w hf he = let (r, w') = m w in or_internal_elim r next w' hf he

-- A stored report is no temporary file.
target_no_temp :
    (d : FilePath) (app req_id : Bytes) (w : World)
    → target_path d app req_id ≢ temp_path (target_path d app req_id) w
unfolding target_path
target_no_temp d app req_id w =
    ne-temp_path req_id (codes "json") b'.' (join_path d app) w (omega arith)

module _ (h : JsonHandler) (app req_id b : Bytes) where
  abbrev target : FilePath
  target = target_path h.reports_dir app req_id

  target_stored :
      (w : World)
      → (write_file target b w).0 ≡ done
      → node_at target (write_file target b w).1.tree ≡ some (file b)
  unfolding write_file target_path
  target_stored w e =
      let d = join_path h.reports_dir app in
      ground (
        arith,
        atomic_write-done (req_id ++ codes ".json") d b 0 w target
            (target_no_temp h.reports_dir app req_id w) e,
      )

  others_kept :
      (w : World) (q : FilePath) (a : Bytes)
      → ((n : Bytes) → q ≢ n ∷ join_path h.reports_dir app)
      → node_at q w.tree ≡ some (file a)
      → node_at q (write_file target b w).1.tree ≡ some (file a)
  unfolding write_file target_path
  others_kept w q a out e =
      let d = join_path h.reports_dir app in
      elim (atomic_write-OldOrNew (req_id ++ codes ".json") d b 0 w q
        (out (temp_name (w.random w.draws)))) [
          | inl same ↦ same ∙ e
          | inr new ↦ absurd (out (req_id ++ codes ".json") new.0)
        ]

  -- Saving stores the data and answers the handler's status, or it is answered by 500.
  save_stores :
      (w : World)
      → ((save h app req_id b w).0 ≡ status_internal_server_error)
        ⊎ (((save h app req_id b w).0 ≡ h.success_status)
            × (node_at target (save h app req_id b w).1.tree ≡ some (file b)))
  unfolding save target_path
  save_stores w =
      let d = join_path h.reports_dir app in
      let C : ℕ → World → Type 0 = λ s w'.
        (s ≡ status_internal_server_error)
        ⊎ ((s ≡ h.success_status) × (node_at target w'.tree ≡ some (file b))) in
      require_elim C (mkdir_all d) _ w
        (λ _.
          let w1 = (mkdir_all d w).1 in
          require_elim C (write_file target b) _ w1 (λ e. inr (refl, target_stored w1 e))
            (inl refl))
        (inl refl)

  -- Saving keeps each file that is neither the target nor the temporary file.
  pub save_keeps :
      (w : World) (q : FilePath) (a : Bytes)
      → ((n : Bytes) → q ≢ n ∷ join_path h.reports_dir app)
      → node_at q w.tree ≡ some (file a)
      → node_at q (save h app req_id b w).1.tree ≡ some (file a)
  unfolding save target_path
  save_keeps w q a out e =
      let d = join_path h.reports_dir app in
      let C : ℕ → World → Type 0 = λ s w'. node_at q w'.tree ≡ some (file a) in
      require_elim C (mkdir_all d) _ w
        (λ _.
          let w1 = (mkdir_all d w).1 in
          let kept : node_at q w1.tree ≡ some (file a) = mkdir_all_keeps d q (file a) w e in
          require_elim C (write_file target b) _ w1 (λ _. others_kept w1 q a out kept)
            (others_kept w1 q a out kept))
        (mkdir_all_keeps d q (file a) w e)

module _ (h : JsonHandler) (app : Bytes) (r : Request) (w : World) where
  -- The response and the world after it, on every branch of serveHTTP.
  abbrev pub ServeOutcome : ℕ × World → Type 0
  ServeOutcome (s, w') =
      ((s ≡ status_forbidden) × (h.is_allowed app ≡ false) × (w' ≡ w))
      ⊎ ((s ≡ status_method_not_allowed)
          × (h.is_allowed app ≡ true)
          × (r.method ≢ codes "POST")
          × (w' ≡ w))
      ⊎ ((s ≡ status_bad_request)
          × (h.is_allowed app ≡ true)
          × (r.method ≡ codes "POST")
          × ((r.body ≡ none)
              ⊎ ((b : Bytes) × (r.body ≡ some b)
                  × ((h.max_upload_size < length b) ⊎ (h.json_valid b ≡ false))))
          × (w' ≡ w))
      ⊎ ((b : Bytes) × (h.is_allowed app ≡ true)
          × (r.method ≡ codes "POST")
          × (r.body ≡ some b)
          × (length b ≤ h.max_upload_size)
          × (h.json_valid b ≡ true)
          × ((s ≡ status_internal_server_error)
              ⊎ ((s ≡ h.success_status)
                  × (node_at (target_path h.reports_dir app r.req_id) w'.tree ≡ some (file b)))))

  body_outcome :
      h.is_allowed app ≡ true
      → r.method ≡ codes "POST"
      → (o : Option Bytes) → r.body ≡ o
      → ServeOutcome (serve_body h app r.req_id (read_body h.max_upload_size o) w)
  body_outcome a m none e = inr (inr (inl (refl, a, m, inl e, refl)))
  body_outcome a m (some b) e = elim (Bool-cases (leb (length b) h.max_upload_size)) [
    | inl fits ↦ elim (Bool-cases (h.json_valid b)) [
      | inl valid ↦
          rw (fits, valid)
            (inr (
              inr (
                inr (
                  b,
                  a,
                  m,
                  e,
                  leb→le (length b) h.max_upload_size fits,
                  valid,
                  save_stores h app r.req_id b w,
                ))))
      | inr bad ↦ rw (fits, bad) (inr (inr (inl (refl, a, m, inr (b, e, inr bad), refl))))
    ]
    | inr over ↦ rw over (
        inr (
          inr (
            inl (
              refl,
              a,
              m,
              inr (b, e, inl (leb-false→lt (length b) h.max_upload_size over)),
              refl,
            ))))
  ]

  method_cases :
      (m : Bytes)
      → ((same_bytes m (codes "POST") ≡ true) × (m ≡ codes "POST"))
        ⊎ ((same_bytes m (codes "POST") ≡ false) × (m ≢ codes "POST"))
  method_cases m = elim (bytes_dec m (codes "POST")) [
    | yes e ↦ inl (ground arith, e)
    | no n ↦ inr (ground arith, n)
  ]

  reaches_body :
      h.is_allowed app ≡ true
      → same_bytes r.method (codes "POST") ≡ true
      → serve_body h app r.req_id (read_body h.max_upload_size r.body) w ≡ serve_http h app r w
  unfolding serve_http
  reaches_body a e = rw (a, e) refl

  -- serveHTTP answers 403 to a name that is not allowed, 405 to a method other than POST, 400 to a
  -- body that cannot be read, is too long or is no valid JSON, all without a change to the files;
  -- otherwise it answers 500, or its success status, and then the report's file holds the body.
  pub serve_http_outcome : ServeOutcome (serve_http h app r w)
  unfolding serve_http
  serve_http_outcome = elim (Bool-cases (h.is_allowed app)) [
    | inr f ↦ rw f (inl (refl, refl, refl))
    | inl a ↦ elim (method_cases r.method) [
      | inl (e, m) ↦ subst ServeOutcome (reaches_body a e) (body_outcome a m r.body refl)
      | inr (e, m) ↦ rw (a, e) (inr (inl (refl, refl, m, refl)))
    ]
  ]
