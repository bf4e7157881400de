-- ===== src/Client/Api/AllSources.antt =====
-- An opt-out that the Go interface sets, and what an Upload of any sources sends.
use ubuntu_insights.Base.{false, Bytes, List, [], refl, some, true, ◌++◌, ◌∷◌, ◌≡◌, ◌≢◌}
use ubuntu_insights.Client.Api.{
  Config, Setup, UploadFlags, make_uploader, resolve, set_system_opt_out, upload_reports,
}
use ubuntu_insights.Client.Api.RoundTrip.{set_system_opt_out-Decodes}
use ubuntu_insights.Collector.{Codec}
use ubuntu_insights.Consent.{new_with_system_config}
use ubuntu_insights.Env.{HasTomlRoundTrip}
use ubuntu_insights.Report.Confined.{Stays}
use ubuntu_insights.System.Files.Trace.{OnTrace_elim, OnTrace_intro}
use ubuntu_insights.System.World.{FilePath, Io, Result, World, done, err, ok, opaque, pure, ◌>>=◌}
use ubuntu_insights.SystemConfig.{config_file, system_opt_out_key}
use ubuntu_insights.Uploader.AllOptOut.{
  OnTrace-get_all_sources, OnlyOptOutsAfter-same, OnlyOptOutsAfter-trans, Stays-get_all_sources,
  upload_all_opted_out,
}
use ubuntu_insights.Uploader.Confined.{PicksFrom}
use ubuntu_insights.Uploader.Privacy.{OnlyOptOutsAfter}
use ubuntu_insights.Uploader.Retry.{get_all_sources, new_uploader, sanitize, upload_all}
use ubuntu_insights.Uploader.Retry

module _ {K : Codec} (s : Setup K) (c : Config)
    (outside : (p : FilePath)
      → config_file (resolve s c).system_config_dir ≢ p ++ (resolve s c).insights_dir)
    (picks : PicksFrom s.order) where
  -- Upload of some sources, in a world whose system configuration opts out
  uploads_all :
      (sources : List Bytes) (flags : UploadFlags) (b : Bytes) (w : World)
      → s.env.toml_decode system_opt_out_key b ≡ some true
      → Stays (config_file (resolve s c).system_config_dir) b w
      → OnlyOptOutsAfter w.posts
          (upload_all
            (make_uploader s (resolve s c) flags.min_age flags.dry_run)
            sources
            flags.force
            false
            w).1.posts
  unfolding new_uploader
  uploads_all sources flags b w out stays =
      let r = resolve s c in
      upload_all_opted_out s.env (new_with_system_config r.consent_dir r.system_config_dir)
        (make_uploader s r flags.min_age flags.dry_run) r.system_config_dir b refl refl outside
        picks out sources flags.force w stays

  -- Upload without sources, from what was found on
  after_search :
      (found : Result (List Bytes)) (flags : UploadFlags) (b : Bytes) (w w1 : World)
      → w1.posts ≡ w.posts
      → s.env.toml_decode system_opt_out_key b ≡ some true
      → Stays (config_file (resolve s c).system_config_dir) b w1
      → let search_for : Io (List Bytes) = λ _. (opaque found, w1) in
        let none_named : Retry.Config = record {
          sources = [];
          min_age = flags.min_age;
          force = flags.force;
          dry_run = flags.dry_run;
          retry = false;
        } in
        OnlyOptOutsAfter w.posts
          (((search_for >>= λ all. pure (record none_named { sources = all })) >>= λ u_conf.
              upload_all
                (make_uploader s (resolve s c) u_conf.min_age u_conf.dry_run)
                u_conf.sources
                u_conf.force
                u_conf.retry)
            w).1.posts
  after_search (err f) flags b w w1 same out stays = OnlyOptOutsAfter-same w.posts w1.posts same
  after_search (ok all) flags b w w1 same out stays =
      OnlyOptOutsAfter-trans w.posts w1.posts _ (OnlyOptOutsAfter-same w.posts w1.posts same)
        (uploads_all all flags b w1 out stays)

  sends_opt_outs :
      (sources : List Bytes) (flags : UploadFlags) (b : Bytes) (w : World)
      → s.env.toml_decode system_opt_out_key b ≡ some true
      → Stays (config_file (resolve s c).system_config_dir) b w
      → OnlyOptOutsAfter w.posts (upload_reports s c sources flags w).1.posts
  unfolding upload_reports sanitize
  sends_opt_outs [] flags b w out stays =
      let d = (resolve s c).consent_dir in
      let w1 = (get_all_sources d w).1 in
      after_search (get_all_sources d w).0 flags b w w1
        (OnTrace_elim (λ posts _. posts ≡ w.posts) w1
          ((OnTrace-get_all_sources (λ posts _. posts ≡ w.posts) d).at w
            (OnTrace_intro (λ posts _. posts ≡ w.posts) w refl)))
        out ((Stays-get_all_sources (config_file (resolve s c).system_config_dir) b d).at w stays)
  sends_opt_outs (x ∷ xs) flags b w out stays = uploads_all (x ∷ xs) flags b w out stays

  -- After a SetSystemOptOut of true that returns no error, from any world, on any schedule of
  -- failing calls and of the server's answers: an Upload of any sources, or of all that there are,
  -- with any flags, sends nothing but opt-out payloads, whatever consent the user has given and
  -- whatever reports are waiting. (The file of the system configuration must not lie inside the
  -- directory of the reports, and the order in which a source's reports are handled must be one of
  -- these reports.)
  pub upload_reports_all-set_system_opt_out :
      (sources : List Bytes) (flags : UploadFlags) (w : World)
      → HasTomlRoundTrip s.env
      → (set_system_opt_out s c true w).0 ≡ done
      → let w1 = (set_system_opt_out s c true w).1 in
        OnlyOptOutsAfter w1.posts (upload_reports s c sources flags w1).1.posts
  unfolding Stays
  upload_reports_all-set_system_opt_out sources flags w laws h =
      let (b, at, out) = set_system_opt_out-Decodes s laws c true w h in
      sends_opt_outs sources flags b (set_system_opt_out s c true w).1 out at
