-- ===== src/Client/CApi/Promises.antt =====
-- What the exported functions of the C interface keep of the Go interface's promises, and what the
-- passage of a size_t through an int does.
use ubuntu_insights.Base.{
  Bool, Bytes, List, ◌++◌, ◌≢◌, Option, arith, false, if◌then◌else◌, ltb, none, take, refl, some,
  true, ap, ℕ, ◌%◌, ◌+◌, ◌<◌, ◌==◌, ◌^◌, ◌≡◌,
}
use ubuntu_insights.Client.Api.{
  Config, Setup, UploadFlags, resolve, set_system_opt_out, upload_reports,
}
use ubuntu_insights.Client.Api.AllSources.{upload_reports_all-set_system_opt_out}
use ubuntu_insights.Client.CApi.{
  CCollectFlags, CConfig, as_json, err_to_c_string, go_bytes, go_collect_flags, go_sources,
  go_upload_flags, metrics_json, shown, with_arg, to_go_insights_config,
}
use ubuntu_insights.Client.CApi.Calls.{
  collect_custom_insights, insights_collect, insights_set_system_opt_out_state, insights_upload,
  upload_custom_insights,
}
use ubuntu_insights.Collector.{Codec}
use ubuntu_insights.Env.{HasTomlRoundTrip}
use ubuntu_insights.System.World.{Error, FilePath, Status, World, done, err, ok}
use ubuntu_insights.SystemConfig.{config_file}
use ubuntu_insights.Uploader.AllOptOut.{OnlyOptOutsAfter-same}
use ubuntu_insights.Uploader.Confined.{PicksFrom}
use ubuntu_insights.Uploader.Privacy.{OnlyOptOutsAfter}

no_error : (message : Error → Bytes) (r : Status) → err_to_c_string message r ≡ none → r ≡ done
no_error message (ok _) h = refl
no_error message (err e) h = absurd (ground arith)

same_remainder : (n : ℕ) → (n + 2 ^ 32) % 2 ^ 32 ≡ n % 2 ^ 32
same_remainder n = omega arith

go_bytes_wraps : (b : Bytes) (n : ℕ) → go_bytes b (n + 2 ^ 32) ≡ go_bytes b n
unfolding go_bytes
go_bytes_wraps b n = ap (λ k. if ltb k (2 ^ 31) then some (take k b) else none) (same_remainder n)

not_empty : (n : ℕ) → 0 < n → (n == 0) ≡ false
not_empty n h = ground arith

metrics_json_wraps :
    (b : Option Bytes) (n : ℕ) → 0 < n → metrics_json b (n + 2 ^ 32) ≡ metrics_json b n
unfolding metrics_json
metrics_json_wraps none n pos_n = refl
metrics_json_wraps (some b) n pos_n =
    rw (not_empty n pos_n)
      (rw (not_empty (n + 2 ^ 32) (omega arith)) (ap as_json (go_bytes_wraps b n)))

module _ (path_of : Bytes → FilePath) (message : Error → Bytes) {K : Codec} (s : Setup K) where
  -- After an insights_set_system_opt_out_state of true that returns NULL, from any world, on any
  -- schedule of failing calls and of the server's answers: an insights_upload of any array of
  -- sources, or of none for all of them, with any flags, sends nothing but opt-out payloads. (The file
  -- of the system configuration must not lie inside the directory of the reports, and the order in
  -- which a source's reports are handled must be one of these reports.)
  pub insights_upload-insights_set_system_opt_out_state :
      (config : Option CConfig) (sources : Option (List (Option Bytes))) (len : ℕ)
      (flags : Option UploadFlags) (w : World)
      → HasTomlRoundTrip s.env
      → (let r = resolve s (to_go_insights_config path_of config) in
          (p : FilePath) → config_file r.system_config_dir ≢ p ++ r.insights_dir)
      → PicksFrom s.order
      → (insights_set_system_opt_out_state path_of message s config true w).0 ≡ none
      → let w1 = (insights_set_system_opt_out_state path_of message s config true w).1 in
        OnlyOptOutsAfter w1.posts
          (insights_upload path_of message s config sources len flags w1).1.posts
  unfolding insights_set_system_opt_out_state insights_upload upload_custom_insights
  insights_upload-insights_set_system_opt_out_state config sources len flags w laws outside picks
        h =
      by_sources (go_sources sources len)
    where
      c : Config
      c = to_go_insights_config path_of config

      w1 : World
      w1 = (set_system_opt_out s c true w).1

      by_sources :
          (o : Option (List Bytes))
          → OnlyOptOutsAfter w1.posts
              (with_arg o
                (λ go.
                  shown (err_to_c_string message) (upload_reports s c go (go_upload_flags flags)))
                w1).1.posts
      by_sources none = OnlyOptOutsAfter-same w1.posts w1.posts refl
      by_sources (some go) =
          upload_reports_all-set_system_opt_out s c outside picks go (go_upload_flags flags) w laws
            (no_error message (set_system_opt_out s c true w).0 h)

  -- A length of the source metrics that is not 0 counts modulo 2^32: insights_collect does the same,
  -- in every world, if it is 2^32 more.
  pub insights_collect_wraps :
      (config : Option CConfig) (source : Option Bytes) (f : CCollectFlags) (has_out : Bool)
      (w : World)
      → 0 < f.source_metrics_json_len
      → insights_collect path_of message s config source
          (some (record f { source_metrics_json_len = f.source_metrics_json_len + 2 ^ 32 }))
          has_out
          w
        ≡ insights_collect path_of message s config source (some f) has_out w
  unfolding insights_collect collect_custom_insights go_collect_flags
  insights_collect_wraps config source f has_out w h =
      rw (metrics_json_wraps f.source_metrics_json f.source_metrics_json_len h) refl
