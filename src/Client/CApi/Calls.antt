-- ===== src/Client/CApi/Calls.antt =====
-- The exported functions of insights/C/libinsights.go.
use ubuntu_insights.Base.{Bool, Bytes, List, Option, ℕ}
use ubuntu_insights.Client.Api.{
  CollectFlags, CompileFlags, Config, Setup, UploadFlags, WriteFlags, collect, compile_report,
  get_consent_state, is_system_opt_out, set_consent_state, set_system_opt_out, upload_reports,
  write_report,
}
use ubuntu_insights.Client.CApi.{
  CCollectFlags, CCompileFlags, CConfig, CReport, Call, ConsentState, err_to_c_string,
  go_collect_flags, go_compile_flags, go_sources, go_string, go_upload_flags, go_write_flags,
  opt_out_of, report_to_c, shown, state_of, to_go_insights_config, with_arg,
}
use ubuntu_insights.Collector.{Codec}
use ubuntu_insights.System.World.{Error, FilePath, Io, World}

module _ (path_of : Bytes → FilePath) (message : Error → Bytes) where
  -- collectCustomInsights and compileCustomInsights
  unfoldable pub collect_custom_insights :
      Option CConfig
      → Option Bytes
      → Option CCollectFlags
      → Bool
      → (Config → Bytes → CollectFlags → Io Bytes)
      → Call CReport
  collect_custom_insights config source flags has_out custom_collector =
      with_arg (go_collect_flags path_of flags) (λ f.
        shown (report_to_c message has_out)
          (custom_collector (to_go_insights_config path_of config) (go_string source) f))

  unfoldable pub compile_custom_insights :
      Option CConfig
      → Option CCompileFlags
      → Bool
      → (Config → CompileFlags → Io Bytes)
      → Call CReport
  compile_custom_insights config flags has_out custom_compiler =
      with_arg (go_compile_flags path_of flags) (λ f.
        shown (report_to_c message has_out)
          (custom_compiler (to_go_insights_config path_of config) f))

  -- writeCustomInsights
  unfoldable pub write_custom_insights :
      Option CConfig
      → Option Bytes
      → Option Bytes
      → Option WriteFlags
      → (Config → Bytes → Bytes → WriteFlags → Io (Unit {0}))
      → World
      → Option Bytes × World
  write_custom_insights config source report flags custom_writer = shown (err_to_c_string message) (
      custom_writer (to_go_insights_config path_of config) (go_string source) (go_string report)
        (go_write_flags flags))

  -- uploadCustomInsights
  unfoldable pub upload_custom_insights :
      Option CConfig
      → Option (List (Option Bytes))
      → ℕ
      → Option UploadFlags
      → (Config → List Bytes → UploadFlags → Io (Unit {0}))
      → Call (Option Bytes)
  upload_custom_insights config sources sources_len flags custom_uploader =
      with_arg (go_sources sources sources_len) (λ go.
        shown (err_to_c_string message)
          (custom_uploader (to_go_insights_config path_of config) go (go_upload_flags flags)))

  module _ {K : Codec} (s : Setup K) where
    unfoldable pub insights_collect :
        Option CConfig → Option Bytes → Option CCollectFlags → Bool → Call CReport
    insights_collect config source flags has_out =
        collect_custom_insights config source flags has_out (collect s)

    unfoldable pub insights_compile : Option CConfig → Option CCompileFlags → Bool → Call CReport
    insights_compile config flags has_out =
        compile_custom_insights config flags has_out (compile_report s)

    unfoldable pub insights_write :
        Option CConfig
        → Option Bytes
        → Option Bytes
        → Option WriteFlags
        → World
        → Option Bytes × World
    insights_write config source report flags =
        write_custom_insights config source report flags (write_report s)

    unfoldable pub insights_upload :
        Option CConfig → Option (List (Option Bytes)) → ℕ → Option UploadFlags → Call (Option Bytes)
    insights_upload config sources sources_len flags =
        upload_custom_insights config sources sources_len flags (upload_reports s)

    unfoldable pub insights_set_consent_state :
        Option CConfig → Option Bytes → Bool → World → Option Bytes × World
    insights_set_consent_state config source new_state =
        shown (err_to_c_string message)
          (set_consent_state s (to_go_insights_config path_of config) (go_string source) new_state)

    unfoldable pub insights_set_system_opt_out_state :
        Option CConfig → Bool → World → Option Bytes × World
    insights_set_system_opt_out_state config state =
        shown (err_to_c_string message)
          (set_system_opt_out s (to_go_insights_config path_of config) state)

module _ (path_of : Bytes → FilePath) {K : Codec} (s : Setup K) where
  unfoldable pub insights_get_consent_state :
      Option CConfig → Option Bytes → World → ConsentState × World
  insights_get_consent_state config source =
      shown state_of (get_consent_state s (to_go_insights_config path_of config) (go_string source))

  unfoldable pub insights_get_system_opt_out_state : Option CConfig → World → Bool × World
  insights_get_system_opt_out_state config =
      shown opt_out_of (is_system_opt_out s (to_go_insights_config path_of config))
