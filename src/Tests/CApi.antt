-- ===== src/Tests/CApi.antt =====
-- Runs of the C interface.
use ubuntu_insights.Base.{
  Bytes, Option, [], codes, false, arith, none, refl, some, true, ◌+◌, ◌^◌, ◌∷◌, ◌≡◌,
}
use ubuntu_insights.Client.CApi.{CCollectFlags, CConfig, to_go_insights_config}
use ubuntu_insights.Client.CApi.Calls.{
  insights_collect, insights_set_system_opt_out_state, insights_upload,
}
use ubuntu_insights.Client.CApi.Promises.{
  insights_collect_wraps, insights_upload-insights_set_system_opt_out_state,
}
use ubuntu_insights.System.World.{Error, FilePath, World}
use ubuntu_insights.Tests.Application.{
  all_picked, config_outside, granted, opted_run, setup, upload_flags,
}
use ubuntu_insights.Tests.Setting.{digit_env-HasTomlRoundTrip, linux}
use ubuntu_insights.Uploader.Privacy.{OnlyOptOutsAfter}

abbrev one_name : Bytes → FilePath
one_name b = b ∷ []

abbrev failure : Error → Bytes
failure e = codes "failure"

-- A cache directory, and the default paths for the rest.
abbrev c_config : Option CConfig
c_config =
    some
      (record { consent_dir = none; insights_dir = some (codes "cache"); system_config_dir = none })

abbrev c_opted : World
c_opted = (insights_set_system_opt_out_state one_name failure setup c_config true granted).1

c_opted_run :
    (insights_set_system_opt_out_state one_name failure setup c_config true granted).0 ≡ none
unfolding insights_set_system_opt_out_state to_go_insights_config
c_opted_run = rw opted_run refl

insights_upload-insights_set_system_opt_out_state_example :
    OnlyOptOutsAfter c_opted.posts
      (insights_upload one_name failure setup c_config
        (some (some linux ∷ none ∷ []))
        2
        (some upload_flags)
        c_opted).1.posts
unfolding to_go_insights_config
insights_upload-insights_set_system_opt_out_state_example =
    insights_upload-insights_set_system_opt_out_state one_name failure setup c_config
      (some (some linux ∷ none ∷ [])) 2 (some upload_flags) granted digit_env-HasTomlRoundTrip
      config_outside all_picked c_opted_run

abbrev c_flags : CCollectFlags
c_flags = record {
  source_metrics_path = none;
  source_metrics_json = some (codes "{}");
  source_metrics_json_len = 2;
  period = 0;
  force = false;
  dry_run = false;
}

insights_collect_wraps_example :
    insights_collect one_name failure setup c_config
      (some linux)
      (some (record c_flags { source_metrics_json_len = 2 + 2 ^ 32 }))
      true
      granted
    ≡ insights_collect one_name failure setup c_config (some linux) (some c_flags) true granted
insights_collect_wraps_example =
    insights_collect_wraps one_name failure setup c_config (some linux) c_flags true granted
      (omega arith)
