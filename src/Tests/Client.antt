-- ===== src/Tests/Client.antt =====
-- The theorems on consent, on the uploader and on the collector, at concrete settings.
use ubuntu_insights.Base.{
  Bool, List, [], bytes_dec, codes, false, inl, list_dec, refl, true, ℕ, ℕ_discrete, ◌≡◌, some,
  arith,
}
use ubuntu_insights.Base.Decimal.{digits, format_ℕ}
use ubuntu_insights.Base.Dict.{erase, insert, lookup}
use ubuntu_insights.Consent.{
  consent_file, consent_state_key, get_state, raw_state, read_consent, system_opt_out,
}
use ubuntu_insights.Consent.Laws.{Decodes, get_state_granted}
use ubuntu_insights.FileUtils.{
  atomic_write, fill_and_rename, remove_temp, write_file, write_file_with_perm,
}
use ubuntu_insights.System.Files.{
  chmod, close, create_temp, mkdir_all, node_at, read_dir, read_file, remove, rename, stat, syscall,
  temp_name, write,
}
use ubuntu_insights.System.Files.Trace.{OnTrace}
use ubuntu_insights.System.Keeps.{Keeps}
use ubuntu_insights.System.World.{Status, Result, Sentinel-discrete, World, err, ok, path_dec}
use ubuntu_insights.SystemConfig.{config_file, decode_file, is_opted_out, system_opt_out_key}
use ubuntu_insights.Tests.Setting.{
  digit_env, granted_tree, linux, linux_uploader, opted_out_tree, system_dir, system_manager,
  world_of,
}
use ubuntu_insights.Uploader.{default_options, upload}
use ubuntu_insights.Uploader.Backoff.{Paused, backoff_upload_pauses, pause_bound}
use ubuntu_insights.Uploader.OptOut.{OnTrace-get_state, upload_opted_out}
use ubuntu_insights.Uploader.Privacy.{OnlyOptOutsAfter}
use ubuntu_insights.Uploader.Retry.{backoff, backoff_upload}

abbrev granted : World
granted = world_of granted_tree

abbrev opted_out : World
opted_out = world_of opted_out_tree

granted_run : (get_state digit_env system_manager linux granted).0 ≡ ok true
unfolding get_state raw_state read_consent system_opt_out is_opted_out decode_file write_file
    write_file_with_perm atomic_write fill_and_rename remove_temp create_temp write close rename
    chmod remove read_file stat read_dir mkdir_all node_at lookup insert erase path_dec bytes_dec
    list_dec ℕ_discrete temp_name format_ℕ digits Sentinel-discrete syscall
granted_run = refl

get_state_granted_example :
    Decodes digit_env consent_state_key (consent_file digit_env system_manager linux) true granted
get_state_granted_example = get_state_granted digit_env system_manager linux granted granted_run

opt_out-Decodes : Decodes digit_env system_opt_out_key (config_file system_dir) true opted_out
unfolding write_file write_file_with_perm atomic_write fill_and_rename remove_temp create_temp write
    close rename chmod remove read_file stat read_dir mkdir_all node_at lookup insert erase path_dec
    bytes_dec list_dec ℕ_discrete temp_name format_ℕ digits Sentinel-discrete syscall
opt_out-Decodes = (codes "1", refl, refl)

upload_opted_out_example : OnlyOptOutsAfter [] (upload linux_uploader linux false opted_out).1.posts
upload_opted_out_example =
    upload_opted_out digit_env system_manager linux_uploader linux opted_out false refl
      (inl (system_dir, refl, opt_out-Decodes))

asked : Result Bool → Bool
asked (ok v) = v
asked (err e) = false

silent_consent :
    (Q : List ℕ → Type 0)
    → Keeps (OnTrace (λ _ slept. Q slept)) (get_state digit_env system_manager linux)
silent_consent Q = OnTrace-get_state digit_env (λ _ slept. Q slept) system_manager linux

backoff_upload_pauses_example :
    ((r : Status) × ((backoff linux_uploader linux false 16 0 opted_out).0 ≡ ok (some r))
      × ((backoff_upload linux_uploader linux false opted_out).0 ≡ r))
    × Paused [] 15
        (pause_bound default_options)
        (backoff_upload linux_uploader linux false opted_out).1.slept
backoff_upload_pauses_example =
    backoff_upload_pauses linux_uploader linux false silent_consent opted_out (omega arith)
