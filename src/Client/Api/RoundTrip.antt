-- ===== src/Client/Api/RoundTrip.antt =====
-- Setting a state through the Go interface, and asking for it.
use ubuntu_insights.Base.{Bool, Bytes, ap, arith, false, refl, suc, ◌≡◌}
use ubuntu_insights.Client.Api.{
  Config, Setup, get_consent_state, is_system_opt_out, resolve, set_consent_state,
  set_system_opt_out, warn_if_system_opted_out,
}
use ubuntu_insights.Collector.{Codec}
use ubuntu_insights.Consent.{consent_file, consent_state_key, new_manager}
use ubuntu_insights.Consent.Laws.{Decodes, is_opted_out_tree}
use ubuntu_insights.Consent.RoundTrip.{Decodes-get, set_state-Decodes}
use ubuntu_insights.Env.{Env, HasTomlRoundTrip}
use ubuntu_insights.System.Calm.{IsCalm}
use ubuntu_insights.System.Files.{read_file}
use ubuntu_insights.System.World.{FilePath, World, done, ok, opaque}
use ubuntu_insights.SystemConfig.{config_file, decode_file, is_opted_out, system_opt_out_key}
use ubuntu_insights.SystemConfig.Stored.{set_opt_out-Decodes}

module _ (env : Env) where
  is_opted_out_fault : (d : FilePath) (w : World) → (is_opted_out env d w).1.fault ≡ w.fault
  unfolding is_opted_out decode_file read_file
  is_opted_out_fault d w = ground arith

  is_opted_out_calls : (d : FilePath) (w : World) → (is_opted_out env d w).1.calls ≡ suc w.calls
  unfolding is_opted_out decode_file read_file
  is_opted_out_calls d w = ground arith

module _ {K : Codec} (s : Setup K) (c : Config) (w : World) where
  -- The world after the warning.
  abbrev pub warned : World
  warned = (is_opted_out s.env (resolve s c).system_config_dir w).1

  warned_tree : warned.tree ≡ w.tree
  warned_tree = is_opted_out_tree s.env (resolve s c).system_config_dir w

  warned_calls : (warned.fault ≡ w.fault) × (warned.calls ≡ suc w.calls)
  warned_calls = (
    is_opted_out_fault s.env (resolve s c).system_config_dir w,
    is_opted_out_calls s.env (resolve s c).system_config_dir w,
  )

  get_consent_state-of_file :
      (source : Bytes) (v : Bool)
      → w.fault (suc w.calls) ≡ false
      → Decodes s.env consent_state_key
          (consent_file s.env (new_manager (resolve s c).consent_dir) source)
          v
          w
      → (get_consent_state s c source w).0 ≡ ok v
  unfolding get_consent_state warn_if_system_opted_out
  get_consent_state-of_file source v calm (b, at, e) = ap opaque (
      Decodes-get s.env (new_manager (resolve s c).consent_dir) source v warned refl
        (rw (warned_calls.0, warned_calls.1) calm) (b, rw warned_tree at, e))

module _ {K : Codec} (s : Setup K) (laws : HasTomlRoundTrip s.env) (c : Config) where
  set_consent_state-Decodes :
      (source : Bytes) (v : Bool) (w : World)
      → (set_consent_state s c source v w).0 ≡ done
      → Decodes s.env consent_state_key
          (consent_file s.env (new_manager (resolve s c).consent_dir) source)
          v
          (set_consent_state s c source v w).1
  unfolding set_consent_state warn_if_system_opted_out
  set_consent_state-Decodes source v w =
      set_state-Decodes s.env laws (new_manager (resolve s c).consent_dir) source v (warned s c w)

  -- SetConsentState, then GetConsentState: after a SetConsentState that returns no error, from any
  -- world and on any schedule of failing calls, GetConsentState returns the state that was set,
  -- whatever the system-wide opt-out is and whether or not its first call, the read of the system
  -- configuration, fails, as long as its second call, the read of the consent file, does not.
  pub get_consent_state-set_consent_state :
      (source : Bytes) (v : Bool) (w : World)
      → (set_consent_state s c source v w).0 ≡ done
      → (let w' = (set_consent_state s c source v w).1 in w'.fault (suc w'.calls) ≡ false)
      → (get_consent_state s c source (set_consent_state s c source v w).1).0 ≡ ok v
  get_consent_state-set_consent_state source v w h calm =
      get_consent_state-of_file s c (set_consent_state s c source v w).1 source v calm
        (set_consent_state-Decodes source v w h)

  pub set_system_opt_out-Decodes :
      (v : Bool) (w : World)
      → (set_system_opt_out s c v w).0 ≡ done
      → Decodes s.env system_opt_out_key
          (config_file (resolve s c).system_config_dir)
          v
          (set_system_opt_out s c v w).1
  unfolding set_system_opt_out
  set_system_opt_out-Decodes = set_opt_out-Decodes s.env laws (resolve s c).system_config_dir

  -- SetSystemOptOut, then IsSystemOptOut: after a SetSystemOptOut that returns no error, from any
  -- world and on any schedule of failing calls, IsSystemOptOut returns, as long as its calls do not
  -- fail, the state that was set.
  pub is_system_opt_out-set_system_opt_out :
      (v : Bool) (w : World)
      → (set_system_opt_out s c v w).0 ≡ done
      → IsCalm (set_system_opt_out s c v w).1
      → (is_system_opt_out s c (set_system_opt_out s c v w).1).0 ≡ ok v
  unfolding is_system_opt_out is_opted_out decode_file read_file IsCalm
  is_system_opt_out-set_system_opt_out v w h calm =
      let w' = (set_system_opt_out s c v w).1 in
      let (b, at, e) = set_system_opt_out-Decodes v w h in ground (arith, calm w'.calls)
