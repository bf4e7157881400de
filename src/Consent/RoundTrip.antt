-- ===== src/Consent/RoundTrip.antt =====
-- SetState, then GetState.
use ubuntu_insights.Base.{Bool, Bytes, arith, codes, false, none, some, ◌++◌, ◌≡◌, ◌≢◌}
use ubuntu_insights.Consent.{
  Manager, consent_file, consent_state_key, consent_suffix, get_state, raw_state, read_consent,
  set_state, source_or_platform, system_opt_out,
}
use ubuntu_insights.Consent.Laws.{Decodes, decode_file-Decodes, missing_consent-eq_ok}
use ubuntu_insights.Env.{Env, HasTomlRoundTrip}
use ubuntu_insights.FileUtils.Atomic.{temp_path}
use ubuntu_insights.FileUtils.Temp.{ne-temp_path}
use ubuntu_insights.System.Files.{node_at, read_file}
use ubuntu_insights.System.World.{FilePath, Node, World, done, ok}
use ubuntu_insights.SystemConfig.{decode_file}
use ubuntu_insights.SystemConfig.Stored.{write_toml-Decodes, write_toml_keeps}

-- A manager without a system configuration gets what the consent file says.
pub Decodes-get :
    (env : Env) (cm : Manager) (source : Bytes) (v : Bool) (w : World)
    → cm.opt_out ≡ none
    → w.fault w.calls ≡ false
    → Decodes env consent_state_key (consent_file env cm source) v w
    → (get_state env cm source w).0 ≡ ok v
unfolding get_state raw_state read_consent system_opt_out decode_file read_file
Decodes-get env cm source v w e calm d = ground (arith, calm)

-- What such a manager gets is what the consent file says.
pub get_state-Decodes :
    (env : Env) (cm : Manager) (source : Bytes) (v : Bool) (w : World)
    → cm.opt_out ≡ none
    → (get_state env cm source w).0 ≡ ok v
    → Decodes env consent_state_key (consent_file env cm source) v w
unfolding get_state raw_state read_consent system_opt_out
get_state-Decodes env cm source v w e h =
    let raw = missing_consent-eq_ok env (raw_state env cm source w).0 v h in
    decode_file-Decodes env consent_state_key (consent_file env cm source) v w (ground arith)

module _ (env : Env) (laws : HasTomlRoundTrip env) where
  file-ne-temp :
      (cm : Manager) (source : Bytes) (w : World)
      → consent_file env cm source ≢ temp_path (consent_file env cm source) w
  file-ne-temp cm source w =
      ne-temp_path (source_or_platform env source) (codes "consent.toml") b'-' cm.path w
        (omega arith)

  -- A SetState that returns no error leaves a consent file that says what was set.
  pub set_state-Decodes :
      (cm : Manager) (source : Bytes) (v : Bool) (w : World)
      → (set_state env cm source v w).0 ≡ done
      → Decodes env consent_state_key (consent_file env cm source) v (set_state env cm source v w).1
  unfolding set_state
  set_state-Decodes cm source v w =
      write_toml-Decodes env consent_state_key (source_or_platform env source ++ consent_suffix)
        cm.path v 0o750 0o600 (file-ne-temp cm source) w laws

  -- It keeps every other file.
  pub set_state_keeps :
      (cm : Manager) (source : Bytes) (v : Bool) (w : World) (q : FilePath) (a : Node)
      → q ≢ consent_file env cm source
      → node_at q w.tree ≡ some a
      → (set_state env cm source v w).0 ≡ done
      → node_at q (set_state env cm source v w).1.tree ≡ some a
  unfolding set_state
  set_state_keeps cm source v =
      write_toml_keeps env consent_state_key (source_or_platform env source ++ consent_suffix)
        cm.path v 0o750 0o600 (file-ne-temp cm source)

  -- Setting a consent and getting it: after a SetState that returns no error, from any world and
  -- on any schedule of failing calls, a manager without a system configuration gets, as long as
  -- the calls of GetState do not fail, the state that was set.
  pub set_get_state :
      (cm : Manager) (source : Bytes) (v : Bool) (w : World)
      → cm.opt_out ≡ none
      → (set_state env cm source v w).0 ≡ done
      → (let w' = (set_state env cm source v w).1 in w'.fault w'.calls ≡ false)
      → (get_state env cm source (set_state env cm source v w).1).0 ≡ ok v
  set_get_state cm source v w none_ h calm =
      Decodes-get env cm source v (set_state env cm source v w).1 none_ calm
        (set_state-Decodes cm source v w h)
