-- ===== src/Consent/Laws.antt =====
-- When GetState grants consent, and what it answers otherwise.
use ubuntu_insights.Base.{
  Bool, Bool-cases, Bytes, Option, arith, false, inl, inr, none, refl, some, suc, true, ◌∙◌, ◌≡◌,
  ◌⊎◌,
}
use ubuntu_insights.Consent.{
  Manager, consent_file, consent_state_key, get_state, missing_consent, raw_state, read_consent,
  system_opt_out,
}
use ubuntu_insights.Env.{Env}
use ubuntu_insights.System.Calm.{IsCalm}
use ubuntu_insights.System.Files.{node_at, read_file}
use ubuntu_insights.System.Steps.{bind-eq_ok, bind_elim, opaque-eq_ok}
use ubuntu_insights.System.World.{
  FilePath, Result, Sentinel-discrete, World, consent_file_not_found, err, fails_with, file, ok,
}
use ubuntu_insights.SystemConfig.{config_file, decode_file, is_opted_out, system_opt_out_key}

-- The system configuration of the directory does not opt out.
abbrev pub IsOptedIn : Env → FilePath → World → Type 0
IsOptedIn env d w =
    (node_at (config_file d) w.tree ≡ none)
    ⊎ ((b : Bytes) × (node_at (config_file d) w.tree ≡ some (file b))
        × (env.toml_decode system_opt_out_key b ≡ some false))

-- The file decodes to the value.
abbrev pub Decodes : Env → Bytes → FilePath → Bool → World → Type 0
Decodes env key p v w =
    (b : Bytes) × (node_at p w.tree ≡ some (file b)) × (env.toml_decode key b ≡ some v)

module _ (env : Env) where
  pub decode_file-Decodes :
      (key : Bytes) (p : FilePath) (v : Bool) (w : World)
      → (decode_file env key p w).0 ≡ ok v
      → Decodes env key p v w
  unfolding decode_file read_file
  decode_file-Decodes key p v w h = ground arith

  pub decode_file_tree :
      (key : Bytes) (p : FilePath) (w : World) → (decode_file env key p w).1.tree ≡ w.tree
  unfolding decode_file read_file
  decode_file_tree key p w = ground arith

  is_opted_out-IsOptedIn :
      (d : FilePath) (w : World) → (is_opted_out env d w).0 ≡ ok false → IsOptedIn env d w
  unfolding is_opted_out decode_file read_file
  is_opted_out-IsOptedIn d w h = ground arith

  pub is_opted_out_tree : (d : FilePath) (w : World) → (is_opted_out env d w).1.tree ≡ w.tree
  unfolding is_opted_out
  is_opted_out_tree d w = decode_file_tree system_opt_out_key (config_file d) w

  system_opt_out_tree : (o : Option FilePath) (w : World) → (system_opt_out env o w).1.tree ≡ w.tree
  unfolding system_opt_out
  system_opt_out_tree none w = refl
  system_opt_out_tree (some d) w = is_opted_out_tree d w

  pub missing_consent-eq_ok : (r : Result Bool) (v : Bool) → missing_consent env r ≡ ok v → r ≡ ok v
  missing_consent-eq_ok (ok u) v h = h
  missing_consent-eq_ok (err e) v h = absurd (ground arith)

  -- Both decisions behind a granted consent.
  raw_state-true :
      (cm : Manager) (source : Bytes) (w : World)
      → (raw_state env cm source w).0 ≡ ok true
      → ((system_opt_out env cm.opt_out w).0 ≡ ok false)
        × ((read_consent env (consent_file env cm source) (system_opt_out env cm.opt_out w).1).0
            ≡ ok true)
  unfolding raw_state
  raw_state-true cm source w h =
      let (o, e, k) = bind-eq_ok (system_opt_out env cm.opt_out) _ w h in ground arith

  opted_in :
      (o : Option FilePath) (d : FilePath) (w : World)
      → o ≡ some d
      → (system_opt_out env o w).0 ≡ ok false
      → IsOptedIn env d w
  unfolding system_opt_out
  opted_in none d w e h = cc
  opted_in (some d') d w e h =
      let same : d' ≡ d = ground arith in
      rw same at (is_opted_out-IsOptedIn d' w (opaque-eq_ok (is_opted_out env d' w).0 h))

  pub get_state-true :
      (cm : Manager) (source : Bytes) (w : World)
      → (get_state env cm source w).0 ≡ ok true
      → Decodes env consent_state_key (consent_file env cm source) true w
        × ((d : FilePath) → cm.opt_out ≡ some d → IsOptedIn env d w)
  unfolding get_state read_consent
  get_state-true cm source w h =
      let raw = missing_consent-eq_ok (raw_state env cm source w).0 true h in
      let (in_, granted) = raw_state-true cm source w raw in
      (
        rw system_opt_out_tree at (
            decode_file-Decodes consent_state_key (consent_file env cm source) true
              (system_opt_out env cm.opt_out w).1 granted),
        λ d e. opted_in cm.opt_out d w e in_,
      )

  -- On any schedule of failing calls, GetState grants consent only to a source whose consent file
  -- says true.
  pub get_state_granted :
      (cm : Manager) (source : Bytes) (w : World)
      → (get_state env cm source w).0 ≡ ok true
      → Decodes env consent_state_key (consent_file env cm source) true w
  get_state_granted cm source w h = (get_state-true cm source w h).0

  -- On any schedule of failing calls, a manager that honours a system configuration grants consent
  -- only if the configuration is absent or says false.
  pub get_state-IsOptedIn :
      (cm : Manager) (source : Bytes) (d : FilePath) (w : World)
      → cm.opt_out ≡ some d
      → (get_state env cm source w).0 ≡ ok true
      → IsOptedIn env d w
  get_state-IsOptedIn cm source d w e h = (get_state-true cm source w h).1 d e

  pub get_state_tree :
      (cm : Manager) (source : Bytes) (w : World) → (get_state env cm source w).1.tree ≡ w.tree
  unfolding get_state raw_state read_consent
  get_state_tree cm source w =
      bind_elim (λ _ w'. w'.tree ≡ w.tree) (system_opt_out env cm.opt_out) _ w
        (λ o e. elim (Bool-cases o) [
          | inl out ↦ rw out (system_opt_out_tree cm.opt_out w)
          | inr in_ ↦ rw in_ (
              decode_file_tree consent_state_key (consent_file env cm source)
                (system_opt_out env cm.opt_out w).1
              ∙ system_opt_out_tree cm.opt_out w)
        ])
        (λ f e. system_opt_out_tree cm.opt_out w)

  -- In a calm world, an active opt-out in the system configuration is a refusal, whatever the
  -- consent file holds.
  pub get_state_opted_out :
      (cm : Manager) (source : Bytes) (d : FilePath) (w : World)
      → IsCalm w
      → cm.opt_out ≡ some d
      → Decodes env system_opt_out_key (config_file d) true w
      → (get_state env cm source w).0 ≡ ok false
  unfolding get_state raw_state read_consent system_opt_out is_opted_out decode_file read_file
      IsCalm
  get_state_opted_out cm source d w calm e h = ground (arith, calm w.calls, calm (suc w.calls))

  -- In a calm world without an active opt-out, a missing consent file is ErrConsentFileNotFound.
  pub get_state_missing :
      (cm : Manager) (source : Bytes) (d : FilePath) (w : World)
      → IsCalm w
      → cm.opt_out ≡ some d
      → IsOptedIn env d w
      → node_at (consent_file env cm source) w.tree ≡ none
      → fails_with (get_state env cm source w).0 consent_file_not_found ≡ true
  unfolding get_state raw_state read_consent system_opt_out is_opted_out decode_file read_file
      IsCalm Sentinel-discrete
  get_state_missing cm source d w calm e h n = ground (arith, calm w.calls, calm (suc w.calls))

  -- In a calm world without an active opt-out, a consent file that decodes gives its value.
  pub get_state_reads :
      (cm : Manager) (source : Bytes) (d : FilePath) (w : World) (v : Bool)
      → IsCalm w
      → cm.opt_out ≡ some d
      → IsOptedIn env d w
      → Decodes env consent_state_key (consent_file env cm source) v w
      → (get_state env cm source w).0 ≡ ok v
  unfolding get_state raw_state read_consent system_opt_out is_opted_out decode_file read_file
      IsCalm Sentinel-discrete
  get_state_reads cm source d w v calm e h n = ground (arith, calm w.calls, calm (suc w.calls))
