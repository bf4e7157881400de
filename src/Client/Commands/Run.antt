-- ===== src/Client/Commands/Run.antt =====
-- The consent and the system-opt-out command, from their arguments to what they print.
use ubuntu_insights.Base.{
  Bool, Bool-cases, Bytes, List, [], arith, bytes_dec, if◌then◌else◌, inl, inr, is_nil,
  is_nil-eq_true, list_dec, refl, some, subst, ◌∷◌, ◌≡◌, ◌≢◌,
}
use ubuntu_insights.Client.Commands.{
  AppConfig, change_opt_out, change_sources, consent_command, consent_run, is_word, opt_out_command,
  parse_bool, pre_run, set_sources, sources_or_platform, to_lower,
}
use ubuntu_insights.Client.Commands.Consented.{AllSet, after_setting-AllSet, set_sources-All}
use ubuntu_insights.Client.Commands.Words.{parse_bool-to_lower}
use ubuntu_insights.Consent.{Manager, new_manager}
use ubuntu_insights.Consent.Laws.{Decodes, is_opted_out_tree}
use ubuntu_insights.Env.{Env, HasTomlRoundTrip}
use ubuntu_insights.System.Files.{read_file}
use ubuntu_insights.System.Steps.{bind_elim}
use ubuntu_insights.System.World.{FilePath, World, done, ok}
use ubuntu_insights.SystemConfig.{
  config_file, decode_file, is_opted_out, set_opt_out, system_opt_out_key,
}
use ubuntu_insights.SystemConfig.Stored.{set_opt_out-Decodes}

-- The sources that the consent command is for.
abbrev pub asked_sources : AppConfig → List Bytes → List Bytes
asked_sources a args = sources_or_platform (if is_nil args then a.consent_sources else args)

no_state : {v : Bool} → parse_bool [] ≢ some v
unfolding parse_bool is_word bytes_dec list_dec
no_state h = cc

module _ (env : Env) where
  change_sources-set_sources :
      (cm : Manager) (sources : List Bytes) (state : Bytes) (v : Bool) (w : World)
      → parse_bool state ≡ some v
      → change_sources env cm sources state w ≡ set_sources env cm v sources w
  unfolding change_sources
  change_sources-set_sources cm sources state v w e = elim (Bool-cases (is_nil state)) [
    | inl empty ↦
        absurd (no_state (subst (λ b. parse_bool b ≡ some v) (is_nil-eq_true state empty) e))
    | inr given ↦ rw given (rw e refl)
  ]

  change_opt_out-set_opt_out :
      (d : FilePath) (state : Bytes) (v : Bool) (w : World)
      → parse_bool state ≡ some v
      → change_opt_out env d state w ≡ set_opt_out env d v w
  unfolding change_opt_out
  change_opt_out-set_opt_out d state v w e = elim (Bool-cases (is_nil state)) [
    | inl empty ↦
        absurd (no_state (subst (λ b. parse_bool b ≡ some v) (is_nil-eq_true state empty) e))
    | inr given ↦ rw given (rw e refl)
  ]

  consent_run-AllSet :
      (a : AppConfig) (v : Bool) (lines : List (Bytes × Bool)) (w : World)
      → HasTomlRoundTrip env
      → parse_bool a.consent_state ≡ some v
      → (consent_run env a w).0 ≡ ok (lines, done)
      → AllSet env
          (new_manager a.consent_dir)
          v
          a.quiet
          (sources_or_platform a.consent_sources)
          lines
          (consent_run env a w).1
  unfolding consent_run
  consent_run-AllSet a v lines w laws e =
      let cm = new_manager a.consent_dir in
      let sources = sources_or_platform a.consent_sources in
      let w1 = (is_opted_out env a.system_config_dir w).1 in
      rw (change_sources-set_sources cm sources a.consent_state v w1 e) (
        after_setting-AllSet env laws cm v a.quiet sources lines (set_sources env cm v sources w1).0
          (set_sources env cm v sources w1).1 refl (set_sources-All env laws cm v sources w1))

  -- The consent command with a state, on any schedule of failing calls: when it ends without an
  -- error, the consent file of each source that it is for says that state, and, unless it is to be
  -- quiet, it has printed each of these sources with that state, in order.
  pub consent_command-AllSet :
      (a : AppConfig) (args : List Bytes) (v : Bool) (lines : List (Bytes × Bool)) (w : World)
      → HasTomlRoundTrip env
      → parse_bool a.consent_state ≡ some v
      → (consent_command env a args w).0 ≡ ok (lines, done)
      → AllSet env
          (new_manager a.consent_dir)
          v
          a.quiet
          (asked_sources a args)
          lines
          (consent_command env a args w).1
  unfolding consent_command pre_run
  consent_command-AllSet a args v lines w laws e = rw e (
      consent_run-AllSet
        (record a {
          consent_sources = if is_nil args then a.consent_sources else args;
          consent_state = to_lower a.consent_state;
        })
        v lines w laws (parse_bool-to_lower a.consent_state v e))

  opted_out_Decodes :
      (d : FilePath) (v state : Bool) (w : World)
      → Decodes env system_opt_out_key (config_file d) v w
      → (is_opted_out env d w).0 ≡ ok state
      → state ≡ v
  unfolding is_opted_out decode_file read_file
  opted_out_Decodes d v state w (b, at, e) h = ground arith

  -- The system-opt-out command with a state, on any schedule of failing calls: when it ends without
  -- an error, the system configuration says that state, and, unless it is to be quiet, the command
  -- has printed that state.
  pub opt_out_command-Decodes :
      (a : AppConfig) (v : Bool) (lines : List Bool) (w : World)
      → HasTomlRoundTrip env
      → parse_bool a.opt_out_state ≡ some v
      → (opt_out_command env a w).0 ≡ ok lines
      → (lines ≡ (if a.quiet then [] else v ∷ []))
        × Decodes env system_opt_out_key
            (config_file a.system_config_dir)
            v
            (opt_out_command env a w).1
  unfolding opt_out_command pre_run
  opt_out_command-Decodes a v lines w laws e =
      let d = a.system_config_dir in
      let state = to_lower a.opt_out_state in
      rw e (
        rw (change_opt_out-set_opt_out d state v w (parse_bool-to_lower a.opt_out_state v e)) (
          bind_elim
            (λ r w'.
              r ≡ ok lines
              → (lines ≡ (if a.quiet then [] else v ∷ []))
                × Decodes env system_opt_out_key (config_file d) v w')
            (set_opt_out env d v) _ w
            (λ _ set.
              let w1 = (set_opt_out env d v w).1 in
              let (b, at, said) = set_opt_out-Decodes env laws d v w set in
              bind_elim
                (λ r w'.
                  r ≡ ok lines
                  → (lines ≡ (if a.quiet then [] else v ∷ []))
                    × Decodes env system_opt_out_key (config_file d) v w')
                (is_opted_out env d) _ w1
                (λ state' got h. (
                  ground (arith, opted_out_Decodes d v state' w1 (b, at, said) got),
                  (b, rw (is_opted_out_tree env d w1) at, said),
                ))
                (λ _ _ h. absurd (ground arith)))
            (λ _ _ h. absurd (ground arith))))
