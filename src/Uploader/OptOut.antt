-- ===== src/Uploader/OptOut.antt =====
-- Upload with the consent manager of the program.
use ubuntu_insights.Base.{
  Bool, Bytes, List, Option, arith, false, inl, inr, none, some, subst, sym, true, ℕ, ◌≡◌, ◌≢◌, ◌⊎◌,
}
use ubuntu_insights.Consent.{
  Manager, consent_file, consent_state_key, get_state, raw_state, read_consent, system_opt_out,
}
use ubuntu_insights.Consent.Laws.{Decodes, IsOptedIn, get_state-true}
use ubuntu_insights.Env.{Env}
use ubuntu_insights.System.Files.{mkdir_all, node_at}
use ubuntu_insights.System.Files.Laws.{mkdir_all_keeps}
use ubuntu_insights.System.Files.Trace.{OnTrace, trace_rules}
use ubuntu_insights.System.Keeps.{Keeps, Keeps-hiding, Keeps-pure}
use ubuntu_insights.System.Steps.{bind_elim}
use ubuntu_insights.System.World.{FilePath, Io, Node, Post, World, file, hiding, ok}
use ubuntu_insights.SystemConfig.{config_file, decode_file, is_opted_out, system_opt_out_key}
use ubuntu_insights.Uploader.{Uploader, collected_dir, make_dirs, upload, uploaded_dir}
use ubuntu_insights.Uploader.Privacy.{OnlyOptOutsAfter, Quiet, asking, upload_without_consent}

module _ (env : Env) (Q : List Post → List ℕ → Type 0) where
  OnTrace-decode_file : (key : Bytes) (p : FilePath) → Keeps (OnTrace Q) (decode_file env key p)
  unfolding decode_file
  OnTrace-decode_file key p = search trace_rules depth 7

  OnTrace-is_opted_out : (d : FilePath) → Keeps (OnTrace Q) (is_opted_out env d)
  unfolding is_opted_out
  OnTrace-is_opted_out d = search (trace_rules, OnTrace-decode_file) depth 7

  OnTrace-system_opt_out : (o : Option FilePath) → Keeps (OnTrace Q) (system_opt_out env o)
  unfolding system_opt_out
  OnTrace-system_opt_out none = Keeps-pure false
  OnTrace-system_opt_out (some d) = Keeps-hiding _ (OnTrace-is_opted_out d)

  pub OnTrace-get_state :
      (cm : Manager) (source : Bytes) → Keeps (OnTrace Q) (get_state env cm source)
  unfolding get_state raw_state read_consent
  OnTrace-get_state cm source =
      search (trace_rules, OnTrace-decode_file, OnTrace-system_opt_out) depth 9

module _ (env : Env) (cm : Manager) (u : Uploader) (source : Bytes) (w : World) where
  node_at-asking :
      (p : FilePath) (a : Node)
      → node_at p w.tree ≡ some a
      → node_at p (asking u source w).tree ≡ some a
  unfolding make_dirs
  node_at-asking p a h =
      bind_elim (λ _ w'. node_at p w'.tree ≡ some a) (hiding (mkdir_all (collected_dir u source))) _
        w
        (λ _ _.
          mkdir_all_keeps (uploaded_dir u source) p a (mkdir_all (collected_dir u source) w).1
            (mkdir_all_keeps (collected_dir u source) p a w h))
        (λ _ _. mkdir_all_keeps (collected_dir u source) p a w h)

  Decodes-asking :
      (key : Bytes) (p : FilePath) (v : Bool)
      → Decodes env key p v w
      → Decodes env key p v (asking u source w)
  Decodes-asking key p v (b, at, e) = (b, node_at-asking p (file b) at, e)

  -- What withholds consent: the system configuration opts out, or the consent file says no.
  abbrev pub Withholds : Type 0
  Withholds =
      ((d : FilePath) × (cm.opt_out ≡ some d)
        × Decodes env system_opt_out_key (config_file d) true w)
      ⊎ Decodes env consent_state_key (consent_file env cm source) false w

  not_both :
      (key : Bytes) (p : FilePath) (w' : World)
      → Decodes env key p true w'
      → Decodes env key p false w'
      → ⊥
  not_both key p w' (b, at, e) (b', at', e') =
      let same : b ≡ b' = ground (arith, at, at') in ground (arith, e, e')

  refused : Withholds → (get_state env cm source (asking u source w)).0 ≢ ok true
  refused (inr no_) h =
      not_both consent_state_key (consent_file env cm source) (asking u source w)
        (get_state-true env cm source (asking u source w) h).0
        (Decodes-asking consent_state_key (consent_file env cm source) false no_)
  refused (inl (d, e, out)) h =
      still_in (Decodes-asking system_opt_out_key (config_file d) true out)
        ((get_state-true env cm source (asking u source w) h).1 d e)
    where
      still_in :
          Decodes env system_opt_out_key (config_file d) true (asking u source w)
          → IsOptedIn env d (asking u source w)
          → ⊥
      still_in (b, at, x) (inl gone) = ground (arith, at, gone)
      still_in yes_ (inr no_) =
          not_both system_opt_out_key (config_file d) (asking u source w) yes_ no_

  -- With the program's consent manager, on any schedule of failing calls and of the server's
  -- answers: an Upload of a source sends nothing but opt-out payloads when the system configuration
  -- that the manager honours opts out, or the consent file of the source says false.
  pub upload_opted_out :
      (force : Bool)
      → u.consent ≡ get_state env cm
      → Withholds
      → OnlyOptOutsAfter w.posts (upload u source force w).1.posts
  upload_opted_out force same withheld =
      upload_without_consent u source force w
        (λ before.
          subst (λ (f : Bytes → Io Bool). Keeps (Quiet before) (f source)) (sym same)
            (OnTrace-get_state env (λ posts _. OnlyOptOutsAfter before posts) cm source))
        (subst (λ (f : Bytes → Io Bool). (f source (asking u source w)).0 ≢ ok true) (sym same)
          (refused withheld))
