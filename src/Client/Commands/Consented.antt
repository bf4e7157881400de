-- ===== src/Client/Commands/Consented.antt =====
-- What the consent command leaves on disk and prints.
use ubuntu_insights.Base.{
  All, Bool, Bytes, List, [], ap, arith, false, if◌then◌else◌, none, refl, subst, sym, true, ◌∙◌,
  ◌∷◌, ◌≡◌,
}
use ubuntu_insights.Client.Commands.{
  after_setting, get_sources, report_sources, set_sources, with_error, with_state,
}
use ubuntu_insights.Consent.{
  Manager, consent_file, consent_state_key, get_state, set_state, source_or_platform,
}
use ubuntu_insights.Consent.Laws.{Decodes, get_state_tree}
use ubuntu_insights.Consent.RoundTrip.{get_state-Decodes, set_state-Decodes, set_state_keeps}
use ubuntu_insights.Env.{Env, HasTomlRoundTrip}
use ubuntu_insights.System.Keeps.{Keeps, Keeps-attempt, Keeps-bind, Keeps-pure}
use ubuntu_insights.System.Steps.{bind_elim}
use ubuntu_insights.System.World.{
  Result, Status, Tree, World, continue, done, err, file, ok, path_dec, pure,
}

module _ (env : Env) (v : Bool) where
  -- What is printed when every source gets v.
  abbrev pub lines_for : Bool → List Bytes → List (Bytes × Bool)
  lines_for quiet [] = []
  lines_for quiet (source ∷ sources) =
      if quiet
      then lines_for quiet sources
      else (source_or_platform env source, v) ∷ lines_for quiet sources

-- The lines, and the consent files, of a run that sets every source to v.
abbrev pub AllSet : Env → Manager → Bool → Bool → List Bytes → List (Bytes × Bool) → World → Type 0
AllSet env cm v quiet sources lines w =
    (lines ≡ lines_for env v quiet sources)
    × All (λ x. Decodes env consent_state_key (consent_file env cm x) v w) sources

module _ (env : Env) (laws : HasTomlRoundTrip env) (cm : Manager) (v : Bool) where
  -- The consent file of the source says v.
  abbrev Says : Bytes → World → Type 0
  Says source w = Decodes env consent_state_key (consent_file env cm source) v w

  set_state-Says :
      (source other : Bytes) (w : World)
      → Says other w
      → (set_state env cm source v w).0 ≡ done
      → Says other (set_state env cm source v w).1
  set_state-Says source other w (b, at, e) h =
      elim (path_dec (consent_file env cm other) (consent_file env cm source)) [
        | yes p ↦
            subst (λ q. Decodes env consent_state_key q v (set_state env cm source v w).1) (sym p)
              (set_state-Decodes env laws cm source v w h)
        | no n ↦ (
          b,
          set_state_keeps env laws cm source v w (consent_file env cm other) (file b) n at h,
          e,
        )
      ]

  set_sources-Says :
      (sources : List Bytes) (other : Bytes) (w : World)
      → Says other w
      → (set_sources env cm v sources w).0 ≡ done
      → Says other (set_sources env cm v sources w).1
  unfolding set_sources
  set_sources-Says [] other w said = λ h. said
  set_sources-Says (source ∷ sources) other w said =
      bind_elim (λ r w'. r ≡ done → Says other w') (set_state env cm source v) _ w
        (λ _ e h.
          set_sources-Says sources other (set_state env cm source v w).1
            (set_state-Says source other w said e) h)
        (λ _ _ h. absurd (ground arith))

  -- Setting every source leaves the file of each one saying v.
  pub set_sources-All :
      (sources : List Bytes) (w : World)
      → (set_sources env cm v sources w).0 ≡ done
      → All (λ x. Says x (set_sources env cm v sources w).1) sources
  unfolding set_sources
  set_sources-All [] w = λ h. tt
  set_sources-All (source ∷ sources) w =
      bind_elim (λ r w'. r ≡ done → All (λ x. Says x w') (source ∷ sources))
        (set_state env cm source v) _ w
        (λ _ e h.
          let w1 = (set_state env cm source v w).1 in
          (
            set_sources-Says sources source w1 (set_state-Decodes env laws cm source v w e) h,
            set_sources-All sources w1 h,
          ))
        (λ _ _ h. absurd (ground arith))

  Says-of_tree : (source : Bytes) (w w' : World) → w'.tree ≡ w.tree → Says source w → Says source w'
  Says-of_tree source w w' same (b, at, e) = (b, rw same at, e)

  All-Says-of_tree :
      (sources : List Bytes) (w w' : World)
      → w'.tree ≡ w.tree
      → All (λ x. Says x w) sources
      → All (λ x. Says x w') sources
  All-Says-of_tree [] w w' same h = tt
  All-Says-of_tree (source ∷ sources) w w' same (said, h) =
      (Says-of_tree source w w' same said, All-Says-of_tree sources w w' same h)

  -- A state that a manager without a system configuration gets is what the file says.
  got-Says :
      (source : Bytes) (v' : Bool) (w : World)
      → Says source w
      → (get_state env cm source w).0 ≡ ok v'
      → cm.opt_out ≡ none
      → v' ≡ v
  got-Says source v' w (b, at, e) h none_ =
      let (b', at', e') = get_state-Decodes env cm source v' w none_ h in ground arith

  -- If no source failed, the lines are those.
  abbrev Prints : Bool → List Bytes → Result (List (Bytes × Bool) × List Bytes) → Type 0
  Prints quiet sources (err e) = Unit
  Prints quiet sources (ok (lines, failed)) = failed ≡ [] → lines ≡ lines_for env v quiet sources

  one_more :
      (quiet : Bool) (source : Bytes) (sources : List Bytes) (r : Result Bool)
      (later : Result (List (Bytes × Bool) × List Bytes)) (w : World)
      → ((v' : Bool) → r ≡ ok v' → v' ≡ v)
      → Prints quiet sources later
      → Prints quiet
          (source ∷ sources)
          (continue later (λ found. pure (with_state env quiet source r found)) w).0
  one_more quiet source sources r (err e) w hr hl = tt
  one_more quiet source sources (err e) (ok (lines, failed)) w hr hl = λ h. cc
  one_more false source sources (ok v') (ok (lines, failed)) w hr hl = λ h. cc (hr v' refl, hl h)
  one_more true source sources (ok v') (ok (lines, failed)) w hr hl = hl

  get_sources-Prints :
      (quiet : Bool) (sources : List Bytes) (w : World)
      → cm.opt_out ≡ none
      → All (λ x. Says x w) sources
      → Prints quiet sources (get_sources env cm quiet sources w).0
  unfolding get_sources
  get_sources-Prints quiet [] w none_ h = λ e. refl
  get_sources-Prints quiet (source ∷ sources) w none_ (said, h) =
      let w1 = (get_state env cm source w).1 in
      one_more quiet source sources (get_state env cm source w).0
        (get_sources env cm quiet sources w1).0 (get_sources env cm quiet sources w1).1
        (λ v' e. got-Says source v' w said e none_)
        (get_sources-Prints quiet sources w1 none_
          (All-Says-of_tree sources w w1 (get_state_tree env cm source w) h))

  get_sources_tree :
      (t : Tree) (quiet : Bool) (sources : List Bytes)
      → Keeps (λ w. w.tree ≡ t) (get_sources env cm quiet sources)
  unfolding get_sources
  get_sources_tree t quiet [] = Keeps-pure ([], [])
  get_sources_tree t quiet (source ∷ sources) =
      Keeps-bind _ _ (Keeps-attempt _ (record { at = λ w h. get_state_tree env cm source w ∙ h }))
        (λ r.
          Keeps-bind _ _ (get_sources_tree t quiet sources)
            (λ later. Keeps-pure (with_state env quiet source r later)))

  printed :
      (quiet : Bool) (sources : List Bytes) (r : Result (List (Bytes × Bool) × List Bytes))
      (w : World) (lines : List (Bytes × Bool))
      → Prints quiet sources r
      → (continue r (λ found. pure (with_error found)) w).0 ≡ ok (lines, done)
      → lines ≡ lines_for env v quiet sources
  printed quiet sources (err e) w lines p h = absurd (ground arith)
  printed quiet sources (ok (lines', [])) w lines p h =
      let same : lines' ≡ lines = ground arith in sym same ∙ p refl
  printed quiet sources (ok (lines', f ∷ failed)) w lines p h = absurd (ground arith)

  continue_world :
      (r : Result (List (Bytes × Bool) × List Bytes)) (w : World)
      → (continue r (λ found. pure (with_error found)) w).1 ≡ w
  continue_world (ok found) w = refl
  continue_world (err e) w = refl

  report_sources-AllSet :
      (quiet : Bool) (sources : List Bytes) (lines : List (Bytes × Bool)) (w : World)
      → cm.opt_out ≡ none
      → All (λ x. Says x w) sources
      → (report_sources env cm quiet sources w).0 ≡ ok (lines, done)
      → AllSet env cm v quiet sources lines (report_sources env cm quiet sources w).1
  unfolding report_sources
  report_sources-AllSet quiet sources lines w none_ said h =
      let r = (get_sources env cm quiet sources w).0 in
      let w' = (get_sources env cm quiet sources w).1 in
      (
        printed quiet sources r w' lines (get_sources-Prints quiet sources w none_ said) h,
        All-Says-of_tree sources w (continue r (λ found. pure (with_error found)) w').1
            (ap World.tree (continue_world r w')
              ∙ (get_sources_tree w.tree quiet sources).at w refl)
            said,
      )

  pub after_setting-AllSet :
      (quiet : Bool) (sources : List Bytes) (lines : List (Bytes × Bool)) (r : Status) (w : World)
      → cm.opt_out ≡ none
      → (r ≡ done → All (λ x. Says x w) sources)
      → (after_setting env cm quiet sources r w).0 ≡ ok (lines, done)
      → AllSet env cm v quiet sources lines (after_setting env cm quiet sources r w).1
  unfolding after_setting
  after_setting-AllSet quiet sources lines (err e) w none_ said h = absurd (ground arith)
  after_setting-AllSet quiet sources lines (ok u) w none_ said h =
      report_sources-AllSet quiet sources lines w none_ (said refl) h
