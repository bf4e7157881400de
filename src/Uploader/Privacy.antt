-- ===== src/Uploader/Privacy.antt =====
-- What leaves the machine without consent: opt-outs only.
use mathlib.Core.List.{append_assoc, append-nil}
use ubuntu_insights.Base.{
  All, All-append, Bool, Bool-cases, Bytes, List, [], ap, false, inl, inr, is_nil, refl, sym, true,
  ◌++◌, ◌∙◌, ◌∷◌, ◌≡◌, ◌≢◌,
}
use ubuntu_insights.System.Files.Trace.{OnTrace}
use ubuntu_insights.System.Keeps.{Keeps}
use ubuntu_insights.System.Steps.{bind_elim}
use ubuntu_insights.System.World.{FilePath, Post, World, ok, ◌>>=◌, ◌>>◌}
use ubuntu_insights.Uploader.{
  Uploader, collected_dir, make_dirs, opt_out_payload, send, upload, upload_consented, uploaded_dir,
}
use ubuntu_insights.Uploader.Trace.{OnTrace-make_dirs, OnTrace-upload_consented}

-- The requests are those in `before`, and then only opt-outs.
abbrev pub OnlyOptOutsAfter : List Post → List Post → Type 0
OnlyOptOutsAfter before posts =
    (new : List Post) × (posts ≡ before ++ new)
    × All (λ (p : Post). p.payload ≡ opt_out_payload) new

module _ (before : List Post) where
  abbrev pub Quiet : World → Type 0
  Quiet = OnTrace (λ posts _. OnlyOptOutsAfter before posts)

  one_more :
      (url : FilePath) (w : World)
      → OnlyOptOutsAfter before w.posts
      → OnlyOptOutsAfter before (w.posts ++ (record { url = url; payload = opt_out_payload } ∷ []))
  one_more url w (new, e, all) = (
    new ++ (record { url = url; payload = opt_out_payload } ∷ []),
    ap (λ (l : List Post). l ++ (record { url = url; payload = opt_out_payload } ∷ [])) e
        ∙ append_assoc before new _,
    All-append _ new _ all (refl, tt),
  )

  Quiet-send : (url : FilePath) → Keeps Quiet (send url opt_out_payload)
  unfolding send OnTrace
  Quiet-send url = record {
    at = λ w h. elim (Bool-cases (w.fault w.calls)) [
      | inl f ↦ rw f h
      | inr ok_ ↦ rw ok_ (one_more url w h)
    ];
  }

  Quiet-upload_consented :
      (u : Uploader) (source : Bytes) (force : Bool)
      → Keeps Quiet (upload_consented u source force false)
  Quiet-upload_consented u source force =
      OnTrace-upload_consented (λ posts _. OnlyOptOutsAfter before posts) false
        (λ url payload h. rw (h refl) (Quiet-send url)) u source force

-- The world in which Upload asks for the consent.
abbrev pub asking : Uploader → Bytes → World → World
asking u source w = (make_dirs u (collected_dir u source) (uploaded_dir u source) w).1

module _ (u : Uploader) (source : Bytes) (force : Bool) (w : World) where
  abbrev Sends : World → Type 0
  Sends w' = OnlyOptOutsAfter w.posts w'.posts

  start : OnTrace (λ posts _. OnlyOptOutsAfter w.posts posts) w
  unfolding OnTrace
  start = ([], sym (append-nil w.posts), tt)

  Sends-of_quiet : (w' : World) → OnTrace (λ posts _. OnlyOptOutsAfter w.posts posts) w' → Sends w'
  unfolding OnTrace
  Sends-of_quiet w' h = h

  consented :
      (c : Bool) (w2 : World)
      → c ≢ true
      → Quiet w.posts w2
      → Quiet w.posts (upload_consented u source force c w2).1
  consented false w2 h q = (Quiet-upload_consented w.posts u source force).at w2 q
  consented true w2 h q = absurd (h refl)

  asked :
      ((before : List Post) → Keeps (Quiet before) (u.consent source))
      → (u.consent source (asking u source w)).0 ≢ ok true
      → Quiet w.posts
          ((make_dirs u (collected_dir u source) (uploaded_dir u source)
              >> (u.consent source >>= upload_consented u source force))
            w).1
  asked silent refused =
      let w1 = asking u source w in
      let q1 =
        (OnTrace-make_dirs (λ posts _. OnlyOptOutsAfter w.posts posts) u (collected_dir u source)
            (uploaded_dir u source)).at
          w start in
      bind_elim (λ _ w'. Quiet w.posts w')
        (make_dirs u (collected_dir u source) (uploaded_dir u source)) _ w
        (λ _ _.
          bind_elim (λ _ w'. Quiet w.posts w') (u.consent source) (upload_consented u source force)
            w1
            (λ c e.
              consented c (u.consent source w1).1 (λ t. refused (e ∙ ap ok t))
                ((silent w.posts).at w1 q1))
            (λ _ _. (silent w.posts).at w1 q1))
        (λ _ _. q1)

  -- On any schedule of failing calls, of an order of the reports and of the server's answers,
  -- an Upload sends nothing but opt-out payloads if GetState, asked then, does not grant consent.
  -- (GetState itself must send nothing.)
  pub upload_without_consent :
      ((before : List Post) → Keeps (Quiet before) (u.consent source))
      → (u.consent source (asking u source w)).0 ≢ ok true
      → OnlyOptOutsAfter w.posts (upload u source force w).1.posts
  unfolding upload
  upload_without_consent silent refused =
      Sends-of_quiet (upload u source force w).1 (elim (Bool-cases (is_nil source)) [
        | inl empty ↦ rw (empty, upload) start
        | inr named ↦ rw (named, upload) (asked silent refused)
      ])
