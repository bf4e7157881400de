-- ===== src/Uploader/AllOptOut.antt =====
-- UploadAll on a system that opts out.
use mathlib.Core.List.{append_assoc, append-nil}
use ubuntu_insights.Base.{
  All-append, Bool, Bytes, List, Option, [], ap, false, inl, none, refl, some, subst, sym, true, ℕ,
  ◌++◌, ◌∙◌, ◌∷◌, ◌≡◌, ◌≢◌,
}
use ubuntu_insights.Consent.{Manager, get_state, raw_state, read_consent, system_opt_out}
use ubuntu_insights.Env.{Env}
use ubuntu_insights.Report.Confined.{Stays, Stays-read_dir, Stays-read_file, Stays-stat}
use ubuntu_insights.System.Files.Trace.{OnTrace, OnTrace-read_dir, OnTrace-stat}
use ubuntu_insights.System.Keeps.{Keeps, Keeps-bind, Keeps-hiding, Keeps-pure, keeps_rules}
use ubuntu_insights.System.World.{FilePath, Io, Node, Post, Status, World, dir, done, file}
use ubuntu_insights.SystemConfig.{config_file, decode_file, is_opted_out, system_opt_out_key}
use ubuntu_insights.Uploader.{Uploader, opt_out_payload, upload}
use ubuntu_insights.Uploader.Confined.{PicksFrom, Stays-upload}
use ubuntu_insights.Uploader.OptOut.{upload_opted_out}
use ubuntu_insights.Uploader.Privacy.{OnlyOptOutsAfter}
use ubuntu_insights.Uploader.Retry.{
  gather_source, get_all_sources, source_dirs, sources_of, upload_all, upload_sources,
}

module _ (env : Env) (q : FilePath) (b : Bytes) where
  Stays-decode_file : (key : Bytes) (p : FilePath) → Keeps (Stays q b) (decode_file env key p)
  unfolding decode_file
  Stays-decode_file key p = search (keeps_rules, Stays-read_file) depth 7

  Stays-is_opted_out : (d : FilePath) → Keeps (Stays q b) (is_opted_out env d)
  unfolding is_opted_out
  Stays-is_opted_out d = search (keeps_rules, Stays-decode_file) depth 7

  Stays-system_opt_out : (o : Option FilePath) → Keeps (Stays q b) (system_opt_out env o)
  unfolding system_opt_out
  Stays-system_opt_out none = Keeps-pure false
  Stays-system_opt_out (some d) = Keeps-hiding _ (Stays-is_opted_out d)

  Stays-get_state : (cm : Manager) (source : Bytes) → Keeps (Stays q b) (get_state env cm source)
  unfolding get_state raw_state read_consent
  Stays-get_state cm source = search (keeps_rules, Stays-decode_file, Stays-system_opt_out) depth 9

-- Opt-outs after opt-outs are opt-outs.
pub OnlyOptOutsAfter-trans :
    (p q r : List Post) → OnlyOptOutsAfter p q → OnlyOptOutsAfter q r → OnlyOptOutsAfter p r
OnlyOptOutsAfter-trans p q r (l, e, hl) (k, f, hk) = (
  l ++ k,
  f ∙ ap (λ x. x ++ k) e ∙ append_assoc p l k,
  All-append (λ (x : Post). x.payload ≡ opt_out_payload) l k hl hk,
)

pub OnlyOptOutsAfter-same : (p q : List Post) → q ≡ p → OnlyOptOutsAfter p q
OnlyOptOutsAfter-same p q e = ([], e ∙ sym (append-nil p), tt)

module _ (env : Env) (cm : Manager) (u : Uploader) (d : FilePath) (b : Bytes)
    (honours : cm.opt_out ≡ some d) (asks : u.consent ≡ get_state env cm)
    (outside : (p : FilePath) → config_file d ≢ p ++ u.cache_dir) (picks : PicksFrom u.order)
    (out : env.toml_decode system_opt_out_key b ≡ some true) where
  upload_sources_opted_out :
      (sources : List Bytes) (force : Bool) (errors : Status) (w : World)
      → Stays (config_file d) b w
      → OnlyOptOutsAfter w.posts (upload_sources u sources force false errors w).1.posts
  unfolding upload_sources Stays
  upload_sources_opted_out [] force errors w s = OnlyOptOutsAfter-same w.posts w.posts refl
  upload_sources_opted_out (source ∷ sources) force errors w s =
      let (r, w1) = upload u source force w in
      OnlyOptOutsAfter-trans w.posts w1.posts _
        (upload_opted_out env cm u source w force asks (inl (d, honours, (b, s, out))))
        (upload_sources_opted_out sources force (gather_source u r errors) w1 (
          (Stays-upload u _ d b outside source force picks (
              subst (λ (f : Bytes → Io Bool). Keeps (Stays (config_file d) b) (f source)) (sym asks)
                (Stays-get_state env (config_file d) b cm source))).at
            w s))

  -- UploadAll without retries
  pub upload_all_opted_out :
      (sources : List Bytes) (force : Bool) (w : World)
      → Stays (config_file d) b w
      → OnlyOptOutsAfter w.posts (upload_all u sources force false w).1.posts
  unfolding upload_all
  upload_all_opted_out sources force w s =
      upload_sources_opted_out (u.source_order sources) force done w s

-- GetAllSources only reads.
module _ (q : FilePath) (b : Bytes) where
  Stays-source_dirs : (d : FilePath) (l : List (Bytes × Node)) → Keeps (Stays q b) (source_dirs d l)
  unfolding source_dirs
  Stays-source_dirs d [] = Keeps-pure []
  Stays-source_dirs d ((n, file c) ∷ l) = Stays-source_dirs d l
  Stays-source_dirs d ((n, dir) ∷ l) =
      Keeps-bind _ _ (Stays-read_dir q b (n ∷ d))
        (λ _. Keeps-bind _ _ (Stays-source_dirs d l) (λ rest. Keeps-pure _))

  Stays-sources_of : (d : FilePath) (a : Node) → Keeps (Stays q b) (sources_of d a)
  Stays-sources_of d (file c) = Keeps-pure []
  Stays-sources_of d dir =
      Keeps-bind _ _ (Stays-read_dir q b d) (λ entries. Stays-source_dirs d entries)

  pub Stays-get_all_sources : (d : FilePath) → Keeps (Stays q b) (get_all_sources d)
  unfolding get_all_sources
  Stays-get_all_sources d = Keeps-bind _ _ (Stays-stat q b d) (λ root. Stays-sources_of d root)

module _ (Q : List Post → List ℕ → Type 0) where
  OnTrace-source_dirs :
      (d : FilePath) (l : List (Bytes × Node)) → Keeps (OnTrace Q) (source_dirs d l)
  unfolding source_dirs
  OnTrace-source_dirs d [] = Keeps-pure []
  OnTrace-source_dirs d ((n, file c) ∷ l) = OnTrace-source_dirs d l
  OnTrace-source_dirs d ((n, dir) ∷ l) =
      Keeps-bind _ _ (OnTrace-read_dir Q (n ∷ d))
        (λ _. Keeps-bind _ _ (OnTrace-source_dirs d l) (λ rest. Keeps-pure _))

  OnTrace-sources_of : (d : FilePath) (a : Node) → Keeps (OnTrace Q) (sources_of d a)
  OnTrace-sources_of d (file c) = Keeps-pure []
  OnTrace-sources_of d dir =
      Keeps-bind _ _ (OnTrace-read_dir Q d) (λ entries. OnTrace-source_dirs d entries)

  pub OnTrace-get_all_sources : (d : FilePath) → Keeps (OnTrace Q) (get_all_sources d)
  unfolding get_all_sources
  OnTrace-get_all_sources d = Keeps-bind _ _ (OnTrace-stat Q d) (λ root. OnTrace-sources_of d root)
