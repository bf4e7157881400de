-- ===== src/Uploader/Confined.antt =====
-- What Upload does to a file outside of the directory of the reports.
use ubuntu_insights.Base.{
  All, ap, Bool, Bytes, List, All-Has, Has, codes, [], arith, inl, inr, is_nil, refl, subst, ◌++◌,
  ◌∷◌, ◌≡◌, ◌≢◌,
}
use ubuntu_insights.FileUtils.{write_file}
use ubuntu_insights.Report.{Report, cleanup, get_all, mark_as_processed, read_json}
use ubuntu_insights.Report.Confined.{
  Inside, Stays, Stays-get_all, Stays-mark_as_processed, Stays-of_tree, Stays-stat, Stays-read_json,
  Stays-undo_processed,
}
use ubuntu_insights.Report.Confined.Found.{Stays-cleanup, get_all-Inside}
use ubuntu_insights.System.Files.{mkdir_all, remove}
use ubuntu_insights.System.Files.Laws.{mkdir_all_keeps}
use ubuntu_insights.System.Keeps.{
  Keeps, Keeps-attempt, Keeps-bind, Keeps-hiding, Keeps-if, Keeps-lift, Keeps-pure, Keeps-raise,
  keeps_rules,
}
use ubuntu_insights.System.Steps.{bind-eq_ok, bind_elim, opaque-eq_ok}
use ubuntu_insights.System.World.{
  FilePath, Status, World, attempt, done, join, err, file, hiding, lift, ok, plain, raise, ◌>>=◌,
  ◌>>◌,
}
use ubuntu_insights.Uploader.{
  Uploader, collected_dir, gather, get_url, make_dirs, move_and_send, send, settle, tidy, upload,
  upload_consented, upload_report, upload_reports, uploaded_dir,
}

send_tree : (url : FilePath) (payload : Bytes) (w : World) → (send url payload w).1.tree ≡ w.tree
unfolding send
send_tree url payload w = ground arith

report_value : (r s : Report) → ok r ≡ ok s → r ≡ s
report_value r s h = cc

-- The paths of the report that MarkAsProcessed returns
marked_paths :
    (v : Bytes → Bool) (dest : FilePath) (c : Bytes) (r moved : Report) (w : World)
    → (mark_as_processed v dest c r w).0 ≡ ok moved
    → (r.path ≡ moved.stash_path) × (r.name ∷ dest ≡ moved.path)
unfolding mark_as_processed
marked_paths v dest c r moved w h =
    let (orig, e1, h1) = bind-eq_ok (hiding (read_json v r)) _ w h in
    let w1 = (read_json v r w).1 in
    let (_, e2, h2) = bind-eq_ok (hiding (write_file (r.name ∷ dest) c)) _ w1 h1 in
    let w2 = (write_file (r.name ∷ dest) c w1).1 in
    let (_, e3, h3) = bind-eq_ok (hiding (remove r.path)) _ w2 h2 in
    let same = report_value _ moved h3 in (ap (λ x. x.stash_path) same, ap (λ x. x.path) same)

-- The order in which the reports are handled picks from those that are there.
abbrev pub PicksFrom : (List Report → List Report) → Type 0
PicksFrom order = (rs : List Report) (r : Report) → Has r (order rs) → Has r rs

module _ (u : Uploader) (m : Bytes) (e : FilePath) (b : Bytes)
    (outside : (p : FilePath) → (m ∷ e) ≢ p ++ u.cache_dir) where
  Stays-send : (url : FilePath) (payload : Bytes) → Keeps (Stays (m ∷ e) b) (send url payload)
  Stays-send url payload = Stays-of_tree (m ∷ e) b (send url payload) (send_tree url payload)

  Stays-mkdir_all : (p : FilePath) → Keeps (Stays (m ∷ e) b) (mkdir_all p)
  unfolding Stays
  Stays-mkdir_all p = record { at = λ w s. mkdir_all_keeps p (m ∷ e) (file b) w s }

  Stays-settle :
      (r : Report) (s : Status)
      → Inside u.cache_dir r.stash_path
      → Inside u.cache_dir r.path
      → Keeps (Stays (m ∷ e) b) (settle u r s)
  unfolding settle
  Stays-settle r (ok _) hs hp = Keeps-pure tt
  Stays-settle r (err f) hs hp =
      Keeps-bind _ _ (Keeps-attempt _ (Stays-undo_processed u.cache_dir m e b outside r hs hp))
        (λ _. Keeps-raise f)

  Stays-move_and_send :
      (r : Report) (dest url : FilePath) (payload : Bytes)
      → Inside u.cache_dir (r.name ∷ dest)
      → Inside u.cache_dir r.path
      → Keeps (Stays (m ∷ e) b) (move_and_send u r dest url payload)
  unfolding move_and_send
  Stays-move_and_send r dest url payload hd hp = record {
    at = λ w s.
        let marking = hiding (mark_as_processed u.json_valid dest payload r) in
        let w1 = (marking w).1 in
        let s1 =
          (Stays-mark_as_processed u.cache_dir m e b outside u.json_valid dest payload r hd hp).at w
            s in
        bind_elim (λ _ w'. Stays (m ∷ e) b w') marking _ w
          (λ moved h.
            let (stash, path) =
              marked_paths u.json_valid dest payload r moved w
                (opaque-eq_ok (mark_as_processed u.json_valid dest payload r w).0 h) in
            (Keeps-bind (attempt (send url payload)) (λ outcome. settle u moved outcome)
                (Keeps-attempt _ (Stays-send url payload))
                (λ outcome.
                  Stays-settle moved outcome (subst (Inside u.cache_dir) stash hp)
                    (subst (Inside u.cache_dir) path hd))).at
              w1 s1)
          (λ _ _. s1);
  }

  Stays-upload_report :
      (r : Report) (dest url : FilePath) (consent force : Bool)
      → Inside u.cache_dir (r.name ∷ dest)
      → Inside u.cache_dir r.path
      → Keeps (Stays (m ∷ e) b) (upload_report u r dest url consent force)
  unfolding upload_report
  Stays-upload_report r dest url consent force hd hp =
      search (keeps_rules, Stays-stat, Stays-read_json, Stays-move_and_send, hd, hp) depth 14

  Stays-upload_reports :
      (dest url : FilePath) (consent force : Bool) (rs : List Report) (errors : Status)
      → Inside u.cache_dir dest
      → All (λ (r : Report). Inside u.cache_dir r.path) rs
      → Keeps (Stays (m ∷ e) b) (upload_reports u dest url consent force rs errors)
  unfolding upload_reports
  Stays-upload_reports dest url consent force [] errors hd hp = Keeps-pure errors
  Stays-upload_reports dest url consent force (r ∷ rs) errors (x, d, i) hp =
      Keeps-bind _ _
        (Keeps-attempt _ (
          Stays-upload_report r dest url consent force (r.name, x ∷ d, ap (λ p. r.name ∷ p) i)
            hp.0))
        (λ s. Stays-upload_reports dest url consent force rs (gather u s errors) (x, d, i) hp.1)

  Stays-tidy :
      (d : FilePath) (s : Status) → Inside u.cache_dir d → Keeps (Stays (m ∷ e) b) (tidy u d s)
  unfolding tidy
  Stays-tidy d s i =
      Keeps-if u.dry_run (lift s)
        (attempt (cleanup d u.options.max_reports) >>= λ cleaned. lift (join cleaned s))
        (λ _. Keeps-lift s)
        (λ _.
          Keeps-bind _ _
            (Keeps-attempt _ (Stays-cleanup u.cache_dir m e b outside d u.options.max_reports i))
            (λ cleaned. Keeps-lift (join cleaned s)))

  picked :
      PicksFrom u.order → (P : Report → Type 0) (rs : List Report) → All P rs → All P (u.order rs)
  picked h P rs all = by_members (u.order rs) (λ r has. All-Has P rs r all (h rs r has))
    where
      by_members : (l : List Report) → ((r : Report) → Has r l → P r) → All P l
      by_members [] f = tt
      by_members (r ∷ l) f = (f r (inl refl), by_members l (λ s has. f s (inr has)))

  Stays-upload_consented :
      (source : Bytes) (force consent : Bool)
      → PicksFrom u.order
      → Keeps (Stays (m ∷ e) b) (upload_consented u source force consent)
  unfolding upload_consented
  Stays-upload_consented source force consent picks = record {
    at = λ w s.
        let c = collected_dir u source in
        let d = uploaded_dir u source in
        let found = (Stays-get_all (m ∷ e) b c).at w s in
        bind_elim (λ _ w'. Stays (m ∷ e) b w') (hiding (get_all c)) _ w
          (λ rs h.
            let inside =
              get_all-Inside u.cache_dir c w rs (codes "local", source ∷ [], refl)
                (opaque-eq_ok (get_all c w).0 h) in
            (Keeps-bind (lift (get_url u.options.base_url source)) _ (Keeps-lift _) (λ url.
                Keeps-bind (upload_reports u d url consent force (u.order rs) done) (tidy u d)
                  (Stays-upload_reports d url consent force (u.order rs) done
                    (codes "uploaded", source ∷ [], refl)
                    (picked picks (λ r. Inside u.cache_dir r.path) rs inside))
                  (λ errors. Stays-tidy d errors (codes "uploaded", source ∷ [], refl)))).at
              _ found)
          (λ _ _. found);
  }

  Stays-make_dirs : (c d : FilePath) → Keeps (Stays (m ∷ e) b) (make_dirs u c d)
  unfolding make_dirs
  Stays-make_dirs c d =
      Keeps-bind _ _ (Keeps-hiding _ (Stays-mkdir_all c)) (λ _. Keeps-hiding _ (Stays-mkdir_all d))

  -- A file outside of the directory of the reports stays, whatever is uploaded.
  pub Stays-upload :
      (source : Bytes) (force : Bool)
      → PicksFrom u.order
      → Keeps (Stays (m ∷ e) b) (u.consent source)
      → Keeps (Stays (m ∷ e) b) (upload u source force)
  unfolding upload
  Stays-upload source force picks asks =
      let dirs = make_dirs u (collected_dir u source) (uploaded_dir u source) in
      let consented = upload_consented u source force in
      Keeps-if (is_nil source) (raise plain) (dirs >> (u.consent source >>= consented))
        (λ _. Keeps-raise plain)
        (λ _.
          Keeps-bind dirs (λ _. u.consent source >>= consented)
            (Stays-make_dirs (collected_dir u source) (uploaded_dir u source))
            (λ _.
              Keeps-bind (u.consent source) consented asks
                (λ c. Stays-upload_consented source force c picks)))
