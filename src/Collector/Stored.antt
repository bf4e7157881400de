-- ===== src/Collector/Stored.antt =====
-- What Write stores.
use ubuntu_insights.Base.{
  Bool, Bytes, Option, ap, arith, codes, false, if◌then◌else◌, inl, inr, length, none, refl, some,
  ℕ, ◌∙◌, ◌∷◌, ◌≡◌, ◌≢◌, ◌⊎◌,
}
use ubuntu_insights.Base.Decimal.{format_int}
use ubuntu_insights.Base.Int.{ℤ}
use ubuntu_insights.Collector.{
  Collector, handle_duplicates, make_dirs, payload_for, report_date, store, write_granted,
  write_insights, write_report,
}
use ubuntu_insights.Env.{or_plain}
use ubuntu_insights.FileUtils.{write_file}
use ubuntu_insights.FileUtils.Atomic.{atomic_write-OldOrNew, atomic_write-done, temp_path}
use ubuntu_insights.FileUtils.Temp.{ne-temp_path}
use ubuntu_insights.Report.{cleanup}
use ubuntu_insights.Report.Cleanup.{WasSurplus, cleanup_surplus}
use ubuntu_insights.Report.Names.{report_name}
use ubuntu_insights.System.Files.{mkdir_all, node_at}
use ubuntu_insights.System.Files.Laws.{mkdir_all-dir, mkdir_all_keeps}
use ubuntu_insights.System.Steps.{bind_elim, opaque-eq_ok}
use ubuntu_insights.System.World.{
  FilePath, Status, World, dir, done, file, hiding, lift, ok, opaque,
}
use ubuntu_insights.Uploader.{opt_out_payload}

module _ (c : Collector) (data' : Bytes) (t : ℤ) where
  abbrev pub stored_path : FilePath
  stored_path = report_name t ∷ c.collected_dir

  name_no_temp : (w : World) → stored_path ≢ temp_path stored_path w
  unfolding report_name
  name_no_temp w = ne-temp_path (format_int t) (codes "json") b'.' c.collected_dir w (omega arith)

  -- From the world `v` in which the report has been written, the clean-up has led to `w'`, and the
  -- report is still there, or it was one of the surplus reports.
  abbrev pub CleanedUp : World → World → Type 0
  CleanedUp v w' =
      (node_at stored_path v.tree ≡ some (file data'))
      × (w' ≡ (cleanup c.collected_dir c.max_reports v).1)
      × ((node_at stored_path w'.tree ≡ some (file data'))
          ⊎ ((node_at stored_path w'.tree ≡ none)
              × WasSurplus c.collected_dir c.max_reports v stored_path))

  abbrev Stored : Status → World → Type 0
  Stored r w' = r ≡ done → (v : World) × CleanedUp v w'

  after_write :
      (w2 : World)
      → (write_file stored_path data' w2).0 ≡ done
      → node_at stored_path (write_file stored_path data' w2).1.tree ≡ some (file data')
  unfolding write_file
  after_write w2 h = ground (
    arith,
    atomic_write-done (report_name t) c.collected_dir data' 0 w2 stored_path (name_no_temp w2) h,
  )

  longer : {x : Bytes} {p : FilePath} → p ≢ x ∷ p
  longer {x} {p} e = let l : length p ≡ length (x ∷ p) = ap length e in omega (arith, l)

  dir_after_write :
      (w2 : World)
      → node_at c.collected_dir w2.tree ≡ some dir
      → node_at c.collected_dir (write_file stored_path data' w2).1.tree ≡ some dir
  unfolding write_file
  dir_after_write w2 at =
      elim (atomic_write-OldOrNew (report_name t) c.collected_dir data' 0 w2 c.collected_dir
        longer) [ inl same ↦ same ∙ at | inr (e, _) ↦ absurd (longer e) ]

  after_cleanup :
      (v : World)
      → node_at c.collected_dir v.tree ≡ some dir
      → node_at stored_path v.tree ≡ some (file data')
      → CleanedUp v (cleanup c.collected_dir c.max_reports v).1
  after_cleanup v at h = (
    h,
    refl,
    elim (cleanup_surplus c.collected_dir c.max_reports v (report_name t) c.collected_dir at) [
      | inl same ↦ inl (same ∙ h)
      | inr gone ↦ inr gone
    ],
  )

  make_dirs-dir :
      (w : World)
      → (make_dirs c w).0 ≡ done
      → node_at c.collected_dir (make_dirs c w).1.tree ≡ some dir
  unfolding make_dirs
  make_dirs-dir w =
      bind_elim (λ r w'. r ≡ done → node_at c.collected_dir w'.tree ≡ some dir)
        (hiding (mkdir_all c.collected_dir)) _ w
        (λ _ e _.
          mkdir_all_keeps c.uploaded_dir c.collected_dir dir (mkdir_all c.collected_dir w).1 (
            mkdir_all-dir c.collected_dir w
              (ground (arith, opaque-eq_ok (mkdir_all c.collected_dir w).0 e))))
        (λ _ _ h. absurd (ground arith))

  store-Stored : (w : World) → Stored (store c data' t w).0 (store c data' t w).1
  unfolding store write_report
  store-Stored w =
      bind_elim Stored (hiding (make_dirs c)) _ w
        (λ _ made_.
          let w2 = (make_dirs c w).1 in
          let at : node_at c.collected_dir w2.tree ≡ some dir =
            make_dirs-dir w (ground (arith, opaque-eq_ok (make_dirs c w).0 made_)) in
          bind_elim Stored (hiding (write_report c data' t)) _ w2
            (λ _ e.
              let ok_ : (write_file stored_path data' w2).0 ≡ done = ground (
                arith,
                opaque-eq_ok (opaque (write_file stored_path data' w2).0) e,
                opaque-eq_ok (write_file stored_path data' w2).0,
              ) in
              λ h. (
                (write_file stored_path data' w2).1,
                after_cleanup (write_file stored_path data' w2).1 (dir_after_write w2 at)
                    (after_write w2 ok_),
              ))
            (λ _ _ h. absurd (ground arith)))
        (λ _ _ h. absurd (ground arith))

module _ (c : Collector) (encoded : Option Bytes) (date : ℤ) (period : ℕ) (force : Bool)
    (w : World) where
  -- The report that the consent calls for was written, and then there was the clean-up.
  abbrev pub HoldsPayload : World → Type 0
  HoldsPayload w' =
      (granted : Bool) × (data' : Bytes) × ((c.consent c.source w).0 ≡ ok granted)
      × (encoded ≡ some data')
      × ((v : World) × CleanedUp c (if granted then data' else opt_out_payload) (report_date c date)
            v w')

  encoded_data : (data' : Bytes) → or_plain encoded ≡ ok data' → encoded ≡ some data'
  encoded_data data' h = encoded_some encoded data' h
    where
      encoded_some : (o : Option Bytes) (b : Bytes) → or_plain o ≡ ok b → o ≡ some b
      encoded_some none b h = cc
      encoded_some (some a) b h = ground arith

  -- When Write returns no error and is no dry run, GetState has answered, and the file of the
  -- report's time held, before the clean-up, the encoded report if consent was granted and the
  -- opt-out payload if not. The clean-up has left it, or has removed it; then more reports of the
  -- directory than the limit allows, it among them, were dated at its time or later, or one report
  -- of the directory was dated before 1970.
  pub write_insights_stores :
      (write_insights c encoded date period force false w).0 ≡ done
      → HoldsPayload (write_insights c encoded date period force false w).1
  unfolding write_insights write_granted
  write_insights_stores =
      bind_elim (λ r w'. r ≡ done → HoldsPayload w') (lift (or_plain encoded)) _ w
        (λ data' e.
          bind_elim (λ r w'. r ≡ done → HoldsPayload w') (c.consent c.source) _ w
            (λ granted g.
              let t = report_date c date in
              let w1 = (c.consent c.source w).1 in
              bind_elim (λ r w'. r ≡ done → HoldsPayload w')
                (handle_duplicates c force false t period) _ w1
                (λ _ _ h. (
                  granted,
                  data',
                  g,
                  encoded_data data' e,
                  store-Stored c (payload_for granted data') t
                      (handle_duplicates c force false t period w1).1 h,
                ))
                (λ _ _ h. absurd (ground arith)))
            (λ _ _ h. absurd (ground arith)))
        (λ _ _ h. absurd (ground arith))
