-- ===== src/Uploader/Trace.antt =====
-- What Upload does to the requests and the pauses, from what one request does to them.
use ubuntu_insights.Base.{Bool, Bytes, List, [], false, if◌then◌else◌, ℕ, ◌∷◌, ◌≡◌}
use ubuntu_insights.Report.{Report}
use ubuntu_insights.Report.Trace.{
  OnTrace-cleanup, OnTrace-get_all, OnTrace-mark_as_processed, OnTrace-read_json,
  OnTrace-undo_processed,
}
use ubuntu_insights.System.Files.Trace.{OnTrace, trace_rules}
use ubuntu_insights.System.Keeps.{Keeps, Keeps-attempt, Keeps-bind, Keeps-hiding, Keeps-pure}
use ubuntu_insights.System.World.{FilePath, Post, Status, err, ok}
use ubuntu_insights.Uploader.{
  Uploader, gather, make_dirs, move_and_send, opt_out_payload, send, settle, tidy, upload_consented,
  upload_report, upload_reports,
}

module _ (Q : List Post → List ℕ → Type 0) (consent : Bool)
    (sends : (url : FilePath) (payload : Bytes)
      → (consent ≡ false → payload ≡ opt_out_payload)
      → Keeps (OnTrace Q) (send url payload))
    (u : Uploader) where
  OnTrace-settle : (r : Report) (s : Status) → Keeps (OnTrace Q) (settle u r s)
  unfolding settle
  OnTrace-settle r (ok _) = Keeps-pure tt
  OnTrace-settle r (err e) = search (trace_rules, OnTrace-undo_processed) depth 7

  OnTrace-move_and_send :
      (r : Report) (d url : FilePath) (payload : Bytes)
      → (consent ≡ false → payload ≡ opt_out_payload)
      → Keeps (OnTrace Q) (move_and_send u r d url payload)
  unfolding move_and_send
  OnTrace-move_and_send r d url payload h =
      Keeps-bind _ _ (Keeps-hiding _ (OnTrace-mark_as_processed Q u.json_valid d payload r))
        (λ moved.
          Keeps-bind _ _ (Keeps-attempt _ (sends url payload h)) (λ s. OnTrace-settle moved s))

  payload_allowed :
      (orig : Bytes)
      → consent ≡ false
      → (if consent then orig else opt_out_payload) ≡ opt_out_payload
  payload_allowed orig e = rw e

  OnTrace-upload_report :
      (r : Report) (d url : FilePath) (force : Bool)
      → Keeps (OnTrace Q) (upload_report u r d url consent force)
  unfolding upload_report
  OnTrace-upload_report r d url force =
      search (trace_rules, OnTrace-read_json, OnTrace-move_and_send, payload_allowed) depth 14

  OnTrace-upload_reports :
      (d url : FilePath) (force : Bool) (rs : List Report) (errors : Status)
      → Keeps (OnTrace Q) (upload_reports u d url consent force rs errors)
  unfolding upload_reports
  OnTrace-upload_reports d url force [] errors = Keeps-pure errors
  OnTrace-upload_reports d url force (r ∷ rs) errors =
      Keeps-bind _ _ (Keeps-attempt _ (OnTrace-upload_report r d url force))
        (λ s. OnTrace-upload_reports d url force rs (gather u s errors))

  OnTrace-tidy : (d : FilePath) (s : Status) → Keeps (OnTrace Q) (tidy u d s)
  unfolding tidy
  OnTrace-tidy d s = search (trace_rules, OnTrace-cleanup) depth 7

  pub OnTrace-upload_consented :
      (source : Bytes) (force : Bool) → Keeps (OnTrace Q) (upload_consented u source force consent)
  unfolding upload_consented
  OnTrace-upload_consented source force =
      search (trace_rules, OnTrace-get_all, OnTrace-upload_reports, OnTrace-tidy) depth 9

module _ (Q : List Post → List ℕ → Type 0) where
  pub OnTrace-make_dirs : (u : Uploader) (d e : FilePath) → Keeps (OnTrace Q) (make_dirs u d e)
  unfolding make_dirs
  OnTrace-make_dirs u d e = search trace_rules depth 7
