-- ===== src/Server/Processor/Success.antt =====
-- What becomes of a report that the database accepts.
use ubuntu_insights.Base.{Bytes, Option, ap, arith, false, none, refl, some, ℕ, ◌∙◌, ◌∷◌, ◌≡◌}
use ubuntu_insights.Server.Processor.{
  Database, Decoders, TargetModel, decode_file, finish_file, get_report_id, handle_invalid,
  has_failed_upload, process_and_upload, process_file, process_kind, upload_validated,
  validate_report, was_attempted,
}
use ubuntu_insights.Server.Processor.Removal.{read_file_calm, report_id_ok, report_id_world}
use ubuntu_insights.Server.Sanitize.{sanitize_invalid_unicode_escapes}
use ubuntu_insights.System.Calm.{IsCalm, IsCalm-of_fault, calm_now}
use ubuntu_insights.System.Files.{node_at, read_file}
use ubuntu_insights.System.Files.Laws.{remove_calm}
use ubuntu_insights.System.Steps.{bind_elim}
use ubuntu_insights.System.World.{FilePath, Io, Result, Status, World, done, err, file, ok}

-- A call of the database that is accepted and leaves the files and the schedule alone.
abbrev pub IsAccepted : Io (Unit {0}) → Type 0
IsAccepted m = (w : World) → ((m w).0 ≡ done) × ((m w).1.tree ≡ w.tree) × ((m w).1.fault ≡ w.fault)

-- One attempt and no failure are counted, and the file at `path` is gone.
abbrev pub IsStored : FilePath → Result (ℕ × ℕ) → World → Type 0
IsStored path r w' = (r ≡ ok (1, 0)) × (node_at path w'.tree ≡ none)

pub read_file_fault : (path : FilePath) (w : World) → (read_file path w).1.fault ≡ w.fault
unfolding read_file
read_file_fault path w = ground arith

module _ (n : Bytes) (d : FilePath) (b : Bytes) where
  -- The upload went well, and the file is still there, to be removed.
  abbrev Accepted : Status → World → Type 0
  Accepted r w' = (r ≡ done) × IsCalm w' × (node_at (n ∷ d) w'.tree ≡ some (file b))

  upload_validated-Accepted :
      (m : Io (Unit {0})) (w : World)
      → IsAccepted m
      → IsCalm w
      → node_at (n ∷ d) w.tree ≡ some (file b)
      → Accepted (upload_validated done m w).0 (upload_validated done m w).1
  unfolding upload_validated
  upload_validated-Accepted m w a c h =
      let (ok_, same, faults) = a w in
      rw ok_ (refl, IsCalm-of_fault w (m w).1 faults c, ap (node_at (n ∷ d)) same ∙ h)

  process_and_upload-Accepted :
      {T : Type 0} (decode : Bytes → Option T) (validate : T → Status)
      (send_report : T → Io (Unit {0})) (report : T) (w : World)
      → IsCalm w
      → node_at (n ∷ d) w.tree ≡ some (file b)
      → decode (sanitize_invalid_unicode_escapes b) ≡ some report
      → validate report ≡ done
      → IsAccepted (send_report report)
      → let m = process_and_upload decode validate send_report (n ∷ d) in Accepted (m w).0 (m w).1
  unfolding process_and_upload decode_file
  process_and_upload-Accepted decode validate send_report report w c h e v a =
      let read = read_file_calm (n ∷ d) b w c h in
      let w1 = (read_file (n ∷ d) w).1 in
      rw (read.0, e, v)
        (upload_validated-Accepted (send_report report) w1 a
          (IsCalm-of_fault w w1 (read_file_fault (n ∷ d) w) c) (ap (node_at (n ∷ d)) read.1 ∙ h))

module _ (decoders : Decoders) (db : Database) (n : Bytes) (d : FilePath) (app b : Bytes)
    (w : World) (calm : IsCalm w) (stored : node_at (n ∷ d) w.tree ≡ some (file b)) where
  finish-IsStored :
      (id : Bytes) (r : Status) (w' : World)
      → Accepted n d b r w'
      → IsStored
          (n ∷ d)
          (finish_file decoders db (n ∷ d) id app r w').0
          (finish_file decoders db (n ∷ d) id app r w').1
  unfolding finish_file handle_invalid has_failed_upload was_attempted
  finish-IsStored id (ok _) w' (e, c, h) = (refl, (remove_calm n d w' b (calm_now w' c) h).1)
  finish-IsStored id (err f) w' (e, c, h) = absurd (ground arith)

  -- A valid report that the database accepts, on a file system that does not fail, is removed from
  -- the file system, and counts as one attempt and no failure.
  pub process_file-IsStored :
      (report : TargetModel)
      → decoders.target (sanitize_invalid_unicode_escapes b) ≡ some report
      → validate_report report ≡ done
      → ((id : Bytes) → IsAccepted (db.upload id app report))
      → IsStored
          (n ∷ d)
          (process_file decoders db (n ∷ d) app false w).0
          (process_file decoders db (n ∷ d) app false w).1
  unfolding process_file process_kind
  process_file-IsStored report e v a =
      bind_elim (IsStored (n ∷ d)) (get_report_id decoders (n ∷ d)) _ w
        (λ id _.
          let w1 = (get_report_id decoders (n ∷ d) w).1 in
          let (same, faults) = report_id_world decoders (n ∷ d) w in
          let m = process_and_upload decoders.target validate_report (db.upload id app) (n ∷ d) in
          finish-IsStored id (m w1).0 (m w1).1 (
            process_and_upload-Accepted n d b decoders.target validate_report (db.upload id app)
              report w1 (IsCalm-of_fault w w1 faults calm) (ap (node_at (n ∷ d)) same ∙ stored) e v
              (a id)))
        (λ f h. absurd (report_id_ok decoders (n ∷ d) w f h))
