-- ===== src/Server/Database/Delivery.antt =====
-- processFile on a database: a stored report is not lost between the two.
use ubuntu_insights.Base.{
  Bytes, Option, [], ap, arith, inl, inr, none, refl, some, subst, true, ℕ, ◌++◌, ◌∙◌, ◌∷◌, ◌≡◌,
  ◌⊎◌,
}
use ubuntu_insights.Base.Int.{ℤ}
use ubuntu_insights.Server.Database.{legacy_table}
use ubuntu_insights.Server.Database.Inserts.{Inserts, IsStore, legacy_row, report_row}
use ubuntu_insights.Server.Processor.{
  Database, Decoders, after_upload, decode_file, finish_file, get_report_id, handle_invalid,
  has_failed_upload, parse_legacy_app, process_and_upload, process_file, process_kind,
  upload_validated, validate_legacy_report, validate_report, was_attempted,
}
use ubuntu_insights.Server.Processor.Kinds.{
  IsDecoded, Parsed, current, identifier, legacy, of_legacy, validation,
}
use ubuntu_insights.Server.Processor.Removal.{read_file_calm, report_id_ok, report_id_world}
use ubuntu_insights.Server.Processor.Success.{read_file_fault}
use ubuntu_insights.Server.Sanitize.{sanitize_invalid_unicode_escapes}
use ubuntu_insights.System.Calm.{IsCalm, IsCalm-of_fault, calm_now}
use ubuntu_insights.System.Files.{node_at, read_file, remove}
use ubuntu_insights.System.Files.Laws.{remove_calm}
use ubuntu_insights.System.Steps.{bind_elim}
use ubuntu_insights.System.World.{
  FilePath, Io, Result, Row, Sentinel-discrete, Status, World, done, err, file, ok,
}

-- The row of a report, in the table of its kind, with an identifier and a time.
abbrev pub row_of : Bytes → Bytes → ℤ → Parsed → Bytes × Row
row_of app id time (current report) = (app, report_row id time report)
row_of app id time (legacy report) =
    (legacy_table, legacy_row id time (parse_legacy_app app).0 (parse_legacy_app app).1 report)

-- The file at `path` is gone, and `row` is the one new row.
abbrev pub Delivered : FilePath → Bytes × Row → World → Result (ℕ × ℕ) → World → Type 0
Delivered path row w r w' =
    (r ≡ ok (1, 0)) × (node_at path w'.tree ≡ none) × (w'.rows ≡ w.rows ++ (row ∷ []))

-- The file at `path` still holds `b`, and `row` is the one new row at most.
abbrev pub Retained : FilePath → Bytes → Bytes × Row → World → Result (ℕ × ℕ) → World → Type 0
Retained path b row w r w' =
    (r ≡ ok (1, 1))
    × (node_at path w'.tree ≡ some (file b))
    × ((w'.rows ≡ w.rows) ⊎ (w'.rows ≡ w.rows ++ (row ∷ [])))

read_file_rows : (p : FilePath) (w : World) → (read_file p w).1.rows ≡ w.rows
unfolding read_file
read_file_rows p w = ground arith

remove_rows : (p : FilePath) (w : World) → (remove p w).1.rows ≡ w.rows
unfolding remove
remove_rows p w = ground arith

report_id_rows :
    (decoders : Decoders) (p : FilePath) (w : World) → (get_report_id decoders p w).1.rows ≡ w.rows
unfolding get_report_id
report_id_rows decoders p w = ground arith

report_id_value :
    (decoders : Decoders) (n : Bytes) (d : FilePath) (w : World) (id : Bytes)
    → (get_report_id decoders (n ∷ d) w).0 ≡ ok id
    → id ≡ identifier decoders n w
unfolding get_report_id
report_id_value decoders n d w id h = ground arith

-- The world in which processFile calls the database: a new identifier may have been drawn, and the
-- file has been read.
abbrev pub at_upload : Decoders → FilePath → World → World
at_upload decoders path w = (read_file path (get_report_id decoders path w).1).1

module _ (decoders : Decoders) (db : Database) (n : Bytes) (d : FilePath) (app b : Bytes)
    (w0 : World) where
  -- The result of processAndUpload, and what holds then.
  abbrev Sent : Bytes × Row → Status → World → Type 0
  Sent row r w' =
      ((r ≡ done)
        × IsCalm w'
        × (node_at (n ∷ d) w'.tree ≡ some (file b))
        × (w'.rows ≡ w0.rows ++ (row ∷ [])))
      ⊎ ((has_failed_upload r ≡ true)
          × (node_at (n ∷ d) w'.tree ≡ some (file b))
          × ((w'.rows ≡ w0.rows) ⊎ (w'.rows ≡ w0.rows ++ (row ∷ []))))

  abbrev Settled : Bytes × Row → Result (ℕ × ℕ) → World → Type 0
  Settled row r w' = Delivered (n ∷ d) row w0 r w' ⊎ Retained (n ∷ d) b row w0 r w'

  after_upload-Sent :
      (table : Bytes) (row : Row) (w : World) (r : Status) (w' : World)
      → IsCalm w
      → node_at (n ∷ d) w.tree ≡ some (file b)
      → w.rows ≡ w0.rows
      → Inserts table row w r w'
      → Sent (table, row) (after_upload r done) w'
  unfolding has_failed_upload Sentinel-discrete
  after_upload-Sent table row w (ok _) w' calm at same i = inl (
    refl,
    IsCalm-of_fault w w' i.fault calm,
    ap (node_at (n ∷ d)) i.tree ∙ at,
    rw same at (i.inserted refl),
  )
  after_upload-Sent table row w (err e) w' calm at same i = inr (
    refl,
    ap (node_at (n ∷ d)) i.tree ∙ at,
    elim i.at_most [ inl kept ↦ inl (kept ∙ same) | inr added ↦ inr (rw same at added) ],
  )

  process_and_upload-Sent :
      {T : Type 0} (decode : Bytes → Option T) (validate : T → Status)
      (send_report : T → Io (Unit {0})) (report : T) (table : Bytes) (row : World → Row) (w : World)
      → ((v : World) → Inserts table (row v) v (send_report report v).0 (send_report report v).1)
      → IsCalm w
      → node_at (n ∷ d) w.tree ≡ some (file b)
      → w.rows ≡ w0.rows
      → decode (sanitize_invalid_unicode_escapes b) ≡ some report
      → validate report ≡ done
      → let m = process_and_upload decode validate send_report (n ∷ d) in
        Sent (table, row (read_file (n ∷ d) w).1) (m w).0 (m w).1
  unfolding process_and_upload decode_file upload_validated
  process_and_upload-Sent decode validate send_report report table row w inserts calm at same e v =
      let read = read_file_calm (n ∷ d) b w calm at in
      let w1 = (read_file (n ∷ d) w).1 in
      rw (read.0, e, v)
        (after_upload-Sent table (row w1) w1 (send_report report w1).0 (send_report report w1).1
          (IsCalm-of_fault w w1 (read_file_fault (n ∷ d) w) calm) (ap (node_at (n ∷ d)) read.1 ∙ at)
          (read_file_rows (n ∷ d) w ∙ same) (inserts w1))

  process_kind-Sent :
      (x : Parsed) (now : World → ℤ) (id : Bytes) (w : World)
      → IsStore db now
      → IsCalm w
      → node_at (n ∷ d) w.tree ≡ some (file b)
      → w.rows ≡ w0.rows
      → IsDecoded decoders b x
      → validation x ≡ done
      → let m = process_kind decoders db (n ∷ d) id app (of_legacy x) in
        Sent (row_of app id (now (read_file (n ∷ d) w).1) x) (m w).0 (m w).1
  unfolding process_kind
  process_kind-Sent (current report) now id w store =
      process_and_upload-Sent decoders.target validate_report (db.upload id app) report app
        (λ v. report_row id (now v) report) w (store.upload-Inserts id app report)
  process_kind-Sent (legacy report) now id w store =
      let (distribution, version) = parse_legacy_app app in
      process_and_upload-Sent decoders.legacy validate_legacy_report
        (db.upload_legacy id distribution version) report legacy_table
        (λ v. legacy_row id (now v) distribution version report) w
        (store.upload_legacy-Inserts id distribution version report)

  finish-Settled :
      (row : Bytes × Row) (id : Bytes) (r : Status) (w' : World)
      → Sent row r w'
      → Settled row
          (finish_file decoders db (n ∷ d) id app r w').0
          (finish_file decoders db (n ∷ d) id app r w').1
  unfolding finish_file handle_invalid has_failed_upload was_attempted
  finish-Settled row id (ok _) w' (inl (e, calm, at, new)) =
      inl (refl, (remove_calm n d w' b (calm_now w' calm) at).1, remove_rows (n ∷ d) w' ∙ new)
  finish-Settled row id (err f) w' (inl (e, calm, at, new)) = absurd (ground arith)
  finish-Settled row id (ok _) w' (inr (e, at, rows)) = absurd (ground arith)
  finish-Settled row id (err f) w' (inr (e, at, rows)) = rw e (inr (ground arith, at, rows))

  -- With a database that inserts what it is given, and may fail at any call, and on a file system
  -- that does not fail: after processFile, a valid report, of the current or of the legacy kind, is
  -- either delivered, its file gone and its row the one new row of the database, or retained, its
  -- file as it was, to be tried again, and its row the one new row at most. Its row is in the table
  -- of its kind, with the file's name as the identifier if that is a UUID, and a new UUID if not,
  -- and with the time of the upload.
  pub process_file-Settled :
      (x : Parsed) (now : World → ℤ)
      → IsStore db now
      → IsCalm w0
      → node_at (n ∷ d) w0.tree ≡ some (file b)
      → IsDecoded decoders b x
      → validation x ≡ done
      → let (r, w') = process_file decoders db (n ∷ d) app (of_legacy x) w0 in
        let id = identifier decoders n w0 in
        let row = row_of app id (now (at_upload decoders (n ∷ d) w0)) x in
        Delivered (n ∷ d) row w0 r w' ⊎ Retained (n ∷ d) b row w0 r w'
  unfolding process_file
  process_file-Settled x now store calm at e v =
      let path : FilePath = n ∷ d in
      let time = now (at_upload decoders path w0) in
      bind_elim (Settled (row_of app (identifier decoders n w0) time x))
        (get_report_id decoders path) _ w0
        (λ id same_id.
          let w1 = (get_report_id decoders path w0).1 in
          let (same, faults) = report_id_world decoders path w0 in
          let m = process_kind decoders db path id app (of_legacy x) in
          subst
            (λ i.
              Settled (row_of app i time x)
                (finish_file decoders db path id app (m w1).0 (m w1).1).0
                (finish_file decoders db path id app (m w1).0 (m w1).1).1)
            (report_id_value decoders n d w0 id same_id)
            (finish-Settled (row_of app id time x) id (m w1).0 (m w1).1 (
              process_kind-Sent x now id w1 store (IsCalm-of_fault w0 w1 faults calm)
                (ap (node_at path) same ∙ at) (report_id_rows decoders path w0) e v)))
        (λ f h. absurd (report_id_ok decoders path w0 f h))
