-- ===== src/Server/Processor/Removal.antt =====
-- Which files processFile removes.
use ubuntu_insights.Base.{Bytes, Option, ap, arith, false, refl, some, true, ℕ, ◌||◌, ◌∙◌, ◌≡◌, ◌≢◌}
use ubuntu_insights.Server.Processor.{
  Database, Decoders, after_upload, decode_file, finish_file, get_report_id, has_failed_upload,
  parse_legacy_app, process_and_upload, process_file, process_kind, upload_validated,
  validate_legacy_report, validate_report, was_attempted,
}
use ubuntu_insights.Server.Processor.Kinds.{
  IsDecoded, Parsed, current, legacy, of_legacy, sending, validation,
}
use ubuntu_insights.Server.Sanitize.{sanitize_invalid_unicode_escapes}
use ubuntu_insights.System.Calm.{IsCalm, IsCalm-of_fault, calm_now}
use ubuntu_insights.System.Files.{node_at, read_file}
use ubuntu_insights.System.Steps.{bind_elim}
use ubuntu_insights.System.World.{
  Error, FilePath, Io, Result, Sentinel-discrete, Status, World, err, fails_with, file, is_ok, ok,
  unexpected_fields,
}

pub read_file_calm :
    (path : FilePath) (b : Bytes) (w : World)
    → IsCalm w
    → node_at path w.tree ≡ some (file b)
    → ((read_file path w).0 ≡ ok b) × ((read_file path w).1.tree ≡ w.tree)
unfolding read_file
read_file_calm path b w c h = ground (arith, calm_now w c)

-- The validation lets the report through, with or without unexpected fields.
abbrev pub IsSendable : Status → Type 0
IsSendable v = (is_ok v || fails_with v unexpected_fields) ≡ true

-- A call of the database that is refused and leaves the files alone.
abbrev pub IsRefused : Io (Unit {0}) → Type 0
IsRefused m = (w : World) → (is_ok (m w).0 ≡ false) × ((m w).1.tree ≡ w.tree)

after_upload_failed : (r v : Status) → is_ok r ≡ false → has_failed_upload (after_upload r v) ≡ true
unfolding has_failed_upload Sentinel-discrete
after_upload_failed (ok _) v h = absurd (ground arith)
after_upload_failed (err e) (ok _) h = refl
after_upload_failed (err e) (err f) h = refl

module _ (path : FilePath) (b : Bytes) where
  abbrev Failed : Status → World → Type 0
  Failed r w' = (has_failed_upload r ≡ true) × (node_at path w'.tree ≡ some (file b))

  upload_validated-Failed :
      (v : Status) (m : Io (Unit {0})) (w : World)
      → IsSendable v
      → IsRefused m
      → node_at path w.tree ≡ some (file b)
      → Failed (upload_validated v m w).0 (upload_validated v m w).1
  unfolding upload_validated
  upload_validated-Failed v m w s n h =
      rw s (after_upload_failed (m w).0 v (n w).0, ap (node_at path) (n w).1 ∙ h)

  process_and_upload-Failed :
      {T : Type 0} (decode : Bytes → Option T) (validate : T → Status)
      (send_report : T → Io (Unit {0})) (report : T) (w : World)
      → IsCalm w
      → node_at path w.tree ≡ some (file b)
      → decode (sanitize_invalid_unicode_escapes b) ≡ some report
      → IsSendable (validate report)
      → IsRefused (send_report report)
      → let m = process_and_upload decode validate send_report path in Failed (m w).0 (m w).1
  unfolding process_and_upload decode_file
  process_and_upload-Failed decode validate send_report report w c h d s n =
      let read = read_file_calm path b w c h in
      rw (read.0, d)
        (upload_validated-Failed (validate report) (send_report report) (read_file path w).1 s n
          (ap (node_at path) read.1 ∙ h))

-- One attempt and one failure are counted, and the file at `path` still holds `b`.
abbrev pub IsRetried : FilePath → Bytes → Result (ℕ × ℕ) → World → Type 0
IsRetried path b r w' = (r ≡ ok (1, 1)) × (node_at path w'.tree ≡ some (file b))

pub report_id_world :
    (decoders : Decoders) (path : FilePath) (w : World)
    → ((get_report_id decoders path w).1.tree ≡ w.tree)
      × ((get_report_id decoders path w).1.fault ≡ w.fault)
unfolding get_report_id
report_id_world decoders path w = ground arith

pub report_id_ok :
    (decoders : Decoders) (path : FilePath) (w : World) (e : Error)
    → (get_report_id decoders path w).0 ≢ err e
unfolding get_report_id
report_id_ok decoders path w e h = ground arith

module _ (decoders : Decoders) (db : Database) (path : FilePath) (app b : Bytes) (w : World)
    (calm : IsCalm w) (stored : node_at path w.tree ≡ some (file b)) where
  attempted_failure : (r : Status) → has_failed_upload r ≡ true → was_attempted r ≡ true
  unfolding has_failed_upload was_attempted
  attempted_failure r h = ground arith

  finish-Failed :
      (id : Bytes) (r : Status) (w' : World)
      → Failed path b r w'
      → IsRetried path b
          (finish_file decoders db path id app r w').0
          (finish_file decoders db path id app r w').1
  unfolding finish_file
  finish-Failed id r w' (f, h) = rw (f, attempted_failure r f) (refl, h)

  process_kind-Failed :
      (x : Parsed) (id : Bytes) (w1 : World)
      → IsCalm w1
      → node_at path w1.tree ≡ some (file b)
      → IsDecoded decoders b x
      → IsSendable (validation x)
      → IsRefused (sending db app id x)
      → let m = process_kind decoders db path id app (of_legacy x) in
        Failed path b (m w1).0 (m w1).1
  unfolding process_kind
  process_kind-Failed (current report) id w1 c at =
      process_and_upload-Failed path b decoders.target validate_report (db.upload id app) report w1
        c at
  process_kind-Failed (legacy report) id w1 c at =
      process_and_upload-Failed path b decoders.legacy validate_legacy_report
        (db.upload_legacy id (parse_legacy_app app).0 (parse_legacy_app app).1) report w1 c at

  -- A report that the database refuses, of the current or of the legacy kind, on a file system that
  -- does not fail, stays in its file to be tried again, whether it has unexpected fields or not, and
  -- counts as one attempt and one failure: it is not uploaded as an invalid report. (The report is
  -- one that its file is decoded to, and its validation finds no more than unexpected fields.)
  pub process_file-IsRetried :
      (x : Parsed)
      → IsDecoded decoders b x
      → IsSendable (validation x)
      → ((id : Bytes) → IsRefused (sending db app id x))
      → IsRetried path b
          (process_file decoders db path app (of_legacy x) w).0
          (process_file decoders db path app (of_legacy x) w).1
  unfolding process_file
  process_file-IsRetried x d s n =
      bind_elim (IsRetried path b) (get_report_id decoders path) _ w
        (λ id _.
          let w1 = (get_report_id decoders path w).1 in
          let (same, faults) = report_id_world decoders path w in
          let m = process_kind decoders db path id app (of_legacy x) in
          finish-Failed id (m w1).0 (m w1).1 (
            process_kind-Failed x id w1 (IsCalm-of_fault w w1 faults calm)
              (ap (node_at path) same ∙ stored) d s (n id)))
        (λ e h. absurd (report_id_ok decoders path w e h))
