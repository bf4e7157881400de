-- ===== src/Uploader.antt =====
-- insights/internal/uploader: sending the reports of each source to the server.
--
-- The goroutines of one call are run one after another, each in one go, in the order that a
-- schedule picks; the semaphores bound how many wait at once, and are not modelled.
pub mod AllOptOut
pub mod Confined
pub mod Retry
pub mod Trace
pub mod Backoff
pub mod Privacy
pub mod OptOut
use ubuntu_insights.Base.{
  Bool, Bytes, List, Option, [], codes, if◌then◌else◌, is_nil, length, none, not, some, ℕ, ◌&&◌,
  ◌*◌, ◌++◌, ◌==◌, ◌∷◌,
}
use ubuntu_insights.Base.Int.{ltb_ℤ, pos, wrap64, ℤ, ◌+ℤ◌, ◌-ℤ◌}
use ubuntu_insights.Report.{Report, cleanup, get_all, mark_as_processed, read_json, undo_processed}
use ubuntu_insights.Report.Moves.{moved}
use ubuntu_insights.System.Files.{mkdir_all, stat, syscall}
use ubuntu_insights.System.World.{
  FilePath, Io, Node, Reply, Result, Status, attempt, done, err, fails_with, hiding, is_error, join,
  lift, not_exist, ok, plain, pure, raise, report_not_mature, send_failure, status, unreachable,
  ◌>>=◌, ◌>>◌,
}

-- The options of New that tests override, with what url.Parse makes of the server's address: its
-- path, or none if it does not parse. Periods are in nanoseconds.
pub record Options : Type 0 where
  pub base_url : Option FilePath
  pub max_reports : ℕ
  pub base_retry_period : ℕ
  pub max_retry_period : ℕ
  pub max_attempts : ℕ

-- defaultOptions: https://metrics.ubuntu.com, 30 seconds, 30 minutes
abbrev pub default_options : Options
default_options = record {
  base_url = some [];
  max_reports = 150;
  base_retry_period = 30 * 1_000_000_000;
  max_retry_period = 30 * 60 * 1_000_000_000;
  max_attempts = 15;
}

-- Uploader. `now r` is the clock, in seconds since 1970, when report r is looked at.
pub record Uploader : Type 0 where
  pub consent : Bytes → Io Bool
  pub min_age : ℕ
  pub dry_run : Bool
  pub cache_dir : FilePath
  pub options : Options
  pub json_valid : Bytes → Bool
  pub now : Report → ℤ
  pub order : List Report → List Report
  pub source_order : List Bytes → List Bytes

-- constants.OptOutPayload: the JSON of struct{ OptOut bool }{true}
abbrev pub opt_out_payload : Bytes
opt_out_payload = codes "{\"OptOut\":true}"

-- The seconds from year 1 to 1970, which time.Unix adds to an int64.
abbrev pub unix_to_internal : ℤ
unix_to_internal = pos 62135596800

-- Now().Add(-minAge).Before(time.Unix(r.TimeStamp, 0)): seconds alone decide, as the other time
-- has no fraction.
unfoldable pub is_immature : Uploader → Report → Bool
unfolding wrap64 ◌+ℤ◌ ◌-ℤ◌
is_immature u r =
    ltb_ℤ (u.now r +ℤ unix_to_internal -ℤ pos u.min_age) (wrap64 (r.time_stamp +ℤ unix_to_internal))

-- What comes of a request: only StatusAccepted is a success.
unfoldable pub sent : Reply → Status
sent unreachable = err (send_failure ∷ [])
sent (status code) = if code == 202 then done else err (send_failure ∷ [])

abbrev pub post : FilePath → Bytes → Io (Unit {0})
post url payload w = (
  sent (w.reply (length w.posts)),
  record w { posts = w.posts ++ (record { url = url; payload = payload } ∷ []) },
)

-- send: the request may fail to be made.
unfoldable pub send : FilePath → Bytes → Io (Unit {0})
unfolding syscall
send url payload = syscall (post url payload)

-- getURL
abbrev pub get_url : Option FilePath → Bytes → Result FilePath
get_url none source = err plain
get_url (some p) source = ok (source ∷ codes "upload" ∷ p)

module _ (u : Uploader) where
  -- The check for a duplicate in the uploaded directory.
  abbrev pub may_upload : Bool → Result Node → Status
  may_upload force (ok node) = if force then done else err plain
  may_upload force (err e) = if is_error e not_exist then done else err plain

  -- After a failed request the report is put back; the error of that is joined to the first one.
  unfoldable pub settle : Report → Status → Io (Unit {0})
  settle r (ok _) = pure tt
  settle r (err send_err) = do _ ← attempt (undo_processed r); raise send_err

  -- The report is moved first, so that it is not sent and left unmarked.
  unfoldable pub move_and_send : Report → FilePath → FilePath → Bytes → Io (Unit {0})
  move_and_send r uploaded_dir url payload = do
    moved ← hiding (mark_as_processed u.json_valid uploaded_dir payload r)
    outcome ← attempt (send url payload)
    settle moved outcome

  -- upload, of one report
  unfoldable pub upload_report : Report → FilePath → FilePath → Bool → Bool → Io (Unit {0})
  upload_report r uploaded_dir url consent force =
      if is_immature u r && not force then raise (report_not_mature ∷ []) else (do
        existing ← attempt (stat (r.name ∷ uploaded_dir))
        lift (may_upload force existing)
        orig ← hiding (read_json u.json_valid r)
        (let payload = if consent then orig else opt_out_payload in
            if u.dry_run then pure tt else move_and_send r uploaded_dir url payload))

  -- A report that is not mature is skipped; other errors are gathered.
  abbrev pub gather : Status → Status → Status
  gather r errors = if fails_with r report_not_mature then errors else join errors r

  unfoldable pub upload_reports :
      FilePath → FilePath → Bool → Bool → List Report → Status → Io Status
  upload_reports uploaded_dir url consent force [] errors = pure errors
  upload_reports uploaded_dir url consent force (r ∷ rs) errors = do
    outcome ← attempt (upload_report r uploaded_dir url consent force)
    upload_reports uploaded_dir url consent force rs (gather outcome errors)

  abbrev pub collected_dir : Bytes → FilePath
  collected_dir source = codes "local" ∷ source ∷ u.cache_dir

  abbrev pub uploaded_dir : Bytes → FilePath
  uploaded_dir source = codes "uploaded" ∷ source ∷ u.cache_dir

  -- makeDirs
  unfoldable pub make_dirs : FilePath → FilePath → Io (Unit {0})
  make_dirs collected uploaded = do hiding (mkdir_all collected); hiding (mkdir_all uploaded)

  -- The end of Upload.
  unfoldable pub tidy : FilePath → Status → Io (Unit {0})
  tidy uploaded errors = if u.dry_run then lift errors else (do
    cleaned ← attempt (cleanup uploaded u.options.max_reports)
    lift (join cleaned errors))

  -- Upload from the consent on
  unfoldable pub upload_consented : Bytes → Bool → Bool → Io (Unit {0})
  upload_consented source force consent = do
    reports ← hiding (get_all (collected_dir source))
    url ← lift (get_url u.options.base_url source)
    errors ← upload_reports (uploaded_dir source) url consent force (u.order reports) done
    tidy (uploaded_dir source) errors

  -- Upload, of one source
  unfoldable pub upload : Bytes → Bool → Io (Unit {0})
  upload source force = if is_nil source then raise plain else (do
    make_dirs (collected_dir source) (uploaded_dir source)
    consent ← u.consent source
    upload_consented source force consent)
