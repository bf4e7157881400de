-- ===== src/Server/Processor.antt =====
-- server/internal/ingest/processor/processor.go and models/models.go: the reports that the web
-- service stored are decoded, validated and uploaded to the database. Decoding and UUIDs are
-- parameters, and so is the database; metrics, logs and the sizes of the files are not modelled.
pub mod Legacy
pub mod Files
pub mod Walk
pub mod Counts
pub mod Kinds
pub mod Removal
pub mod Success
pub mod Unread
use ubuntu_insights.Base.{
  Bool, Bytes, List, Option, [], codes, ext, false, if◌then◌else◌, is_nil, none, not, same_bytes,
  some, suc, trim_suffix, true, ℕ, ◌&&◌, ◌+◌, ◌==◌, ◌||◌, ◌∷◌,
}
use ubuntu_insights.Base.Int.{negsuc, pos, ℤ}
use ubuntu_insights.Env.{or_plain}
use ubuntu_insights.Server.Config.{present}
use ubuntu_insights.Server.Handlers.{legacy_report_tag}
use ubuntu_insights.Server.Path.{split}
use ubuntu_insights.Server.Sanitize.{sanitize_invalid_unicode_escapes}
use ubuntu_insights.Server.Space.{is_blank_from}
use ubuntu_insights.System.Files.{read_file, remove}
use ubuntu_insights.System.World.{
  FilePath, Io, Result, Status, attempt, done, err, fails_with, is_ok, join, lift, no_valid_data,
  ok, plain, pure, unexpected_fields, upload_failed, ◌>>=◌, ◌>>◌,
}

-- A nil json.RawMessage or map is none.
pub record TargetSystemInfo : Type 0 where
  pub hardware : Option Bytes
  pub software : Option Bytes
  pub platform : Option Bytes
  pub extras : Option Bytes

pub record TargetModel : Type 0 where
  pub insights_version : Bytes
  pub collection_time : ℤ
  pub system_info : TargetSystemInfo
  pub source_metrics : Option Bytes
  pub opt_out : Bool
  pub extras : Option Bytes

pub record LegacyTargetModel : Type 0 where
  pub opt_out : Bool
  pub fields : Option Bytes

pub record Database : Type 0 where
  pub upload : Bytes → Bytes → TargetModel → Io (Unit {0})
  pub upload_legacy : Bytes → Bytes → Bytes → LegacyTargetModel → Io (Unit {0})
  pub upload_invalid : Bytes → Bytes → Bytes → Io (Unit {0})

-- json.Unmarshal into a map followed by mapstructure's Decode, for the two models; the number of
-- keys of a JSON object; and uuid.Validate and uuid.NewString, on a random number.
pub record Decoders : Type 0 where
  pub target : Bytes → Option TargetModel
  pub legacy : Bytes → Option LegacyTargetModel
  pub object_size : Bytes → Option ℕ
  pub is_uuid : Bytes → Bool
  pub new_uuid : ℕ → Bytes

abbrev is_zero : ℤ → Bool
is_zero (pos n) = n == 0
is_zero (negsuc n) = false

-- reflect.DeepEqual of a system info and the empty one
abbrev is_empty_info : TargetSystemInfo → Bool
is_empty_info i =
    not (present i.hardware || present i.software || present i.platform || present i.extras)

abbrev pub has_no_data : TargetModel → Bool
has_no_data d =
    is_nil d.insights_version
    && is_zero d.collection_time
    && is_empty_info d.system_info
    && not (present d.source_metrics)

-- validateReport
unfoldable pub validate_report : TargetModel → Status
validate_report d =
    if d.opt_out
    then done
    else if has_no_data d
    then err (no_valid_data ∷ [])
    else if present d.extras
    then err (unexpected_fields ∷ [])
    else if present d.system_info.extras
    then err (unexpected_fields ∷ [])
    else done

-- validateLegacyReport
unfoldable pub validate_legacy_report : LegacyTargetModel → Status
validate_legacy_report d =
    if d.opt_out then done else if present d.fields then done else err (no_valid_data ∷ [])

abbrev pub after_upload : Status → Status → Status
after_upload (ok _) validation = validation
after_upload (err e) validation = join (join (err (upload_failed ∷ [])) (err e)) validation

unfoldable pub upload_validated : Status → Io (Unit {0}) → Io (Unit {0})
upload_validated validation send_report =
    if is_ok validation || fails_with validation unexpected_fields
    then (do r ← attempt send_report; lift (after_upload r validation))
    else lift validation

module _ {T : Type 0} where
  -- decodeFile
  unfoldable pub decode_file : (Bytes → Option T) → FilePath → Io T
  decode_file decode path = do
    data' ← read_file path
    lift (or_plain (decode (sanitize_invalid_unicode_escapes data')))

  -- processAndUpload
  unfoldable pub process_and_upload :
      (Bytes → Option T) → (T → Status) → (T → Io (Unit {0})) → FilePath → Io (Unit {0})
  process_and_upload decode validate send_report path = do
    report ← decode_file decode path
    upload_validated (validate report) (send_report report)

-- isLegacy: the first element of the name is the tag
abbrev first_element : List Bytes → Bytes
first_element [] = []
first_element (e ∷ es) = e

unfoldable pub is_legacy : Bytes → Bool
is_legacy app = same_bytes (first_element (split app)) legacy_report_tag

-- parseLegacyApp: the expression matches four elements, two of them free but not empty
abbrev pub parsed_elements : List Bytes → Bytes × Bytes
parsed_elements (tag ∷ distribution ∷ desktop ∷ version ∷ []) =
    if same_bytes tag legacy_report_tag
      && same_bytes desktop (codes "desktop")
      && not (is_nil distribution)
      && not (is_nil version)
    then (distribution, version)
    else ([], [])
parsed_elements _ = ([], [])

unfoldable pub parse_legacy_app : Bytes → Bytes × Bytes
parse_legacy_app app = parsed_elements (split app)

-- errors.Is of the error of processAndUpload, which is false on nil
unfoldable pub has_failed_upload : Status → Bool
has_failed_upload r = fails_with r upload_failed

unfoldable pub was_attempted : Status → Bool
was_attempted r = is_ok r || fails_with r unexpected_fields || fails_with r upload_failed

abbrev pub one_if : Bool → ℕ
one_if b = if b then 1 else 0

-- filepath.Base
abbrev base_name : FilePath → Bytes
base_name [] = codes "/"
base_name (n ∷ p) = n

-- What uploadInvalid skips: nothing but space, or an empty JSON object
abbrev is_empty_object : Option ℕ → Bool
is_empty_object none = false
is_empty_object (some n) = n == 0

abbrev refused : Status → Status
refused (ok _) = done
refused (err e) = join (err (upload_failed ∷ [])) (err e)

module _ (decoders : Decoders) where
  unfoldable pub is_skipped : Bytes → Bool
  is_skipped b = is_blank_from 0 b || is_empty_object (decoders.object_size b)

  -- getReportID
  abbrev pub report_id_of : Bytes → Io Bytes
  report_id_of id w =
      if decoders.is_uuid id
      then (ok id, w)
      else (ok (decoders.new_uuid (w.random w.draws)), record w { draws = suc w.draws })

  unfoldable pub get_report_id : FilePath → Io Bytes
  get_report_id path = let name = base_name path in report_id_of (trim_suffix name (ext name))

module _ (decoders : Decoders) (db : Database) where
  unfoldable pub send_invalid : Bytes → Bytes → Result Bytes → Io (Bool × Status)
  send_invalid id app (err e) = pure (false, err plain)
  send_invalid id app (ok b) =
      if is_skipped decoders (sanitize_invalid_unicode_escapes b) then pure (false, done) else (do
        r ← attempt (db.upload_invalid id app (sanitize_invalid_unicode_escapes b))
        pure (true, refused r))

  -- uploadInvalid: whether an upload was attempted, and the error
  unfoldable pub upload_invalid : FilePath → Bytes → Bytes → Io (Bool × Status)
  upload_invalid path id app = do r ← attempt (read_file path); send_invalid id app r

  -- The two kinds of reports of processFile
  unfoldable pub process_kind : FilePath → Bytes → Bytes → Bool → Io (Unit {0})
  process_kind path id app legacy_app' =
      if legacy_app'
      then (let (distribution, version) = parse_legacy_app app in
          process_and_upload decoders.legacy validate_legacy_report
            (db.upload_legacy id distribution version) path)
      else process_and_upload decoders.target validate_report (db.upload id app) path

  -- The upload as an invalid report, and its counts
  unfoldable pub handle_invalid : FilePath → Bytes → Bytes → Status → Io (ℕ × ℕ)
  handle_invalid path id app (ok _) = pure (0, 0)
  handle_invalid path id app (err e) = do
    (tried, r) ← upload_invalid path id app
    pure (one_if tried, one_if (tried && not (is_ok r)))

  unfoldable pub finish_file : FilePath → Bytes → Bytes → Status → Io (ℕ × ℕ)
  finish_file path id app r =
      if has_failed_upload r then pure (one_if (was_attempted r), 1) else (do
        (attempts, failures) ← handle_invalid path id app r
        _ ← attempt (remove path)
        pure (one_if (was_attempted r) + attempts, failures))

  -- processFile: the numbers of attempts and of failures
  unfoldable pub process_file : FilePath → Bytes → Bool → Io (ℕ × ℕ)
  process_file path app legacy_app' = do
    id ← get_report_id decoders path
    r ← attempt (process_kind path id app legacy_app')
    finish_file path id app r
