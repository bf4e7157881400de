-- ===== src/Server/Processor/Kinds.antt =====
-- The two kinds of reports that processFile of server/internal/ingest/processor/processor.go tells
-- apart, side by side.
use ubuntu_insights.Base.{Bool, Bytes, ext, false, if◌then◌else◌, some, trim_suffix, true, ◌≡◌}
use ubuntu_insights.Server.Processor.{
  Database, Decoders, LegacyTargetModel, TargetModel, parse_legacy_app, validate_legacy_report,
  validate_report,
}
use ubuntu_insights.Server.Sanitize.{sanitize_invalid_unicode_escapes}
use ubuntu_insights.System.World.{Io, Status, World}

-- What a file is decoded to.
pub data Parsed : Type 0 where
  current : TargetModel → Parsed
  legacy : LegacyTargetModel → Parsed

abbrev pub of_legacy : Parsed → Bool
of_legacy (current r) = false
of_legacy (legacy r) = true

abbrev pub IsDecoded : Decoders → Bytes → Parsed → Type 0
IsDecoded decoders b (current r) = decoders.target (sanitize_invalid_unicode_escapes b) ≡ some r
IsDecoded decoders b (legacy r) = decoders.legacy (sanitize_invalid_unicode_escapes b) ≡ some r

abbrev pub validation : Parsed → Status
validation (current r) = validate_report r
validation (legacy r) = validate_legacy_report r

-- The call of the database for a report of an application.
abbrev pub sending : Database → Bytes → Bytes → Parsed → Io (Unit {0})
sending db app id (current r) = db.upload id app r
sending db app id (legacy r) =
    db.upload_legacy id (parse_legacy_app app).0 (parse_legacy_app app).1 r

-- The identifier of the report of a file: the file's name if that is a UUID, and a new one if not.
abbrev pub identifier : Decoders → Bytes → World → Bytes
identifier decoders n w =
    let stem = trim_suffix n (ext n) in
    if decoders.is_uuid stem then stem else decoders.new_uuid (w.random w.draws)
