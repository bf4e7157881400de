-- ===== src/Server/Database.antt =====
-- server/internal/ingest/database/database.go: the manager of the connections to PostgreSQL.
-- The connection pool, which is pgx's, is a parameter, and so is the quoting of an identifier. A
-- statement INSERT INTO table (columns) VALUES ($1, ...) is its quoted table and its columns. The
-- ten seconds that a call is given are not modelled: a call may fail at any time.
pub mod Inserts
pub mod Delivery
use ubuntu_insights.Base.{
  Bool, Bytes, List, Option, [], codes, false, if◌then◌else◌, is_nil, none, some, true, ℕ, ◌++◌,
  ◌==◌, ◌∷◌,
}
use ubuntu_insights.Base.Decimal.{format_ℕ}
use ubuntu_insights.Base.Int.{ℤ}
use ubuntu_insights.Server.Processor.{Database, LegacyTargetModel, TargetModel}
use ubuntu_insights.Server.Workers.{new_pool}
use ubuntu_insights.System.World.{
  Cell, Io, Status, World, attempt, document, err, flag, hiding, json, moment, ok, plain, pure,
  raise, text, ◌>>=◌,
}

pub record Statement : Type 0 where
  pub table : Bytes
  pub columns : List Bytes

-- dbPool, with pgx.Identifier's Sanitize
pub record DbPool : Type 0 where
  pub exec : Statement → List Cell → Io (Unit {0})
  pub ping : Io (Unit {0})
  pub close : Io (Unit {0})
  pub quote : Bytes → Bytes

-- Manager: a nil pool is none; `now` is the clock
pub record Manager : Type 0 where
  pub dbpool : Option DbPool
  pub now : World → ℤ

-- Config, and what URI makes of it, up to the escapes of net/url
pub record Config : Type 0 where
  pub host : Bytes
  pub port : ℕ
  pub user : Bytes
  pub password : Bytes
  pub db_name : Bytes
  pub ssl_mode : Bytes

pub record Url : Type 0 where
  pub scheme : Bytes
  pub user : Bytes
  pub password : Option Bytes
  pub host : Bytes
  pub path : Bytes
  pub query : List (Bytes × Bytes)

abbrev non_empty : Bytes → Option Bytes
non_empty b = if is_nil b then none else some b

-- URI
unfoldable pub uri : Config → Bytes → Url
uri c scheme = record {
  scheme = scheme;
  user = c.user;
  password = non_empty c.password;
  host = if c.port == 0 then c.host else c.host ++ (b':' ∷ format_ℕ c.port);
  path = c.db_name;
  query = if is_nil c.ssl_mode then [] else (codes "sslmode", c.ssl_mode) ∷ [];
}

-- New: a pool that does not answer is closed.
unfoldable pub after_ping : (World → ℤ) → DbPool → Status → Io Manager
after_ping now p (ok _) = pure (record { dbpool = some p; now = now })
after_ping now p (err e) = do _ ← attempt p.close; raise plain

unfoldable pub new_manager : (Url → Io DbPool) → (World → ℤ) → Config → Io Manager
new_manager new_pool now c = do
  p ← new_pool (uri c (codes "postgres"))
  pinged ← attempt p.ping
  after_ping now p pinged

-- upload, with the statement that execFn makes of the table and what it passes
unfoldable pub upload_to : Manager → Bytes → List Bytes → (World → List Cell) → Io (Unit {0})
upload_to m table columns cells w = elim m.dbpool [
  | none ↦ (err plain, w)
  | some p ↦ hiding (p.exec (record { table = p.quote table; columns = columns }) (cells w)) w
]

-- The columns and the values of Upload
abbrev pub report_columns : Bool → List Bytes
report_columns true = codes "report_id" ∷ codes "entry_time" ∷ codes "optout" ∷ []
report_columns false =
    codes "report_id"
    ∷ codes "entry_time"
    ∷ codes "insights_version"
    ∷ codes "collection_time"
    ∷ codes "hardware"
    ∷ codes "software"
    ∷ codes "platform"
    ∷ codes "source_metrics"
    ∷ codes "optout"
    ∷ []

abbrev pub report_cells : Bytes → TargetModel → Bool → ℤ → List Cell
report_cells id report true now = text id ∷ moment now ∷ flag report.opt_out ∷ []
report_cells id report false now =
    text id
    ∷ moment now
    ∷ text report.insights_version
    ∷ moment report.collection_time
    ∷ json report.system_info.hardware
    ∷ json report.system_info.software
    ∷ json report.system_info.platform
    ∷ json report.source_metrics
    ∷ flag report.opt_out
    ∷ []

-- Upload
unfoldable pub upload : Manager → Bytes → Bytes → TargetModel → Io (Unit {0})
upload m id app report =
    upload_to m app (report_columns report.opt_out)
      (λ w. report_cells id report report.opt_out (m.now w))

abbrev pub legacy_columns : Bool → List Bytes
legacy_columns true =
    codes "report_id"
    ∷ codes "entry_time"
    ∷ codes "distribution"
    ∷ codes "version"
    ∷ codes "optout"
    ∷ []
legacy_columns false =
    codes "report_id"
    ∷ codes "entry_time"
    ∷ codes "distribution"
    ∷ codes "version"
    ∷ codes "report"
    ∷ codes "optout"
    ∷ []

abbrev pub legacy_cells : Bytes → Bytes → Bytes → LegacyTargetModel → Bool → ℤ → List Cell
legacy_cells id distribution version report true now =
    text id ∷ moment now ∷ text distribution ∷ text version ∷ flag report.opt_out ∷ []
legacy_cells id distribution version report false now =
    text id
    ∷ moment now
    ∷ text distribution
    ∷ text version
    ∷ document report.opt_out report.fields
    ∷ flag report.opt_out
    ∷ []

abbrev pub legacy_table : Bytes
legacy_table = codes "ubuntu_report"

-- UploadLegacy
unfoldable pub upload_legacy : Manager → Bytes → Bytes → Bytes → LegacyTargetModel → Io (Unit {0})
upload_legacy m id distribution version report =
    upload_to m legacy_table (legacy_columns report.opt_out)
      (λ w. legacy_cells id distribution version report report.opt_out (m.now w))

abbrev pub invalid_table : Bytes
invalid_table = codes "invalid_reports"

abbrev pub invalid_columns : List Bytes
invalid_columns =
    codes "report_id" ∷ codes "entry_time" ∷ codes "app_name" ∷ codes "raw_report" ∷ []

-- UploadInvalid
unfoldable pub upload_invalid : Manager → Bytes → Bytes → Bytes → Io (Unit {0})
upload_invalid m id app raw =
    upload_to m invalid_table invalid_columns
      (λ w. text id ∷ moment (m.now w) ∷ text app ∷ text raw ∷ [])

-- Close: `in_time` says whether the pool closes before the ten seconds are over
unfoldable pub close_manager : Bool → Manager → Io Manager
close_manager in_time m = elim m.dbpool [
  | none ↦ pure m
  | some p ↦ do
    _ ← attempt p.close
    if in_time then pure (record m { dbpool = none }) else raise plain
]

-- The processor's view of the manager
unfoldable pub database_of : Manager → Database
database_of m = record {
  upload = λ id app report. upload m id app report;
  upload_legacy = λ id distribution version report. upload_legacy m id distribution version report;
  upload_invalid = λ id app raw. upload_invalid m id app raw;
}
