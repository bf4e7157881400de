-- ===== src/Server/Database/Inserts.antt =====
-- What the manager inserts, against what the processor expects of a database.
use ubuntu_insights.Base.{
  Bool-cases, Bytes, List, [], codes, false, if◌then◌else◌, inl, inr, length, refl, some, true,
  ◌++◌, ◌∷◌, ◌≡◌, ◌⊎◌,
}
use ubuntu_insights.Base.Int.{ℤ}
use ubuntu_insights.Server.Database.{
  DbPool, Manager, database_of, invalid_columns, invalid_table, legacy_columns, legacy_table,
  report_columns, upload, upload_invalid, upload_legacy, upload_to,
}
use ubuntu_insights.Server.Processor.{Database, LegacyTargetModel, TargetModel}
use ubuntu_insights.System.Steps.{opaque-eq_ok}
use ubuntu_insights.System.World.{
  Cell, Row, Status, World, document, done, flag, json, moment, text,
}

-- The rows after an attempt to insert one: it is there if no error came back, and otherwise it may
-- be there, as an answer can be lost. Nothing else of the world changes that the processor reads.
pub record Inserts (table : Bytes) (row : Row) (w : World) (r : Status) (w' : World) : Type 0 where
  pub tree : w'.tree ≡ w.tree
  pub fault : w'.fault ≡ w.fault
  pub inserted : r ≡ done → w'.rows ≡ w.rows ++ ((table, row) ∷ [])
  pub at_most : (w'.rows ≡ w.rows) ⊎ (w'.rows ≡ w.rows ++ ((table, row) ∷ []))

-- A row's cells under the names of their columns.
abbrev pub with_columns : List Bytes → List Cell → Row
with_columns [] cells = []
with_columns (c ∷ cs) [] = []
with_columns (c ∷ cs) (x ∷ xs) = (c, x) ∷ with_columns cs xs

-- PostgreSQL's promise on an INSERT of one row, with as many values as columns, through the pool
-- and the quoting of the table's name.
pub record IsSql (p : DbPool) : Type 0 where
  pub exec-Inserts :
      (table : Bytes) (columns : List Bytes) (cells : List Cell) (w : World)
      → length columns ≡ length cells
      → let m = p.exec (record { table = p.quote table; columns = columns }) cells in
        Inserts table (with_columns columns cells) w (m w).0 (m w).1

-- The rows that stand for the three kinds of reports.
abbrev pub report_row : Bytes → ℤ → TargetModel → Row
report_row id time report =
    if report.opt_out
    then (codes "report_id", text id)
      ∷ (codes "entry_time", moment time)
      ∷ (codes "optout", flag true)
      ∷ []
    else (codes "report_id", text id)
      ∷ (codes "entry_time", moment time)
      ∷ (codes "insights_version", text report.insights_version)
      ∷ (codes "collection_time", moment report.collection_time)
      ∷ (codes "hardware", json report.system_info.hardware)
      ∷ (codes "software", json report.system_info.software)
      ∷ (codes "platform", json report.system_info.platform)
      ∷ (codes "source_metrics", json report.source_metrics)
      ∷ (codes "optout", flag false)
      ∷ []

abbrev pub legacy_row : Bytes → ℤ → Bytes → Bytes → LegacyTargetModel → Row
legacy_row id time distribution version report =
    if report.opt_out
    then (codes "report_id", text id)
      ∷ (codes "entry_time", moment time)
      ∷ (codes "distribution", text distribution)
      ∷ (codes "version", text version)
      ∷ (codes "optout", flag true)
      ∷ []
    else (codes "report_id", text id)
      ∷ (codes "entry_time", moment time)
      ∷ (codes "distribution", text distribution)
      ∷ (codes "version", text version)
      ∷ (codes "report", document false report.fields)
      ∷ (codes "optout", flag false)
      ∷ []

abbrev pub invalid_row : Bytes → ℤ → Bytes → Bytes → Row
invalid_row id time app raw =
    (codes "report_id", text id)
    ∷ (codes "entry_time", moment time)
    ∷ (codes "app_name", text app)
    ∷ (codes "raw_report", text raw)
    ∷ []

-- What the processor relies on: each upload inserts the row of its report into its table.
pub record IsStore (db : Database) (now : World → ℤ) : Type 0 where
  pub upload-Inserts :
      (id app : Bytes) (report : TargetModel) (w : World)
      → Inserts app
          (report_row id (now w) report)
          w
          (db.upload id app report w).0
          (db.upload id app report w).1
  pub upload_legacy-Inserts :
      (id distribution version : Bytes) (report : LegacyTargetModel) (w : World)
      → Inserts legacy_table
          (legacy_row id (now w) distribution version report)
          w
          (db.upload_legacy id distribution version report w).0
          (db.upload_legacy id distribution version report w).1
  pub upload_invalid-Inserts :
      (id app raw : Bytes) (w : World)
      → Inserts invalid_table
          (invalid_row id (now w) app raw)
          w
          (db.upload_invalid id app raw w).0
          (db.upload_invalid id app raw w).1

module _ (p : DbPool) (sql : IsSql p) (m : Manager) (open_ : m.dbpool ≡ some p) where
  upload_to-Inserts :
      (table : Bytes) (columns : List Bytes) (cells : World → List Cell) (w : World)
      → length columns ≡ length (cells w)
      → Inserts table
          (with_columns columns (cells w))
          w
          (upload_to m table columns cells w).0
          (upload_to m table columns cells w).1
  unfolding upload_to
  upload_to-Inserts table columns cells w e =
      let i = sql.exec-Inserts table columns (cells w) w e in
      rw open_ (record {
        tree = i.tree;
        fault = i.fault;
        inserted = λ h. i.inserted (opaque-eq_ok _ h);
        at_most = i.at_most;
      })

  upload-row :
      (id app : Bytes) (report : TargetModel) (w : World)
      → Inserts app
          (report_row id (m.now w) report)
          w
          (upload m id app report w).0
          (upload m id app report w).1
  unfolding upload
  upload-row id app report w = elim (Bool-cases report.opt_out) [
    | inl out ↦ rw out (
        upload_to-Inserts app (report_columns true)
          (λ w'. text id ∷ moment (m.now w') ∷ flag true ∷ []) w refl)
    | inr in_ ↦ rw in_ (
        upload_to-Inserts app (report_columns false)
          (λ w'.
            text id
            ∷ moment (m.now w')
            ∷ text report.insights_version
            ∷ moment report.collection_time
            ∷ json report.system_info.hardware
            ∷ json report.system_info.software
            ∷ json report.system_info.platform
            ∷ json report.source_metrics
            ∷ flag false
            ∷ [])
          w refl)
  ]

  upload_legacy-row :
      (id distribution version : Bytes) (report : LegacyTargetModel) (w : World)
      → Inserts legacy_table
          (legacy_row id (m.now w) distribution version report)
          w
          (upload_legacy m id distribution version report w).0
          (upload_legacy m id distribution version report w).1
  unfolding upload_legacy
  upload_legacy-row id distribution version report w = elim (Bool-cases report.opt_out) [
    | inl out ↦ rw out (
        upload_to-Inserts legacy_table (legacy_columns true)
          (λ w'. text id ∷ moment (m.now w') ∷ text distribution ∷ text version ∷ flag true ∷ []) w
          refl)
    | inr in_ ↦ rw in_ (
        upload_to-Inserts legacy_table (legacy_columns false)
          (λ w'.
            text id
            ∷ moment (m.now w')
            ∷ text distribution
            ∷ text version
            ∷ document false report.fields
            ∷ flag false
            ∷ [])
          w refl)
  ]

  -- A manager whose pool is open, and whose PostgreSQL inserts what an INSERT says, is what the
  -- processor expects of a database: each upload inserts exactly the row of its report into the
  -- table of its application, of the legacy reports, or of the invalid ones, and on an error at
  -- most that row; the row of a report that opts out has no column for data.
  pub database_of-IsStore : IsStore (database_of m) m.now
  unfolding database_of upload_invalid
  database_of-IsStore = record {
    upload-Inserts = upload-row;
    upload_legacy-Inserts = upload_legacy-row;
    upload_invalid-Inserts = λ id app raw w.
        upload_to-Inserts invalid_table invalid_columns
          (λ w'. text id ∷ moment (m.now w') ∷ text app ∷ text raw ∷ []) w refl;
  }
