-- ===== src/Server/Migration.antt =====
-- server/internal/ingest/migration/bootstrap.go: the passage from golang-migrate's table of the
-- schema's version to goose's. The database, database/sql with PostgreSQL, is a parameter: its
-- calls are actions on a state of any type. An error keeps no sentinel.
use ubuntu_insights.Base.{
  Bool, Bytes, List, Option, [], codes, if◌then◌else◌, not, suc, zero, ℕ, ◌==◌, ◌∷◌,
}
use ubuntu_insights.Base.Int.{negsuc, pos, ℤ}
use ubuntu_insights.System.World.{Result, err, ok, opaque, plain}
pub mod Rules
pub mod Laws
pub mod Transaction
pub mod Outcome

-- An action on the database
abbrev pub Session : Type 0 → Type 0 → Type 0
Session S A = S → Result A × S

module _ {S A : Type 0} where
  abbrev pub finish : Result A → Session S A
  finish r s = (r, s)

  abbrev pub hiding : Session S A → Session S A
  hiding m s = let (r, s') = m s in (opaque r, s')

module _ {S A B : Type 0} where
  abbrev pub continue : Result A → (A → Session S B) → Session S B
  continue (ok a) f s = f a s
  continue (err e) f s = (err e, s)

infixl 5 ◌>>=◌ ◌>>◌
abbrev pub ◌>>=◌ : {S A B : Type 0} → Session S A → (A → Session S B) → Session S B
◌>>=◌ m f s = let (r, s') = m s in continue r f s'

abbrev pub ◌>>◌ : {S B : Type 0} → Session S (Unit {0}) → Session S B → Session S B
m >> n = m >>= λ _. n

-- The statements of the file, each as a call of *sql.DB or of *sql.Tx
pub record Sql (S : Type 0) : Type 0 where
  pub table_exists : Bytes → Session S Bool
  pub read_state : Session S (ℤ × Bool)
  pub begin : Session S (Unit {0})
  pub create_versions : Session S (Unit {0})
  pub count_versions : Session S ℕ
  pub insert_version : ℕ → Session S (Unit {0})
  pub drop_state : Session S (Unit {0})
  pub commit : Session S (Unit {0})
  pub rollback : Session S (Unit {0})

abbrev pub state_table : Bytes
state_table = codes "schema_migrations"

-- expectedTables
abbrev pub expected_tables : List Bytes
expected_tables =
    codes "invalid_reports"
    ∷ codes "linux"
    ∷ codes "windows"
    ∷ codes "darwin"
    ∷ codes "ubuntu_report"
    ∷ codes "ubuntu_desktop_provision"
    ∷ codes "ubuntu_release_upgrader"
    ∷ codes "wsl_setup"
    ∷ []

-- How many i there are with 0 ≤ i < version, and with 0 ≤ i ≤ version (below 2^63 - 1, which no
-- version reaches)
abbrev pub below : ℤ → ℕ
below (pos n) = n
below (negsuc n) = zero

abbrev pub up_to : ℤ → ℕ
up_to (pos n) = suc n
up_to (negsuc n) = zero

module _ {S : Type 0} (sql : Sql S) where
  -- The loop of verifyExpectedTables
  unfoldable pub verify_tables : ℕ → List Bytes → Session S (Unit {0})
  verify_tables n [] = finish (ok tt)
  verify_tables zero (t ∷ ts) = finish (ok tt)
  verify_tables (suc n) (t ∷ ts) = do
    exists ← hiding (sql.table_exists t)
    let rest = verify_tables n ts
    (if exists then rest else finish (err plain))

  abbrev pub verify_expected_tables : ℤ → Session S (Unit {0})
  verify_expected_tables version = verify_tables (below version) expected_tables

  -- The loop that seeds goose_db_version with v, v + 1, ...
  unfoldable pub seed_versions : ℕ → ℕ → Session S (Unit {0})
  seed_versions zero v = finish (ok tt)
  seed_versions (suc n) v = do hiding (sql.insert_version v); seed_versions n (suc v)

  unfoldable pub seed_if_empty : ℤ → ℕ → Session S (Unit {0})
  seed_if_empty version count =
      if count == 0 then seed_versions (up_to version) 0 else finish (ok tt)

  -- The statements of the transaction
  unfoldable pub prepare : ℤ → Session S (Unit {0})
  prepare version = do
    hiding sql.create_versions
    count ← hiding sql.count_versions
    seed_if_empty version count
    hiding sql.drop_state

  unfoldable pub prepare_and_commit : ℤ → Session S (Unit {0})
  prepare_and_commit version = prepare version >> hiding sql.commit

  -- The deferred Rollback, whose error is dropped
  abbrev pub then_rollback : Session S (Unit {0}) → Session S (Unit {0})
  then_rollback m s = let (r, s') = m s in (r, (sql.rollback s').1)

  unfoldable pub migrate : ℤ → Session S (Unit {0})
  migrate version = do
    verify_expected_tables version
    hiding sql.begin
    then_rollback (prepare_and_commit version)

  unfoldable pub migrate_unless_dirty : ℤ × Bool → Session S (Unit {0})
  migrate_unless_dirty (version, dirty) = if dirty then finish (err plain) else migrate version

  -- BootstrapFromGolangMigrate
  unfoldable pub bootstrap_from_golang_migrate : Session S (Unit {0})
  bootstrap_from_golang_migrate = do
    exists ← hiding (sql.table_exists state_table)
    (if not exists then finish (ok tt) else (hiding sql.read_state >>= migrate_unless_dirty))
