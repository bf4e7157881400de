-- ===== src/Server/Migration/Laws.antt =====
-- What the passage relies on: how PostgreSQL shows a transaction to others, and what they then see.
use ubuntu_insights.Base.{
  All, Bool, Bytes, List, Option, [], false, if◌then◌else◌, length, none, same_bytes, some, suc,
  take, true, zero, ℕ, ◌++◌, ◌∷◌, ◌≡◌, ◌⊎◌,
}
use ubuntu_insights.Base.Int.{ℤ}
use ubuntu_insights.Server.Migration.{Sql, below, expected_tables, state_table, up_to}
use ubuntu_insights.Server.Migration.Rules.{Pending, Reads, Schema, rows_of}
use ubuntu_insights.System.World.{Status, done, is_ok}

abbrev pub is_there : {A : Type 0} → Option A → Bool
is_there none = false
is_there (some a) = true

-- Whether a table is there
abbrev pub has : Schema → Bytes → Bool
has t name = if same_bytes name state_table then is_there t.state else t.has_table name

abbrev pub HasTables : Schema → List Bytes → Type 0
HasTables t l = All (λ name. has t name ≡ true) l

-- v, v + 1, ..., n of them
abbrev pub from : ℕ → ℕ → List ℕ
from zero v = []
from (suc n) v = v ∷ from n (suc v)

abbrev pub add_row : ℕ → Schema → Schema
add_row v t = record t { versions = some (rows_of t.versions ++ (v ∷ [])) }

-- The versions that the migration leaves: those that are there, or 0 up to the version
abbrev pub seeded : ℤ → List ℕ → List ℕ
seeded version [] = from (up_to version) 0
seeded version (v ∷ l) = v ∷ l

abbrev pub with_rows : List ℕ → Schema → Schema
with_rows l t = record t { versions = some l }

abbrev pub no_state : Schema → Schema
no_state t = record t { state = none }

abbrev pub migrated : ℤ → Schema → Schema
migrated version t = no_state (with_rows (seeded version (rows_of t.versions)) t)

-- The table of the state is there, and its first row is `x`.
abbrev pub HasState : Schema → ℤ × Bool → Type 0
HasState t x = (rest : List (ℤ × Bool)) × (t.state ≡ some (x ∷ rest))

-- The state names a version that is not dirty and whose tables are there, and all of its passage is
-- done.
abbrev pub Migrated : Schema → Schema → Type 0
Migrated a b =
    (version : ℤ) × HasState a (version, false)
    × HasTables a (take (below version) expected_tables)
    × (b ≡ migrated version a)

-- What comes of the transaction on a schema
abbrev pub Committed : ℤ → Schema → Status → Schema → Type 0
Committed version a r b =
    ((r ≡ done) × (b ≡ migrated version a))
    ⊎ ((is_ok r ≡ false) × ((b ≡ a) ⊎ (b ≡ migrated version a)))

-- What PostgreSQL and database/sql promise of the statements: a query says what is there, a
-- statement of a transaction makes its change for the transaction only, a transaction begins with
-- what others see, and becomes what they see if it is committed. A commit that fails may have been
-- done, as its answer can be lost; a rollback after it changes nothing.
pub record IsTransactional {S : Type 0} (sql : Sql S) (db tx : S → Schema) : Type 0 where
  pub table_exists-Reads : (name : Bytes) → Reads db (sql.table_exists name) (λ t b. b ≡ has t name)
  pub read_state-Reads : Reads db sql.read_state HasState
  pub begin-db : (s : S) → db (sql.begin s).1 ≡ db s
  pub begin-tx : (s : S) → (sql.begin s).0 ≡ done → tx (sql.begin s).1 ≡ db s
  pub create-Pending :
      Pending db tx sql.create_versions
        (λ t _ t'. t' ≡ record t { versions = some (rows_of t.versions) })
  pub count-Pending :
      Pending db tx sql.count_versions (λ t n t'. (t' ≡ t) × (n ≡ length (rows_of t.versions)))
  pub insert-Pending : (v : ℕ) → Pending db tx (sql.insert_version v) (λ t _ t'. t' ≡ add_row v t)
  pub drop-Pending : Pending db tx sql.drop_state (λ t _ t'. t' ≡ no_state t)
  pub commit_ok : (s : S) → (sql.commit s).0 ≡ done → db (sql.commit s).1 ≡ tx s
  pub commit_any : (s : S) → (db (sql.commit s).1 ≡ db s) ⊎ (db (sql.commit s).1 ≡ tx s)
  pub rollback-db : (s : S) → db (sql.rollback s).1 ≡ db s
