-- ===== src/Tests/Migration.antt =====
-- A run of the passage from golang-migrate to goose.
use ubuntu_insights.Base.{
  Bool, List, Option, [], arith, false, bytes_dec, inr, length, none, refl, some, true, ◌∷◌, ◌≡◌,
}
use ubuntu_insights.Base.Int.{pos, ℤ}
use ubuntu_insights.Server.Migration.{
  Sql, bootstrap_from_golang_migrate, migrate, migrate_unless_dirty, prepare, prepare_and_commit,
  seed_if_empty, seed_versions, verify_tables,
}
use ubuntu_insights.Server.Migration.Outcome.{
  IsWhole, bootstrap_from_golang_migrate-IsWhole, bootstrap_from_golang_migrate_again,
}
use ubuntu_insights.Server.Migration.Rules.{Schema, rows_of}
use ubuntu_insights.Server.Migration.Laws.{IsTransactional, add_row, has, no_state, with_rows}
use ubuntu_insights.System.World.{Result, done, err, ok, plain}

-- The schema that others see, and that of the transaction. No call fails.
record Postgres : Type 0 where
  shown : Schema
  own : Schema

abbrev answer_of : Option (List (ℤ × Bool)) → Result (ℤ × Bool)
answer_of none = err plain
answer_of (some []) = err plain
answer_of (some (x ∷ rest)) = ok x

abbrev change : (Schema → Schema) → Postgres → Result (Unit {0}) × Postgres
change f s = (done, record s { own = f s.own })

abbrev postgres : Sql Postgres
postgres = record {
  table_exists = λ name s. (ok (has s.shown name), s);
  read_state = λ s. (answer_of s.shown.state, s);
  begin = λ s. (done, record s { own = s.shown });
  create_versions = change (λ t. with_rows (rows_of t.versions) t);
  count_versions = λ s. (ok (length (rows_of s.own.versions)), s);
  insert_version = λ v. change (add_row v);
  drop_state = change no_state;
  commit = λ s. (done, record s { shown = s.own });
  rollback = λ s. (done, s);
}

same_answer : {A : Type 0} (a b : A) → ok a ≡ ok b → b ≡ a
same_answer a b e = cc

answered :
    (o : Option (List (ℤ × Bool))) (x : ℤ × Bool)
    → answer_of o ≡ ok x
    → (rest : List (ℤ × Bool)) × (o ≡ some (x ∷ rest))
answered none x e = absurd (ground arith)
answered (some []) x e = absurd (ground arith)
answered (some (y ∷ rest)) x e = (rest, ground arith)

postgres-IsTransactional : IsTransactional postgres (λ s. s.shown) (λ s. s.own)
postgres-IsTransactional = record {
  table_exists-Reads =
      λ name. record { same = λ s. refl; answer = λ s b e. same_answer (has s.shown name) b e };
  read_state-Reads = record { same = λ s. refl; answer = λ s x e. answered s.shown.state x e };
  begin-db = λ s. refl;
  begin-tx = λ s e. refl;
  create-Pending = record { keeps = λ s. refl; changes = λ s a e. refl };
  count-Pending = record {
    keeps = λ s. refl;
    changes = λ s n e. (refl, same_answer (length (rows_of s.own.versions)) n e);
  };
  insert-Pending = λ v. record { keeps = λ s. refl; changes = λ s a e. refl };
  drop-Pending = record { keeps = λ s. refl; changes = λ s a e. refl };
  commit_ok = λ s e. refl;
  commit_any = λ s. inr refl;
  rollback-db = λ s. refl;
}

-- The state of version 2, which is not dirty.
abbrev at_version_2 : Schema
at_version_2 = record {
  state = some ((pos 2, false) ∷ []);
  versions = none;
  has_table = λ name. true;
}

abbrev before : Postgres
before = record { shown = at_version_2; own = at_version_2 }

bootstrap_from_golang_migrate-IsWhole_example :
    IsWhole at_version_2
      (bootstrap_from_golang_migrate postgres before).0
      (bootstrap_from_golang_migrate postgres before).1.shown
bootstrap_from_golang_migrate-IsWhole_example =
    bootstrap_from_golang_migrate-IsWhole postgres (λ s. s.shown) (λ s. s.own)
      postgres-IsTransactional before

first_run : (bootstrap_from_golang_migrate postgres before).0 ≡ done
unfolding bootstrap_from_golang_migrate bytes_dec migrate migrate_unless_dirty prepare
    prepare_and_commit seed_if_empty seed_versions verify_tables
first_run = refl

seeded_run :
    (bootstrap_from_golang_migrate postgres before).1.shown.versions ≡ some (0 ∷ 1 ∷ 2 ∷ [])
unfolding bootstrap_from_golang_migrate bytes_dec migrate migrate_unless_dirty prepare
    prepare_and_commit seed_if_empty seed_versions verify_tables
seeded_run = refl

bootstrap_from_golang_migrate_again_example :
    (let s1 = (bootstrap_from_golang_migrate postgres before).1 in
      (bootstrap_from_golang_migrate postgres s1).1.shown ≡ s1.shown)
bootstrap_from_golang_migrate_again_example =
    bootstrap_from_golang_migrate_again postgres (λ s. s.shown) (λ s. s.own)
      postgres-IsTransactional before first_run
