-- ===== src/Server/Migration/Outcome.antt =====
-- What BootstrapFromGolangMigrate does to the database, as others see it.
use ubuntu_insights.Base.{
  Bool, List, Option, ap, arith, bytes_dec, false, if◌then◌else◌, not, inl, inr, list_dec, none,
  refl, some, subst, sym, take, true, ◌≡◌, ◌⊎◌, ◌∙◌,
}
use ubuntu_insights.Base.Int.{ℤ}
use ubuntu_insights.Server.Migration.{
  Sql, below, bootstrap_from_golang_migrate, expected_tables, finish, hiding, migrate,
  migrate_unless_dirty, prepare_and_commit, state_table, then_rollback, verify_expected_tables,
  ◌>>=◌,
}
use ubuntu_insights.Server.Migration.Rules.{Schema, hiding-Reads, session_elim}
use ubuntu_insights.Server.Migration.Laws.{
  Committed, HasState, HasTables, IsTransactional, Migrated, has, is_there,
}
use ubuntu_insights.Server.Migration.Transaction.{prepare_and_commit-Committed, verify_tables-Reads}
use ubuntu_insights.System.Steps.{opaque-eq_ok}
use ubuntu_insights.System.World.{Error, Status, done, err, is_ok, ok, plain}

-- The three ends: there was nothing to do; the passage is done; or an error came back, and all of
-- the passage is done or none of it.
abbrev pub IsWhole : Schema → Status → Schema → Type 0
IsWhole a r b =
    ((r ≡ done) × (a.state ≡ none) × (b ≡ a))
    ⊎ ((r ≡ done) × Migrated a b)
    ⊎ ((is_ok r ≡ false) × ((b ≡ a) ⊎ Migrated a b))

Committed-IsWhole :
    (version : ℤ) (a : Schema) (r : Status) (b : Schema)
    → HasState a (version, false)
    → HasTables a (take (below version) expected_tables)
    → Committed version a r b
    → IsWhole a r b
Committed-IsWhole version a r b e tables (inl (d, p)) = inr (inl (d, (version, e, tables, p)))
Committed-IsWhole version a r b e tables (inr (f, inl p)) = inr (inr (f, inl p))
Committed-IsWhole version a r b e tables (inr (f, inr p)) =
    inr (inr (f, inr ((version, e, tables, p))))

failed : (a b : Schema) (f : Error) → b ≡ a → IsWhole a (err f) b
failed a b f e = inr (inr (refl, inl e))

has-state_table : (t : Schema) → has t state_table ≡ is_there t.state
unfolding bytes_dec list_dec
has-state_table t = refl

-- No state is left, if it ended without an error.
no_state_left : (a : Schema) (r : Status) (b : Schema) → IsWhole a r b → r ≡ done → b.state ≡ none
no_state_left a r b (inl (d, e, p)) h = ap (λ t. t.state) p ∙ e
no_state_left a r b (inr (inl (d, (version, e, tables, p)))) h = ap (λ t. t.state) p
no_state_left a r b (inr (inr (f, _))) h = absurd (ground arith)

-- Without a state nothing changes.
unchanged : (a : Schema) (r : Status) (b : Schema) → IsWhole a r b → a.state ≡ none → b ≡ a
unchanged a r b (inl (d, e, p)) h = p
unchanged a r b (inr (inl (d, (version, (rest, e), tables, p)))) h = absurd (ground (arith, e, h))
unchanged a r b (inr (inr (f, inl p))) h = p
unchanged a r b (inr (inr (f, inr (version, (rest, e), tables, p)))) h =
    absurd (ground (arith, e, h))

module _ {S : Type 0} (sql : Sql S) (db tx : S → Schema) (law : IsTransactional sql db tx) where
  in_transaction :
      (version : ℤ) (a : Schema) (s : S)
      → db s ≡ a
      → HasState a (version, false)
      → HasTables a (take (below version) expected_tables)
      → let m = hiding sql.begin >>= λ _. then_rollback sql (prepare_and_commit sql version) in
        IsWhole a (m s).0 (db (m s).1)
  in_transaction version a s same e tables =
      session_elim (λ r s'. IsWhole a r (db s')) (hiding sql.begin)
        (λ _. then_rollback sql (prepare_and_commit sql version)) s
        (λ u h.
          let s1 = (sql.begin s).1 in
          let s2 = (prepare_and_commit sql version s1).1 in
          let r = (prepare_and_commit sql version s1).0 in
          let whole = Committed-IsWhole version a r (db s2) e tables (
            subst (λ x. Committed version x r (db s2)) (law.begin-db s ∙ same)
              (prepare_and_commit-Committed sql db tx law version s1
                (law.begin-tx s (opaque-eq_ok (sql.begin s).0 h) ∙ sym (law.begin-db s)))) in
          subst (λ b. IsWhole a r b) (sym (law.rollback-db s2)) whole)
        (λ f. failed a _ f (law.begin-db s ∙ same))

  migrate-IsWhole :
      (version : ℤ) (a : Schema) (s : S)
      → db s ≡ a
      → HasState a (version, false)
      → IsWhole a (migrate sql version s).0 (db (migrate sql version s).1)
  unfolding migrate
  migrate-IsWhole version a s same e =
      let verified = verify_tables-Reads sql db tx law (below version) expected_tables in
      session_elim (λ r s'. IsWhole a r (db s')) (verify_expected_tables sql version)
        (λ _. hiding sql.begin >>= λ _. then_rollback sql (prepare_and_commit sql version)) s
        (λ u h. in_transaction version a _ (verified.same s ∙ same) e (
          subst (λ x. HasTables x (take (below version) expected_tables)) same
            (verified.answer s u h)))
        (λ f. failed a _ f (verified.same s ∙ same))

  unless_dirty-IsWhole :
      (version : ℤ) (dirty : Bool) (a : Schema) (s : S)
      → db s ≡ a
      → HasState a (version, dirty)
      → IsWhole a
          (migrate_unless_dirty sql (version, dirty) s).0
          (db (migrate_unless_dirty sql (version, dirty) s).1)
  unfolding migrate_unless_dirty
  unless_dirty-IsWhole version true a s same e = failed a (db s) plain same
  unless_dirty-IsWhole version false a s same e = migrate-IsWhole version a s same e

  read_state-IsWhole :
      (a : Schema) (s : S)
      → db s ≡ a
      → let m = hiding sql.read_state >>= migrate_unless_dirty sql in IsWhole a (m s).0 (db (m s).1)
  read_state-IsWhole a s same =
      let read = hiding-Reads db sql.read_state law.read_state-Reads in
      session_elim (λ r s'. IsWhole a r (db s')) (hiding sql.read_state) (migrate_unless_dirty sql)
        s
        (λ x h.
          unless_dirty-IsWhole x.0 x.1 a _ (read.same s ∙ same)
            (subst (λ t. HasState t x) same (read.answer s x h)))
        (λ f. failed a _ f (read.same s ∙ same))

  by_existence :
      (exists : Bool) (a : Schema) (s : S)
      → db s ≡ a
      → exists ≡ is_there a.state
      → let m =
          if not exists
          then finish (ok tt)
          else (hiding sql.read_state >>= migrate_unless_dirty sql) in
        IsWhole a (m s).0 (db (m s).1)
  by_existence true a s same e = read_state-IsWhole a s same
  by_existence false a s same e = inl (refl, absent a.state e, same)
    where
      absent : (x : Option (List (ℤ × Bool))) → false ≡ is_there x → x ≡ none
      absent none h = refl
      absent (some y) h = absurd (ground arith)

  -- With PostgreSQL's transactions, whatever calls fail: afterwards the database that other sessions
  -- see is as it was, or all of the passage is done (golang-migrate's state, which was not dirty and
  -- whose tables all exist, is gone, and goose's versions are those that were there, or 0 up to that
  -- version); and without an error there was no state to begin with, or the passage is done.
  pub bootstrap_from_golang_migrate-IsWhole :
      (s : S)
      → IsWhole
          (db s)
          (bootstrap_from_golang_migrate sql s).0
          (db (bootstrap_from_golang_migrate sql s).1)
  unfolding bootstrap_from_golang_migrate
  bootstrap_from_golang_migrate-IsWhole s =
      let there =
        hiding-Reads db (sql.table_exists state_table) (law.table_exists-Reads state_table) in
      session_elim (λ r s'. IsWhole (db s) r (db s')) (hiding (sql.table_exists state_table)) _ s
        (λ b h.
          by_existence b (db s) _ (there.same s) (there.answer s b h ∙ has-state_table (db s)))
        (λ f. failed (db s) _ f (there.same s))

  -- After a call that ended without an error, one more call changes nothing that other sessions see,
  -- whatever calls fail.
  pub bootstrap_from_golang_migrate_again :
      (s : S)
      → (bootstrap_from_golang_migrate sql s).0 ≡ done
      → let s1 = (bootstrap_from_golang_migrate sql s).1 in
        db (bootstrap_from_golang_migrate sql s1).1 ≡ db s1
  bootstrap_from_golang_migrate_again s h =
      let s1 = (bootstrap_from_golang_migrate sql s).1 in
      unchanged (db s1) _ _ (bootstrap_from_golang_migrate-IsWhole s1)
        (no_state_left (db s) _ (db s1) (bootstrap_from_golang_migrate-IsWhole s) h)
