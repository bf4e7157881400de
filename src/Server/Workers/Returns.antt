-- ===== src/Server/Workers/Returns.antt =====
-- How Run of server/internal/ingest/workers/workers.go returns, with the end of the goroutine of
-- Watch in server/internal/common/config/config.go, whose two channels it reads. Which
-- applications have a worker is the matter of Server.Workers.Loop; here they are only counted.
use ubuntu_insights.Base.{
  Bool, [], arith, false, if◌then◌else◌, inl, inr, not, refl, subst, suc, true, ℕ, ◌&&◌, ◌∷◌, ◌≡◌,
  ◌⊎◌,
}
use ubuntu_insights.System.World.{Status, canceled, err, fails_with, is_ok, ok, plain}

-- At the select, waiting for the workers, or returned.
pub data PoolState : Type 0 where
  at_select waiting : PoolState
  pool_returned : Status → PoolState

pub record PoolRun : Type 0 where
  pub state : PoolState
  pub ctx_done : Bool
  pub live_workers : ℕ
  pub errors_closed : Bool
  pub changes_closed : Bool

-- Run from the check of its context, and from the start of the watch, which may fail, on
unfoldable pub enter_select : Bool → Status → ℕ → PoolRun
enter_select ctx_done watching n = record {
  state =
      if ctx_done
      then pool_returned (err (canceled ∷ []))
      else if is_ok watching
      then at_select
      else pool_returned (err plain);
  ctx_done = ctx_done;
  live_workers = if not ctx_done && is_ok watching then n else 0;
  errors_closed = false;
  changes_closed = false;
}

-- A synchronisation, at the select's timer, leaves n workers.
abbrev pub synced : ℕ → PoolRun → PoolRun
synced n s = record s { live_workers = n }

-- The deferred calls of the watch: first errorsCh is closed, then changesCh.
abbrev pub close_errors : PoolRun → PoolRun
close_errors s = record s { errors_closed = true }

abbrev pub close_changes : PoolRun → PoolRun
close_changes s = record s { changes_closed = true }

abbrev pub at_state : PoolState → PoolRun → PoolRun
at_state st s = record s { state = st }

-- The cases of the select are ready independently of one another, and Go picks any ready one. The
-- goroutine of the watch ends when the context is done, or when its watcher fails.
pub data PoolStep : PoolRun → PoolRun → Type 0 where
  context_done : (s : PoolRun) → PoolStep s (record s { ctx_done = true })
  resync : (s : PoolRun) (n : ℕ) → s.state ≡ at_select → PoolStep s (synced n s)
  worker_ends : (s : PoolRun) (n : ℕ) → s.live_workers ≡ suc n → PoolStep s (synced n s)
  watch_ends : (s : PoolRun) → PoolStep s (close_errors s)
  watch_ended : (s : PoolRun) → s.errors_closed ≡ true → PoolStep s (close_changes s)
  select_done :
      (s : PoolRun) → s.state ≡ at_select → s.ctx_done ≡ true → PoolStep s (at_state waiting s)
  all_waited :
      (s : PoolRun)
      → s.state ≡ waiting
      → s.live_workers ≡ 0
      → PoolStep s (at_state (pool_returned (err (canceled ∷ []))) s)
  select_errors_closed :
      (s : PoolRun)
      → s.state ≡ at_select
      → s.errors_closed ≡ true
      → PoolStep s (at_state (pool_returned (err plain)) s)
  select_changes_closed :
      (s : PoolRun)
      → s.state ≡ at_select
      → s.changes_closed ≡ true
      → PoolStep s (at_state (pool_returned (err plain)) s)

pub data PoolReaches : PoolRun → PoolRun → Type 0 where
  here : (s : PoolRun) → PoolReaches s s
  after : (s t u : PoolRun) → PoolReaches s t → PoolStep t u → PoolReaches s u

-- What every state satisfies, by where Run is.
abbrev IsWaited : PoolState → PoolRun → Type 0
IsWaited at_select s = Unit
IsWaited waiting s = s.ctx_done ≡ true
IsWaited (pool_returned (ok _)) s = ⊥
IsWaited (pool_returned (err [])) s = Unit
IsWaited (pool_returned (err (_ ∷ _))) s = (s.ctx_done ≡ true) × (s.live_workers ≡ 0)

kept :
    (st : PoolState) (s t : PoolRun)
    → (s.ctx_done ≡ true → t.ctx_done ≡ true)
    → (s.live_workers ≡ 0 → t.live_workers ≡ 0)
    → IsWaited st s
    → IsWaited st t
kept at_select s t f g h = h
kept waiting s t f g h = f h
kept (pool_returned (ok _)) s t f g h = h
kept (pool_returned (err [])) s t f g h = h
kept (pool_returned (err (_ ∷ _))) s t f g h = (f h.0, g h.1)

step-IsWaited : (s t : PoolRun) → PoolStep s t → IsWaited s.state s → IsWaited t.state t
step-IsWaited s t (context_done _) h =
    kept s.state s (record s { ctx_done = true }) (λ _. refl) (λ z. z) h
step-IsWaited s t (resync _ n e) h = rw e tt
step-IsWaited s t (worker_ends _ n e) h =
    kept s.state s (synced n s) (λ d. d) (λ z. absurd (omega (arith, e, z))) h
step-IsWaited s t (watch_ends _) h = kept s.state s (close_errors s) (λ d. d) (λ z. z) h
step-IsWaited s t (watch_ended _ e) h = kept s.state s (close_changes s) (λ d. d) (λ z. z) h
step-IsWaited s t (select_done _ e d) h = d
step-IsWaited s t (all_waited _ e z) h = (rw e at h, z)
step-IsWaited s t (select_errors_closed _ e c) h = tt
step-IsWaited s t (select_changes_closed _ e c) h = tt

Reaches-IsWaited : (s t : PoolRun) → PoolReaches s t → IsWaited s.state s → IsWaited t.state t
Reaches-IsWaited s t (here _) h = h
Reaches-IsWaited s t (after _ u _ before step) h =
    step-IsWaited u t step (Reaches-IsWaited s u before h)

enter_select-IsWaited :
    (ctx_done : Bool) (watching : Status) (n : ℕ)
    → IsWaited (enter_select ctx_done watching n).state (enter_select ctx_done watching n)
unfolding enter_select
enter_select-IsWaited true watching n = (refl, refl)
enter_select-IsWaited false (ok _) n = tt
enter_select-IsWaited false (err e) n = tt

-- Over every order of events: Run never returns without an error, and when it returns the
-- cancellation of its context, the context is done and no worker is left running.
pub run-IsWaited :
    (ctx_done : Bool) (watching : Status) (n : ℕ) (s : PoolRun) (r : Status)
    → PoolReaches (enter_select ctx_done watching n) s
    → s.state ≡ pool_returned r
    → (is_ok r ≡ false)
      × ((fails_with r canceled ≡ false) ⊎ ((s.ctx_done ≡ true) × (s.live_workers ≡ 0)))
run-IsWaited ctx_done watching n s r reached e = by_result r (
    subst (λ st. IsWaited st s) e
      (Reaches-IsWaited (enter_select ctx_done watching n) s reached
        (enter_select-IsWaited ctx_done watching n)))
  where
    by_result :
        (r' : Status)
        → IsWaited (pool_returned r') s
        → (is_ok r' ≡ false)
          × ((fails_with r' canceled ≡ false) ⊎ ((s.ctx_done ≡ true) × (s.live_workers ≡ 0)))
    by_result (ok _) h = absurd h
    by_result (err []) h = (refl, inl refl)
    by_result (err (_ ∷ _)) h = (refl, inr h)

-- In every state in which the context is done and Run is at its select, whatever led there: Run can
-- go on to wait for its workers, but it can also return an error that is not the cancellation, with all
-- the workers that are running at that moment left running, as the watch, which ends with the same
-- context, closes the channels that the select reads.
pub run_leaves_workers :
    (s : PoolRun)
    → s.state ≡ at_select
    → s.ctx_done ≡ true
    → ((t : PoolRun) × PoolReaches s t
        × (t.state ≡ pool_returned (err plain))
        × (t.live_workers ≡ s.live_workers))
      × ((t : PoolRun) × PoolReaches s t × (t.state ≡ waiting) × (t.live_workers ≡ s.live_workers))
run_leaves_workers s e d = (
  (
    at_state (pool_returned (err plain)) (close_errors s),
    after s (close_errors s) _ (after s s (close_errors s) (here s) (watch_ends s))
        (select_errors_closed (close_errors s) e refl),
    refl,
    refl,
  ),
  (at_state waiting s, after s s _ (here s) (select_done s e d), refl, refl),
)
