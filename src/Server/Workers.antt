-- ===== src/Server/Workers.antt =====
-- server/internal/ingest/workers/workers.go: one worker for each allowed application.
pub mod Sync
pub mod Pauses
pub mod Loop
pub mod Returns
use ubuntu_insights.Base.{
  Bool, Bytes, List, [], bytes_dec, if◌then◌else◌, min, suc, zero, ℕ, ◌%◌, ◌*◌, ◌^◌, ◌∷◌,
}
use ubuntu_insights.Base.Dict.{Dict, erase, insert}
use ubuntu_insights.Server.Config.{allow_list, in_map, is_allowed}
use ubuntu_insights.Server.Processor.Files.{process}
use ubuntu_insights.System.World.{
  Io, Status, World, attempt, canceled, done, err, ok, pure, sleep, ◌>>=◌, ◌>>◌,
}

-- The running workers by application; the numbers stand for their cancel functions, `canceled`
-- lists the ones that were called, and `started` counts the workers.
pub record Pool : Type 0 where
  pub workers : Dict Bytes ℕ
  pub canceled : List ℕ
  pub started : ℕ

-- New
abbrev pub new_pool : Pool
new_pool = record { workers = []; canceled = []; started = 0 }

abbrev pub cancel : ℕ → Pool → Pool
cancel id pool = record pool { canceled = id ∷ pool.canceled }

-- The first loop of syncWorkers, over the map as it is when the loop starts.
unfoldable pub stop_unless : (Bytes → Bool) → Bytes → ℕ → Pool → Pool
stop_unless is_allowed app id pool =
    if is_allowed app
    then pool
    else cancel id (record pool { workers = erase bytes_dec app pool.workers })

unfoldable pub stop_removed : (Bytes → Bool) → Dict Bytes ℕ → Pool → Pool
stop_removed is_allowed [] pool = pool
stop_removed is_allowed ((app, id) ∷ rest) pool =
    stop_removed is_allowed rest (stop_unless is_allowed app id pool)

abbrev pub start : Bytes → Pool → Pool
start app pool = record pool {
  workers = insert bytes_dec app pool.started pool.workers;
  started = suc pool.started;
}

-- The second loop, which returns when the context is done before it starts a worker; `ctx_done` is
-- asked with the number of workers started so far.
unfoldable pub start_added : (ℕ → Bool) → List Bytes → Pool → Pool
start_added ctx_done [] pool = pool
start_added ctx_done (app ∷ rest) pool =
    let skip = start_added ctx_done rest pool in
    let next = start_added ctx_done rest (start app pool) in
    if in_map app pool.workers then skip else if ctx_done pool.started then pool else next

-- syncWorkers, on what IsAllowed and AllowList of the configuration manager answer
unfoldable pub sync_workers : (Bytes → Bool) → List Bytes → (ℕ → Bool) → Pool → Pool
sync_workers is_allowed allow_list ctx_done pool =
    start_added ctx_done allow_list (stop_removed is_allowed pool.workers pool)

-- The constants of appWorker, in nanoseconds.
abbrev pub base_backoff : ℕ
base_backoff = 5 * 10 ^ 9

abbrev pub max_backoff : ℕ
max_backoff = 30 * 10 ^ 9

-- rand.Int63n(int64(backoff))
unfoldable pub draw_sleep : ℕ → Io ℕ
draw_sleep backoff w = (ok (w.random w.draws % backoff), record w { draws = suc w.draws })

unfoldable pub next_backoff : ℕ → ℕ
next_backoff backoff = min (backoff * 2) max_backoff

-- The loop of appWorker, for so many rounds at most: `ctx_done` tells at the start of a round
-- whether the context is done, and `canceled` whether it ends the pause.
module _ (process : Io (Unit {0})) (ctx_done canceled : World → Bool) where
  -- What follows a run: `afresh` and `later` are the next rounds with the two backoffs.
  unfoldable pub after_process : ℕ → Status → Io (Unit {0}) → Io (Unit {0}) → Io (Unit {0})
  after_process backoff (ok _) afresh later = afresh
  after_process backoff (err e) afresh later = do
    wait ← draw_sleep backoff
    λ w. if canceled w then (done, w) else (sleep wait >> later) w

  unfoldable pub app_rounds : ℕ → ℕ → Io (Unit {0})
  app_rounds zero backoff = pure tt
  app_rounds (suc n) backoff = λ w.
      if ctx_done w
      then (done, w)
      else (do
        r ← attempt process
        after_process backoff r (app_rounds n base_backoff) (app_rounds n (next_backoff backoff)))
          w

  -- appWorker
  unfoldable pub app_worker : ℕ → Io (Unit {0})
  app_worker n = app_rounds n base_backoff
