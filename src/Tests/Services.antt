-- ===== src/Tests/Services.antt =====
-- The theorems on the two services, on their worker pool and on the database, at concrete settings.
use ubuntu_insights.Base.{[], false, inl, refl, true, ◌∷◌, ◌≡◌, ◌⊎◌}
use ubuntu_insights.Server.Contexts.{HasEnded, fresh_contexts, is_graceful_done}
use ubuntu_insights.Server.Ingest.{
  Service, ServiceReaches, no_steps, one_more_step, return_with, start_run, take_first, workers_end,
  workers_return,
}
use ubuntu_insights.Server.Ingest.Progress.{CanReturn, run_returns}
use ubuntu_insights.Server.Workers.Returns.{
  PoolReaches, PoolRun, after, all_waited, at_select, at_state, context_done, enter_select, here,
  pool_returned, run-IsWaited, run_leaves_workers, select_done, synced, waiting, worker_ends,
}
use ubuntu_insights.System.World.{
  Status, canceled, done, err, fails_with, is_ok, join, plain, teardown_timeout,
}

-- The workers fail, and the metrics server does not end in time.
abbrev begun : Service
begun = start_run fresh_contexts

abbrev failed : Service
failed = workers_end (err plain) begun

abbrev received : Service
received = take_first (err plain) [] failed

abbrev gave_up : Service
gave_up = return_with (join (err plain) (err (teardown_timeout ∷ []))) [] received

failed_reached : ServiceReaches (start_run fresh_contexts) failed
unfolding start_run
failed_reached =
    one_more_step begun begun failed (no_steps begun) (workers_return begun (err plain) refl)

workers_ended : HasEnded failed.workers ⊎ HasEnded failed.metrics
unfolding workers_end
workers_ended = inl tt

run_returns_example : (is_graceful_done failed.contexts ≡ true) × CanReturn failed
run_returns_example = run_returns fresh_contexts failed refl failed_reached workers_ended

-- A pool of one worker, whose context is canceled, and that returns when the worker has ended.
abbrev entered : PoolRun
entered = enter_select false done 1

abbrev stopping : PoolRun
stopping = record entered { ctx_done = true }

abbrev awaiting : PoolRun
awaiting = at_state waiting stopping

abbrev emptied : PoolRun
emptied = synced 0 awaiting

abbrev pool_over : PoolRun
pool_over = at_state (pool_returned (err (canceled ∷ []))) emptied

pool_over_reached : PoolReaches (enter_select false done 1) pool_over
unfolding enter_select
pool_over_reached =
    after entered emptied pool_over
      (after entered awaiting emptied
        (after entered stopping awaiting
          (after entered entered stopping (here entered) (context_done entered))
          (select_done stopping refl refl))
        (worker_ends awaiting 0 refl))
      (all_waited emptied refl refl)

abbrev cancellation : Status
cancellation = err (canceled ∷ [])

run-IsWaited_example :
    (is_ok cancellation ≡ false)
    × ((fails_with cancellation canceled ≡ false)
        ⊎ ((pool_over.ctx_done ≡ true) × (pool_over.live_workers ≡ 0)))
run-IsWaited_example = run-IsWaited false done 1 pool_over cancellation pool_over_reached refl

at_the_select : stopping.state ≡ at_select
unfolding enter_select
at_the_select = refl

run_leaves_workers_example :
    ((t : PoolRun) × PoolReaches stopping t
      × (t.state ≡ pool_returned (err plain))
      × (t.live_workers ≡ stopping.live_workers))
    × ((t : PoolRun) × PoolReaches stopping t
        × (t.state ≡ waiting)
        × (t.live_workers ≡ stopping.live_workers))
run_leaves_workers_example = run_leaves_workers stopping at_the_select refl
