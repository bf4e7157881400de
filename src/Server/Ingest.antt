-- ===== src/Server/Ingest.antt =====
-- server/internal/ingest/ingest.go: the ingest service's life, as a state machine. The worker pool
-- and the metrics server are the environment: their steps may come at any time, with any error.
pub mod Outcome
pub mod Progress
use ubuntu_insights.Base.{Bool, List, [], if◌then◌else◌, true, ◌&&◌, ◌++◌, ◌∷◌, ◌≡◌}
use ubuntu_insights.Server.Contexts.{
  Contexts, Part, cancel, ended, graceful_cancel, is_done, is_graceful_done, running, unstarted,
}
use ubuntu_insights.System.World.{
  Error, Status, canceled, done, err, is_error, join, ok, opaque, plain, teardown_timeout,
}

-- Where Run is: at its first receive, at the select with the first error, or returned.
pub data RunState : Type 0 where
  first_wait : RunState
  second_wait : Status → RunState
  returned : Status → RunState

-- Service, with the goroutines of Run and what is on the channel `done`, the oldest first.
pub record Service : Type 0 where
  pub contexts : Contexts
  pub workers : Part
  pub metrics : Part
  pub queue : List Status
  pub run : RunState

-- Run up to its first receive: an error, and no goroutines, if it was asked to stop before.
unfoldable pub start_run : Contexts → Service
start_run c =
    if is_graceful_done c
    then record {
      contexts = c;
      workers = unstarted;
      metrics = unstarted;
      queue = [];
      run = returned (err (canceled ∷ []));
    }
    else record { contexts = c; workers = running; metrics = running; queue = []; run = first_wait }

-- gracefulCtx.Err() is the cancellation if it is done, and nil if not, which no error is.
abbrev is_cancellation : Contexts → Error → Bool
is_cancellation c e = is_graceful_done c && is_error e canceled

-- What runWorkers makes of the result of the pool's Run
unfoldable pub workers_result : Contexts → Status → Status
workers_result c (ok _) = done
workers_result c (err e) = if is_cancellation c e then done else err plain

-- runWorkers ends: its deferred gracefulCancel, then the send
unfoldable pub workers_end : Status → Service → Service
workers_end r s = record s {
  contexts = graceful_cancel s.contexts;
  workers = ended (workers_result s.contexts r);
  queue = s.queue ++ (workers_result s.contexts r ∷ []);
}

-- runMetrics ends with a result
unfoldable pub metrics_end : Status → Service → Service
metrics_end r s = record s {
  contexts = graceful_cancel s.contexts;
  metrics = ended r;
  queue = s.queue ++ (r ∷ []);
}

-- The first receive
abbrev pub take_first : Status → List Status → Service → Service
take_first r rest s = record s { queue = rest; run = second_wait r }

-- Run returns; its deferred cancel comes with it.
abbrev pub return_with : Status → List Status → Service → Service
return_with r rest s = record s { contexts = cancel s.contexts; queue = rest; run = returned r }

-- Quit up to its wait; the metrics server that it closes may end like any other time
abbrev pub quit : Bool → Service → Service
quit force s = record s {
  contexts = if force then cancel s.contexts else graceful_cancel s.contexts;
}

-- A step of the environment, or one of a goroutine of the service. The three cases of the select of
-- runMetrics: the context is done; gracefulCtx is done, and Shutdown gives r; ListenAndServe ended
-- with r, where http.ErrServerClosed is nil already.
pub data ServiceStep : Service → Service → Type 0 where
  workers_return :
      (s : Service) (r : Status) → s.workers ≡ running → ServiceStep s (workers_end r s)
  metrics_closed :
      (s : Service)
      → s.metrics ≡ running
      → is_done s.contexts ≡ true
      → ServiceStep s (metrics_end done s)
  metrics_shut_down :
      (s : Service) (r : Status)
      → s.metrics ≡ running
      → is_graceful_done s.contexts ≡ true
      → ServiceStep s (metrics_end (opaque r) s)
  metrics_failed :
      (s : Service) (r : Status) → s.metrics ≡ running → ServiceStep s (metrics_end (opaque r) s)
  first_received :
      (s : Service) (r : Status) (rest : List Status)
      → s.run ≡ first_wait
      → s.queue ≡ r ∷ rest
      → ServiceStep s (take_first r rest s)
  second_received :
      (s : Service) (first r : Status) (rest : List Status)
      → s.run ≡ second_wait first
      → s.queue ≡ r ∷ rest
      → ServiceStep s (return_with (join first r) rest s)
  degraded_too_long :
      (s : Service) (first : Status)
      → s.run ≡ second_wait first
      → ServiceStep s (return_with (join first (err (teardown_timeout ∷ []))) s.queue s)
  quit_called : (s : Service) (force : Bool) → ServiceStep s (quit force s)

pub data ServiceReaches : Service → Service → Type 0 where
  no_steps : (s : Service) → ServiceReaches s s
  one_more_step : (s t u : Service) → ServiceReaches s t → ServiceStep t u → ServiceReaches s u
