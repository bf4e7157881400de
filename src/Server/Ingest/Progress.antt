-- ===== src/Server/Ingest/Progress.antt =====
-- The ingest service's Run does not wait for ever, and one sub-service that ends stops the other.
use ubuntu_insights.Base.{
  Bool, Bool-cases, List, [], arith, false, inl, inr, refl, true, ◌||◌, ◌∷◌, ◌≡◌, ◌⊎◌,
}
use ubuntu_insights.Server.Contexts.{Contexts, HasEnded, Part, is_graceful_done}
use ubuntu_insights.Server.Ingest.{
  RunState, Service, ServiceReaches, ServiceStep, degraded_too_long, first_received, first_wait,
  metrics_closed, metrics_end, metrics_failed, metrics_shut_down, no_steps, one_more_step,
  quit_called, return_with, returned, second_received, second_wait, start_run, take_first,
  workers_end, workers_return,
}
use ubuntu_insights.Server.Ingest.Outcome.{
  IsSettled, MetricsBefore, Reaches-IsSettled, WorkersBefore, Sent, metrics_first, neither,
  only_metrics, only_workers, start_run-IsSettled, workers_first,
}
use ubuntu_insights.System.World.{Status, err, join, teardown_timeout}

-- A goroutine that ended has requested the stop.
abbrev pub StopsOther : Service → Type 0
StopsOther s = HasEnded s.workers ⊎ HasEnded s.metrics → is_graceful_done s.contexts ≡ true

or_true : (b : Bool) → (b || true) ≡ true
or_true b = ground arith

step-StopsOther : (s t : Service) → ServiceStep s t → StopsOther s → StopsOther t
unfolding workers_end metrics_end
step-StopsOther s t (workers_return _ r e) h x = or_true s.contexts.canceled
step-StopsOther s t (metrics_closed _ e d) h x = or_true s.contexts.canceled
step-StopsOther s t (metrics_shut_down _ r e d) h x = or_true s.contexts.canceled
step-StopsOther s t (metrics_failed _ r e) h x = or_true s.contexts.canceled
step-StopsOther s t (first_received _ r rest e q) h x = h x
step-StopsOther s t (second_received _ f r rest e q) h x = refl
step-StopsOther s t (degraded_too_long _ f e) h x = refl
step-StopsOther s t (quit_called _ true) h x = refl
step-StopsOther s t (quit_called _ false) h x = or_true s.contexts.canceled

Reaches-StopsOther : (s t : Service) → ServiceReaches s t → StopsOther s → StopsOther t
Reaches-StopsOther s t (no_steps _) h = h
Reaches-StopsOther s t (one_more_step _ u _ before step) h =
    step-StopsOther u t step (Reaches-StopsOther s u before h)

start_run-StopsOther : (c : Contexts) → StopsOther (start_run c)
unfolding start_run
start_run-StopsOther c h = elim (Bool-cases (is_graceful_done c)) [
  | inl e ↦ rw e e
  | inr e ↦ absurd (nothing_ended e h)
]
  where
    nothing_ended :
        is_graceful_done c ≡ false
        → HasEnded (start_run c).workers ⊎ HasEnded (start_run c).metrics
        → ⊥
    nothing_ended e (inl x) = rw e at x
    nothing_ended e (inr x) = rw e at x

-- A return of Run that changes nothing else: the sub-services are left as they are.
abbrev pub CanReturn : Service → Type 0
CanReturn s =
    (t : Service) × (r : Status) × ServiceReaches s t
    × (t.run ≡ returned r)
    × (t.workers ≡ s.workers)
    × (t.metrics ≡ s.metrics)

second_wait-CanReturn : (s : Service) (f : Status) → s.run ≡ second_wait f → CanReturn s
second_wait-CanReturn s f e =
    let r = join f (err (teardown_timeout ∷ [])) in
    (
      return_with r s.queue s,
      r,
      one_more_step s s _ (no_steps s) (degraded_too_long s f e),
      refl,
      refl,
      refl,
    )

first_wait-CanReturn :
    (s : Service) (r : Status) (rest : List Status)
    → s.run ≡ first_wait
    → s.queue ≡ r ∷ rest
    → CanReturn s
first_wait-CanReturn s r rest e q =
    let t = take_first r rest s in
    let r' = join r (err (teardown_timeout ∷ [])) in
    (
      return_with r' t.queue t,
      r',
      one_more_step s t _ (one_more_step s s t (no_steps s) (first_received s r rest e q))
          (degraded_too_long t r refl),
      refl,
      refl,
      refl,
    )

Sent-something :
    (W M : Status → Type 0) (p m : Part) (l : List Status)
    → Sent W M p m l
    → HasEnded p ⊎ HasEnded m
    → (r : Status) × (rest : List Status) × (l ≡ r ∷ rest)
Sent-something W M p m l (neither) (inl x) = absurd x
Sent-something W M p m l (neither) (inr x) = absurd x
Sent-something W M p m l (only_workers a _) h = (a, [], refl)
Sent-something W M p m l (only_metrics b _) h = (b, [], refl)
Sent-something W M p m l (workers_first a b _) h = (a, b ∷ [], refl)
Sent-something W M p m l (metrics_first a b _) h = (b, a ∷ [], refl)

settled-CanReturn :
    (s0 : Service) (run : RunState) (s : Service)
    → s.run ≡ run
    → IsSettled s0 run s
    → HasEnded s.workers ⊎ HasEnded s.metrics
    → CanReturn s
settled-CanReturn s0 first_wait s e h x =
    let (r, rest, q) =
      Sent-something (WorkersBefore s0 s) (MetricsBefore s0 s) s.workers s.metrics s.queue h x in
    first_wait-CanReturn s r rest e q
settled-CanReturn s0 (second_wait f) s e h x = second_wait-CanReturn s f e
settled-CanReturn s0 (returned r) s e h x = (s, r, no_steps s, e, refl, refl)

-- Over every order of events, from a Run that was not asked to stop before: once a sub-service has
-- ended, the stop of the other one is requested, and Run can return from there on by steps of its
-- own, whether or not the other sub-service ever ends.
pub run_returns :
    (c : Contexts) (s : Service)
    → is_graceful_done c ≡ false
    → ServiceReaches (start_run c) s
    → HasEnded s.workers ⊎ HasEnded s.metrics
    → (is_graceful_done s.contexts ≡ true) × CanReturn s
run_returns c s e reached x = (
  Reaches-StopsOther (start_run c) s reached (start_run-StopsOther c) x,
  settled-CanReturn (start_run c) s.run s refl
      (Reaches-IsSettled (start_run c) s reached (start_run-IsSettled c e)) x,
)
