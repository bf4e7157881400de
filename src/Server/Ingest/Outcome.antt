-- ===== src/Server/Ingest/Outcome.antt =====
-- What the ingest service's Run returns, over every order of events.
use ubuntu_insights.Base.{
  Bool, List, [], arith, false, inl, inr, refl, subst, true, ◌++◌, ◌∷◌, ◌≡◌, ◌⊎◌,
}
use ubuntu_insights.Server.Contexts.{Contexts, Part, ended, is_graceful_done, running}
use ubuntu_insights.Server.Ingest.{
  RunState, Service, ServiceReaches, ServiceStep, degraded_too_long, first_received, first_wait,
  metrics_closed, metrics_end, metrics_failed, metrics_shut_down, no_steps, one_more_step, quit,
  quit_called, returned, second_received, second_wait, start_run, workers_end, workers_result,
  workers_return,
}
use ubuntu_insights.System.World.{Status, done, err, join, opaque, teardown_timeout}

-- On the way from `s0` to `s` the workers ended, with `a`, while the metrics server was running.
abbrev pub WorkersBefore : Service → Service → Status → Type 0
WorkersBefore s0 s a =
    (u : Service) × ServiceReaches s0 u
    × ServiceReaches u s
    × (u.workers ≡ ended a)
    × (u.metrics ≡ running)

-- The other way round
abbrev pub MetricsBefore : Service → Service → Status → Type 0
MetricsBefore s0 s b =
    (u : Service) × ServiceReaches s0 u
    × ServiceReaches u s
    × (u.metrics ≡ ended b)
    × (u.workers ≡ running)

-- The results that two goroutines have sent, in the order that they were sent in, with what W and M
-- say of a result that the workers or the metrics server have sent before the other one.
pub data Sent (W M : Status → Type 0) : Part → Part → List Status → Type 0 where
  neither : Sent W M running running []
  only_workers : (a : Status) → W a → Sent W M (ended a) running (a ∷ [])
  only_metrics : (b : Status) → M b → Sent W M running (ended b) (b ∷ [])
  workers_first : (a b : Status) → W a → Sent W M (ended a) (ended b) (a ∷ b ∷ [])
  metrics_first : (a b : Status) → M b → Sent W M (ended a) (ended b) (b ∷ a ∷ [])

Sent-map :
    (W M W' M' : Status → Type 0) (p m : Part) (l : List Status)
    → ((a : Status) → W a → W' a)
    → ((b : Status) → M b → M' b)
    → Sent W M p m l
    → Sent W' M' p m l
Sent-map W M W' M' p m l f g (neither) = neither
Sent-map W M W' M' p m l f g (only_workers a x) = only_workers a (f a x)
Sent-map W M W' M' p m l f g (only_metrics b x) = only_metrics b (g b x)
Sent-map W M W' M' p m l f g (workers_first a b x) = workers_first a b (f a x)
Sent-map W M W' M' p m l f g (metrics_first a b x) = metrics_first a b (g b x)

module _ (W M : Status → Type 0) where
  Sent-workers :
      (p m : Part) (l : List Status) (a : Status)
      → (m ≡ running → W a)
      → Sent W M p m l
      → p ≡ running
      → Sent W M (ended a) m (l ++ (a ∷ []))
  Sent-workers p m l a x (neither) e = only_workers a (x refl)
  Sent-workers p m l a x (only_workers _ _) e = absurd (ground arith)
  Sent-workers p m l a x (only_metrics b y) e = metrics_first a b y
  Sent-workers p m l a x (workers_first _ _ _) e = absurd (ground arith)
  Sent-workers p m l a x (metrics_first _ _ _) e = absurd (ground arith)

  Sent-metrics :
      (p m : Part) (l : List Status) (b : Status)
      → (p ≡ running → M b)
      → Sent W M p m l
      → m ≡ running
      → Sent W M p (ended b) (l ++ (b ∷ []))
  Sent-metrics p m l b x (neither) e = only_metrics b (x refl)
  Sent-metrics p m l b x (only_workers a y) e = workers_first a b y
  Sent-metrics p m l b x (only_metrics _ _) e = absurd (ground arith)
  Sent-metrics p m l b x (workers_first _ _ _) e = absurd (ground arith)
  Sent-metrics p m l b x (metrics_first _ _ _) e = absurd (ground arith)

-- Both goroutines ended since `s0`, and Run returns their errors, joined in the order that they
-- ended in.
abbrev pub Completed : Service → Service → Status → Type 0
Completed s0 s r =
    (a : Status) × (b : Status) × (s.workers ≡ ended a)
    × (s.metrics ≡ ended b)
    × (((r ≡ join a b) × WorkersBefore s0 s a) ⊎ ((r ≡ join b a) × MetricsBefore s0 s b))

-- One goroutine ended, and the other one took too long.
abbrev pub TimedOut : Service → Status → Type 0
TimedOut s r =
    (a : Status) × ((s.workers ≡ ended a) ⊎ (s.metrics ≡ ended a))
    × (r ≡ join a (err (teardown_timeout ∷ [])))

module _ (s0 : Service) where
  abbrev SentBy : Service → Part → Part → List Status → Type 0
  SentBy s = Sent (WorkersBefore s0 s) (MetricsBefore s0 s)

  abbrev pub HasReturned : Service → Status → Type 0
  HasReturned s r = (s.contexts.canceled ≡ true) × (Completed s0 s r ⊎ TimedOut s r)

  -- What every state satisfies.
  abbrev pub IsSettled : RunState → Service → Type 0
  IsSettled first_wait s = SentBy s s.workers s.metrics s.queue
  IsSettled (second_wait f) s = SentBy s s.workers s.metrics (f ∷ s.queue)
  IsSettled (returned r) s = HasReturned s r

  WorkersBefore-step :
      (s t : Service) (a : Status) → ServiceStep s t → WorkersBefore s0 s a → WorkersBefore s0 t a
  WorkersBefore-step s t a step (u, r, r', e, e') = (u, r, one_more_step u s t r' step, e, e')

  MetricsBefore-step :
      (s t : Service) (b : Status) → ServiceStep s t → MetricsBefore s0 s b → MetricsBefore s0 t b
  MetricsBefore-step s t b step (u, r, r', e, e') = (u, r, one_more_step u s t r' step, e, e')

  SentBy-step :
      (s t : Service) (p m : Part) (l : List Status)
      → ServiceStep s t
      → SentBy s p m l
      → SentBy t p m l
  SentBy-step s t p m l step =
      Sent-map (WorkersBefore s0 s) (MetricsBefore s0 s) (WorkersBefore s0 t) (MetricsBefore s0 t) p
        m l (λ a. WorkersBefore-step s t a step) (λ b. MetricsBefore-step s t b step)

  HasReturned-step :
      (s t : Service) (r : Status)
      → ServiceStep s t
      → ((a : Status) → s.workers ≡ ended a → t.workers ≡ ended a)
      → ((b : Status) → s.metrics ≡ ended b → t.metrics ≡ ended b)
      → (s.contexts.canceled ≡ true → t.contexts.canceled ≡ true)
      → HasReturned s r
      → HasReturned t r
  HasReturned-step s t r step f g h (c, inl (a, b, w, m, inl (j, x))) =
      (h c, inl (a, b, f a w, g b m, inl (j, WorkersBefore-step s t a step x)))
  HasReturned-step s t r step f g h (c, inl (a, b, w, m, inr (j, x))) =
      (h c, inl (a, b, f a w, g b m, inr (j, MetricsBefore-step s t b step x)))
  HasReturned-step s t r step f g h (c, inr (a, inl w, j)) = (h c, inr (a, inl (f a w), j))
  HasReturned-step s t r step f g h (c, inr (a, inr m, j)) = (h c, inr (a, inr (g a m), j))

  Completed-of :
      (s t : Service) (p m : Part) (f r : Status) (rest : List Status)
      → SentBy t p m (f ∷ r ∷ rest)
      → t.workers ≡ p
      → t.metrics ≡ m
      → Completed s0 t (join f r)
  Completed-of s t p m f r rest (workers_first a b x) ew em = (a, b, ew, em, inl (refl, x))
  Completed-of s t p m f r rest (metrics_first a b x) ew em = (a, b, ew, em, inr (refl, x))

  TimedOut-of :
      (s : Service) (p m : Part) (f : Status) (q : List Status)
      → SentBy s p m (f ∷ q)
      → s.workers ≡ p
      → s.metrics ≡ m
      → TimedOut s (join f (err (teardown_timeout ∷ [])))
  TimedOut-of s p m f q (only_workers a _) ew em = (a, inl ew, refl)
  TimedOut-of s p m f q (only_metrics b _) ew em = (b, inr em, refl)
  TimedOut-of s p m f q (workers_first a b _) ew em = (a, inl ew, refl)
  TimedOut-of s p m f q (metrics_first a b _) ew em = (b, inr em, refl)

  workers_end-IsSettled :
      (run : RunState) (s : Service) (r : Status)
      → ServiceReaches s0 s
      → s.workers ≡ running
      → IsSettled run s
      → IsSettled run (workers_end r s)
  unfolding workers_end
  workers_end-IsSettled run s r reached e = by_state run
    where
      step : ServiceStep s (workers_end r s)
      step = workers_return s r e

      now : s.metrics ≡ running → WorkersBefore s0 (workers_end r s) (workers_result s.contexts r)
      now m = (
        (workers_end r s),
        one_more_step s0 s (workers_end r s) reached step,
        no_steps (workers_end r s),
        refl,
        m,
      )

      by_state : (run : RunState) → IsSettled run s → IsSettled run (workers_end r s)
      by_state first_wait h =
          Sent-workers (WorkersBefore s0 (workers_end r s)) (MetricsBefore s0 (workers_end r s))
            s.workers s.metrics s.queue (workers_result s.contexts r) now
            (SentBy-step s (workers_end r s) s.workers s.metrics s.queue step h) e
      by_state (second_wait f) h =
          Sent-workers (WorkersBefore s0 (workers_end r s)) (MetricsBefore s0 (workers_end r s))
            s.workers s.metrics (f ∷ s.queue) (workers_result s.contexts r) now
            (SentBy-step s (workers_end r s) s.workers s.metrics (f ∷ s.queue) step h) e
      by_state (returned r') h =
          HasReturned-step s (workers_end r s) r' step (λ a w. absurd (ground (arith, e, w)))
            (λ b m. m) (λ c. c) h

  metrics_end-IsSettled :
      (run : RunState) (s : Service) (r : Status)
      → ServiceReaches s0 s
      → s.metrics ≡ running
      → ServiceStep s (metrics_end r s)
      → IsSettled run s
      → IsSettled run (metrics_end r s)
  unfolding metrics_end
  metrics_end-IsSettled run s r reached e step = by_state run
    where
      now : s.workers ≡ running → MetricsBefore s0 (metrics_end r s) r
      now w = (
        (metrics_end r s),
        one_more_step s0 s (metrics_end r s) reached step,
        no_steps (metrics_end r s),
        refl,
        w,
      )

      by_state : (run : RunState) → IsSettled run s → IsSettled run (metrics_end r s)
      by_state first_wait h =
          Sent-metrics (WorkersBefore s0 (metrics_end r s)) (MetricsBefore s0 (metrics_end r s))
            s.workers s.metrics s.queue r now
            (SentBy-step s (metrics_end r s) s.workers s.metrics s.queue step h) e
      by_state (second_wait f) h =
          Sent-metrics (WorkersBefore s0 (metrics_end r s)) (MetricsBefore s0 (metrics_end r s))
            s.workers s.metrics (f ∷ s.queue) r now
            (SentBy-step s (metrics_end r s) s.workers s.metrics (f ∷ s.queue) step h) e
      by_state (returned r') h =
          HasReturned-step s (metrics_end r s) r' step (λ a w. w)
            (λ b m. absurd (ground (arith, e, m))) (λ c. c) h

  quit-IsSettled :
      (run : RunState) (s : Service) (force : Bool)
      → ServiceStep s (quit force s)
      → IsSettled run s
      → IsSettled run (quit force s)
  quit-IsSettled first_wait s force step h =
      SentBy-step s (quit force s) s.workers s.metrics s.queue step h
  quit-IsSettled (second_wait f) s force step h =
      SentBy-step s (quit force s) s.workers s.metrics (f ∷ s.queue) step h
  quit-IsSettled (returned r) s false step h =
      HasReturned-step s (quit false s) r step (λ a w. w) (λ b m. m) (λ c. c) h
  quit-IsSettled (returned r) s true step h =
      HasReturned-step s (quit true s) r step (λ a w. w) (λ b m. m) (λ c. refl) h

  step-IsSettled :
      (s t : Service)
      → ServiceReaches s0 s
      → ServiceStep s t
      → IsSettled s.run s
      → IsSettled t.run t
  unfolding workers_end metrics_end
  step-IsSettled s t reached (workers_return _ r e) h = workers_end-IsSettled s.run s r reached e h
  step-IsSettled s t reached (metrics_closed _ e d) h =
      metrics_end-IsSettled s.run s done reached e (metrics_closed s e d) h
  step-IsSettled s t reached (metrics_shut_down _ r e d) h =
      metrics_end-IsSettled s.run s (opaque r) reached e (metrics_shut_down s r e d) h
  step-IsSettled s t reached (metrics_failed _ r e) h =
      metrics_end-IsSettled s.run s (opaque r) reached e (metrics_failed s r e) h
  step-IsSettled s t reached (first_received _ r rest e q) h =
      SentBy-step s t s.workers s.metrics (r ∷ rest) (first_received s r rest e q)
        (subst (SentBy s s.workers s.metrics) q (subst (λ run. IsSettled run s) e h))
  step-IsSettled s t reached (second_received _ f r rest e q) h = (
    refl,
    inl (
        Completed-of s t s.workers s.metrics f r rest
          (SentBy-step s t s.workers s.metrics (f ∷ r ∷ rest) (second_received s f r rest e q) (
            subst (λ l. SentBy s s.workers s.metrics (f ∷ l)) q
              (subst (λ run. IsSettled run s) e h)))
          refl refl),
  )
  step-IsSettled s t reached (degraded_too_long _ f e) h = (
    refl,
    inr (
        TimedOut-of s s.workers s.metrics f s.queue (subst (λ run. IsSettled run s) e h) refl refl),
  )
  step-IsSettled s t reached (quit_called _ force) h =
      quit-IsSettled s.run s force (quit_called s force) h

  pub Reaches-IsSettled :
      (t : Service) → ServiceReaches s0 t → IsSettled s0.run s0 → IsSettled t.run t
  Reaches-IsSettled t (no_steps _) h = h
  Reaches-IsSettled t (one_more_step _ u _ before step) h =
      step-IsSettled u t before step (Reaches-IsSettled u before h)

pub start_run-IsSettled :
    (c : Contexts)
    → is_graceful_done c ≡ false
    → IsSettled (start_run c) (start_run c).run (start_run c)
unfolding start_run
start_run-IsSettled c e = rw e neither
