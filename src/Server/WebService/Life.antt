-- ===== src/Server/WebService/Life.antt =====
-- What the web service's Run returns, and how a stop spreads, over every order of events.
use ubuntu_insights.Base.{
  Bool, Bool-cases, Option, [], arith, false, inl, inr, none, refl, some, true, ◌||◌, ◌∷◌, ◌≡◌, ◌⊎◌,
}
use ubuntu_insights.Server.Contexts.{
  Contexts, cancel, fresh_contexts, graceful_cancel, is_graceful_done,
}
use ubuntu_insights.Server.WebService.{
  Server, ServerReaches, ServerStep, Serving, both_stopped, metrics_failed, metrics_shut_down,
  metrics_start, metrics_stops, no_steps, one_more_step, primary_failed, primary_shut_down,
  primary_start, primary_starts, primary_stops, quit_called, quit_returns, quit_server, serving,
  start_server, starting, stopped, watch_ends, watch_failed,
}
use ubuntu_insights.System.World.{Status, canceled, err, is_ok, join, opaque, plain}

abbrev pub HasStopped : Serving → Type 0
HasStopped starting = ⊥
HasStopped serving = ⊥
HasStopped (stopped r) = Unit

-- Run has returned what both servers returned, or it has not returned.
abbrev pub IsOutcome : Option Status → Server → Type 0
IsOutcome none s = Unit
IsOutcome (some r) s =
    (p : Status) × (m : Status) × (s.primary ≡ stopped p) × (s.metrics ≡ stopped m) × (r ≡ join p m)

-- gracefulCtx is done only if ctx is, or a Quit is about to cancel it.
abbrev pub IsCut : Server → Type 0
IsCut s = is_graceful_done s.contexts ≡ true → (s.contexts.canceled ≡ true) ⊎ (s.quitting ≡ true)

abbrev pub Stops : Server → Type 0
Stops s = HasStopped s.primary ⊎ HasStopped s.metrics → is_graceful_done s.contexts ≡ true

pub record IsConsistent (s : Server) : Type 0 where
  pub outcome : IsOutcome s.result s
  pub cut : IsCut s
  pub stops : Stops s

or_true : (b : Bool) → (b || true) ≡ true
or_true b = ground arith

-- A server that is not stopped is no part of an outcome.
still :
    (o : Option Status) (s t : Server)
    → ((p : Status) → s.primary ≡ stopped p → t.primary ≡ stopped p)
    → ((m : Status) → s.metrics ≡ stopped m → t.metrics ≡ stopped m)
    → IsOutcome o s
    → IsOutcome o t
still none s t f g h = tt
still (some r) s t f g (p, m, ep, em, j) = (p, m, f p ep, g m em, j)

primary_starts-IsConsistent :
    (s : Server) (watching : Status)
    → s.primary ≡ starting
    → IsConsistent s
    → IsConsistent (primary_starts watching s)
unfolding primary_starts
primary_starts-IsConsistent s watching e h = elim (Bool-cases (is_graceful_done s.contexts)) [
  | inl d ↦ rw d (record {
    outcome =
        still s.result s (record s { primary = stopped (err (canceled ∷ [])) })
          (λ p ep. absurd (ground (arith, e, ep))) (λ m em. em) h.outcome;
    cut = h.cut;
    stops = λ x. d;
  })
  | inr d ↦ rw d (elim (Bool-cases (is_ok watching)) [
    | inl o ↦ rw o (record {
      outcome =
          still s.result s (record s { primary = serving }) (λ p ep. absurd (ground (arith, e, ep)))
            (λ m em. em) h.outcome;
      cut = h.cut;
      stops = stops_serving;
    })
    | inr o ↦ rw o (record {
      outcome =
          still s.result s
            (record s { primary = stopped (err plain); contexts = cancel s.contexts })
            (λ p ep. absurd (ground (arith, e, ep))) (λ m em. em) h.outcome;
      cut = λ x. inl refl;
      stops = λ x. refl;
    })
  ])
]
  where
    stops_serving : ⊥ ⊎ HasStopped s.metrics → is_graceful_done s.contexts ≡ true
    stops_serving (inl x) = absurd x
    stops_serving (inr x) = h.stops (inr x)

module _ (s : Server) (h : IsConsistent s) where
  -- A goroutine stops, and cancels ctx.
  primary_stops-IsConsistent : (r : Status) → s.primary ≡ serving → IsConsistent (primary_stops r s)
  primary_stops-IsConsistent r e = record {
    outcome =
        still s.result s (primary_stops r s) (λ p ep. absurd (ground (arith, e, ep))) (λ m em. em)
          h.outcome;
    cut = λ x. inl refl;
    stops = λ x. refl;
  }

  metrics_stops-IsConsistent : (r : Status) → s.metrics ≡ serving → IsConsistent (metrics_stops r s)
  metrics_stops-IsConsistent r e = record {
    outcome =
        still s.result s (metrics_stops r s) (λ p ep. ep) (λ m em. absurd (ground (arith, e, em)))
          h.outcome;
    cut = λ x. inl refl;
    stops = λ x. refl;
  }

  metrics_start-IsConsistent : s.metrics ≡ starting → IsConsistent (record s { metrics = serving })
  metrics_start-IsConsistent e = record {
    outcome =
        still s.result s (record s { metrics = serving }) (λ p ep. ep)
          (λ m em. absurd (ground (arith, e, em))) h.outcome;
    cut = h.cut;
    stops = stops_serving;
  }
    where
      stops_serving : HasStopped s.primary ⊎ ⊥ → is_graceful_done s.contexts ≡ true
      stops_serving (inl x) = h.stops (inl x)
      stops_serving (inr x) = absurd x

  -- A change of the contexts alone
  contexts-IsConsistent :
      (c : Contexts) (q : Bool)
      → ((is_graceful_done c ≡ true) × ((c.canceled ≡ true) ⊎ (q ≡ true)))
      → IsConsistent (record s { contexts = c; quitting = q })
  contexts-IsConsistent c q (d, x) = record {
    outcome =
        still s.result s (record s { contexts = c; quitting = q }) (λ p ep. ep) (λ m em. em)
          h.outcome;
    cut = λ _. x;
    stops = λ _. d;
  }

  quit_server-IsConsistent : (force : Bool) → IsConsistent (quit_server force s)
  quit_server-IsConsistent true =
      contexts-IsConsistent (cancel s.contexts) s.quitting (refl, inl refl)
  quit_server-IsConsistent false =
      contexts-IsConsistent (graceful_cancel s.contexts) true
        (or_true s.contexts.canceled, inr refl)

  step-IsConsistent : (t : Server) → ServerStep s t → IsConsistent t
  step-IsConsistent t (primary_start _ watching e) = primary_starts-IsConsistent s watching e h
  step-IsConsistent t (metrics_start _ e) = metrics_start-IsConsistent e
  step-IsConsistent t (watch_ends _) = record {
    outcome = still s.result s (record s { watch_over = true }) (λ p ep. ep) (λ m em. em) h.outcome;
    cut = h.cut;
    stops = h.stops;
  }
  step-IsConsistent t (primary_shut_down _ r e d) = primary_stops-IsConsistent (opaque r) e
  step-IsConsistent t (primary_failed _ r e) = primary_stops-IsConsistent (opaque r) e
  step-IsConsistent t (watch_failed _ w r e o) = primary_stops-IsConsistent (join (opaque w) r) e
  step-IsConsistent t (metrics_shut_down _ r e d) = metrics_stops-IsConsistent (opaque r) e
  step-IsConsistent t (metrics_failed _ r e) = metrics_stops-IsConsistent (opaque r) e
  step-IsConsistent t (both_stopped _ p m ep em) = record {
    outcome = (p, m, ep, em, refl);
    cut = h.cut;
    stops = h.stops;
  }
  step-IsConsistent t (quit_called _ force) = quit_server-IsConsistent force
  step-IsConsistent t (quit_returns _ e) =
      contexts-IsConsistent (cancel s.contexts) false (refl, inl refl)

pub Reaches-IsConsistent : (s t : Server) → ServerReaches s t → IsConsistent s → IsConsistent t
Reaches-IsConsistent s t (no_steps _) h = h
Reaches-IsConsistent s t (one_more_step _ u _ before step) h =
    step-IsConsistent u (Reaches-IsConsistent s u before h) t step

pub start_server-IsConsistent : IsConsistent (start_server fresh_contexts)
unfolding start_server
start_server-IsConsistent = record { outcome = tt; cut = λ x. cc; stops = nothing_stopped }
  where
    nothing_stopped : ⊥ ⊎ ⊥ → false ≡ true
    nothing_stopped (inl x) = absurd x
    nothing_stopped (inr x) = absurd x
