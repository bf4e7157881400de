-- ===== src/Server/WebService/Shutdown.antt =====
-- The end of the web service: what Run returns, that it can return, and what becomes of requests.
use ubuntu_insights.Base.{[], inl, refl, some, subst, true, ◌∷◌, ◌≡◌, ◌⊎◌}
use ubuntu_insights.Server.Contexts.{fresh_contexts, is_graceful_done}
use ubuntu_insights.Server.WebService.{
  Server, ServerReaches, ServerStep, Serving, both_stopped, metrics_shut_down, metrics_start,
  metrics_stops, no_steps, one_more_step, primary_shut_down, primary_start, primary_starts,
  primary_stops, run_returns_with, serving, start_server, starting, stopped,
}
use ubuntu_insights.Server.WebService.Life.{
  HasStopped, IsOutcome, Reaches-IsConsistent, start_server-IsConsistent,
}
use ubuntu_insights.System.World.{Status, canceled, done, err, join}

-- Over every order of events of the two HTTP servers, the watch and calls of Quit: when Run has
-- returned, both servers have stopped, what Run returned is the errors of the two, joined, and
-- gracefulCtx is done.
pub server-IsOutcome :
    (s : Server) (r : Status)
    → ServerReaches (start_server fresh_contexts) s
    → s.result ≡ some r
    → IsOutcome (some r) s × (is_graceful_done s.contexts ≡ true)
server-IsOutcome s r reached e =
    let h =
      Reaches-IsConsistent (start_server fresh_contexts) s reached start_server-IsConsistent in
    let outcome = subst (λ o. IsOutcome o s) e h.outcome in
    (outcome, h.stops (inl (primary_stopped outcome)))
  where
    primary_stopped : IsOutcome (some r) s → HasStopped s.primary
    primary_stopped (p, m, ep, em, j) = rw ep tt

-- Over every order of events: whenever gracefulCtx is done, so that the servers shut down, ctx,
-- which is the context that Shutdown waits on, is done as well, or a Quit that was not forced is
-- about to return and to cancel it.
pub shutdown_cut :
    (s : Server)
    → ServerReaches (start_server fresh_contexts) s
    → is_graceful_done s.contexts ≡ true
    → (s.contexts.canceled ≡ true) ⊎ (s.quitting ≡ true)
shutdown_cut s reached =
    (Reaches-IsConsistent (start_server fresh_contexts) s reached start_server-IsConsistent).cut

abbrev pub CanFinish : Server → Type 0
CanFinish s = (t : Server) × (r : Status) × ServerReaches s t × (t.result ≡ some r)

then_return : (s t : Server) → ServerReaches s t → CanFinish t → CanFinish s
then_return s t before (u, r, rest, e) = (u, r, joined s t u before rest, e)
  where
    joined : (a b c : Server) → ServerReaches a b → ServerReaches b c → ServerReaches a c
    joined a b c x (no_steps _) = x
    joined a b c x (one_more_step _ d _ y step) = one_more_step a d c (joined a b d x y) step

one_step : (s t : Server) → ServerStep s t → CanFinish t → CanFinish s
one_step s t step h = then_return s t (one_more_step s s t (no_steps s) step) h

both-CanFinish :
    (s : Server) (p m : Status) → s.primary ≡ stopped p → s.metrics ≡ stopped m → CanFinish s
both-CanFinish s p m ep em = (
  run_returns_with p m s,
  join p m,
  one_more_step s s _ (no_steps s) (both_stopped s p m ep em),
  refl,
)

-- The metrics server still has to stop.
metrics-CanFinish :
    (m : Serving) (s : Server) (p : Status)
    → s.metrics ≡ m
    → s.primary ≡ stopped p
    → is_graceful_done s.contexts ≡ true
    → CanFinish s
metrics-CanFinish (stopped m) s p e ep d = both-CanFinish s p m ep e
metrics-CanFinish serving s p e ep d =
    one_step s (metrics_stops done s) (metrics_shut_down s done e d)
      (both-CanFinish (metrics_stops done s) p done ep refl)
metrics-CanFinish starting s p e ep d =
    let t = record s { metrics = serving } in
    one_step s t (metrics_start s e) (
      one_step t (metrics_stops done t) (metrics_shut_down t done refl d)
        (both-CanFinish (metrics_stops done t) p done ep refl))

starting-CanFinish :
    (s : Server) → s.primary ≡ starting → is_graceful_done s.contexts ≡ true → CanFinish s
unfolding primary_starts
starting-CanFinish s e d = one_step s (primary_starts done s) (primary_start s done e) (
    rw d (
      metrics-CanFinish s.metrics (record s { primary = stopped (err (canceled ∷ [])) })
        (err (canceled ∷ [])) refl refl d))

primary-CanFinish :
    (p : Serving) (s : Server) → s.primary ≡ p → is_graceful_done s.contexts ≡ true → CanFinish s
primary-CanFinish (stopped p) s e d = metrics-CanFinish s.metrics s p refl e d
primary-CanFinish serving s e d =
    one_step s (primary_stops done s) (primary_shut_down s done e d)
      (metrics-CanFinish s.metrics (primary_stops done s) done refl refl refl)
primary-CanFinish starting s e d = starting-CanFinish s e d

-- Over every order of events: once one of the two servers has stopped, for whatever reason, the
-- other one is told to stop, and Run can return from there on.
pub server_returns :
    (s : Server)
    → ServerReaches (start_server fresh_contexts) s
    → HasStopped s.primary ⊎ HasStopped s.metrics
    → (is_graceful_done s.contexts ≡ true) × CanFinish s
server_returns s reached x =
    let h =
      Reaches-IsConsistent (start_server fresh_contexts) s reached start_server-IsConsistent in
    (h.stops x, primary-CanFinish s.primary s refl (h.stops x))
