-- ===== src/Server/WebService.antt =====
-- server/internal/webservice/webservice.go: the life of the web service, as a state machine. The
-- HTTP servers, net.Listen and the configuration's watcher are the environment: their steps may
-- come at any time, with any error. The routes are in Server.Routes.
pub mod Life
pub mod Shutdown
use ubuntu_insights.Base.{Bool, Option, [], false, if◌then◌else◌, none, some, true, ◌∷◌, ◌≡◌}
use ubuntu_insights.Server.Contexts.{
  Contexts, cancel, fresh_contexts, graceful_cancel, is_graceful_done,
}
use ubuntu_insights.System.World.{Result, Status, canceled, err, is_ok, join, ok, opaque, plain}

-- servePrimary and serveMetrics, each until the select that it waits at, and then ended.
pub data Serving : Type 0 where
  starting serving : Serving
  stopped : Status → Serving

-- Server, and what Run returned if it has. `watch_over` says whether the watch's channel of errors
-- is closed or holds an error; `quitting`, whether a Quit has canceled gracefulCtx and not returned.
pub record Server : Type 0 where
  pub contexts : Contexts
  pub primary : Serving
  pub metrics : Serving
  pub watch_over : Bool
  pub quitting : Bool
  pub result : Option Status

unfoldable pub start_server : Contexts → Server
start_server c = record {
  contexts = c;
  primary = starting;
  metrics = starting;
  watch_over = false;
  quitting = false;
  result = none;
}

-- New: the configuration must load
unfoldable pub new_server : Status → Result Server
unfolding start_server
new_server (ok _) = ok (start_server fresh_contexts)
new_server (err e) = err plain

-- servePrimary from its start: an error if it was asked to quit before; else the watch begins, and
-- its failure ends it, with the deferred cancel
unfoldable pub primary_starts : Status → Server → Server
primary_starts watching s =
    if is_graceful_done s.contexts
    then record s { primary = stopped (err (canceled ∷ [])) }
    else if is_ok watching
    then record s { primary = serving }
    else record s { primary = stopped (err plain); contexts = cancel s.contexts }

-- A return from the select of servePrimary or of serveMetrics, with the deferred cancel
abbrev pub primary_stops : Status → Server → Server
primary_stops r s = record s { primary = stopped r; contexts = cancel s.contexts }

abbrev pub metrics_stops : Status → Server → Server
metrics_stops r s = record s { metrics = stopped r; contexts = cancel s.contexts }

-- Run returns what both servers returned; the labels that it adds wrap the errors.
abbrev pub run_returns_with : Status → Status → Server → Server
run_returns_with p m s = record s { result = some (join p m) }

-- Quit, and its deferred cancel. (The end of the context that New was given is like a forced Quit.)
abbrev pub quit_server : Bool → Server → Server
quit_server true s = record s { contexts = cancel s.contexts }
quit_server false s = record s { contexts = graceful_cancel s.contexts; quitting = true }

abbrev pub quit_over : Server → Server
quit_over s = record s { contexts = cancel s.contexts; quitting = false }

-- The cases of the selects: gracefulCtx is done, and Shutdown gives r; the server ended with r,
-- where http.ErrServerClosed is nil already; the watch ended, and Close gives r.
pub data ServerStep : Server → Server → Type 0 where
  primary_start :
      (s : Server) (watching : Status)
      → s.primary ≡ starting
      → ServerStep s (primary_starts watching s)
  metrics_start :
      (s : Server) → s.metrics ≡ starting → ServerStep s (record s { metrics = serving })
  watch_ends : (s : Server) → ServerStep s (record s { watch_over = true })
  primary_shut_down :
      (s : Server) (r : Status)
      → s.primary ≡ serving
      → is_graceful_done s.contexts ≡ true
      → ServerStep s (primary_stops (opaque r) s)
  primary_failed :
      (s : Server) (r : Status) → s.primary ≡ serving → ServerStep s (primary_stops (opaque r) s)
  watch_failed :
      (s : Server) (watch_error closing : Status)
      → s.primary ≡ serving
      → s.watch_over ≡ true
      → ServerStep s (primary_stops (join (opaque watch_error) closing) s)
  metrics_shut_down :
      (s : Server) (r : Status)
      → s.metrics ≡ serving
      → is_graceful_done s.contexts ≡ true
      → ServerStep s (metrics_stops (opaque r) s)
  metrics_failed :
      (s : Server) (r : Status) → s.metrics ≡ serving → ServerStep s (metrics_stops (opaque r) s)
  both_stopped :
      (s : Server) (p m : Status)
      → s.primary ≡ stopped p
      → s.metrics ≡ stopped m
      → ServerStep s (run_returns_with p m s)
  quit_called : (s : Server) (force : Bool) → ServerStep s (quit_server force s)
  quit_returns : (s : Server) → s.quitting ≡ true → ServerStep s (quit_over s)

pub data ServerReaches : Server → Server → Type 0 where
  no_steps : (s : Server) → ServerReaches s s
  one_more_step : (s t u : Server) → ServerReaches s t → ServerStep t u → ServerReaches s u
