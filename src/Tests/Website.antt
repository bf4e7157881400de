-- ===== src/Tests/Website.antt =====
-- The theorems on the web service's life, at concrete settings.
use ubuntu_insights.Base.{false, inr, refl, some, true, ◌≡◌, ◌⊎◌}
use ubuntu_insights.Server.Contexts.{fresh_contexts, is_graceful_done}
use ubuntu_insights.Server.WebService.{quit_called, metrics_shut_down}
use ubuntu_insights.Server.WebService.{
  Server, ServerReaches, both_stopped, metrics_start, metrics_stops, no_steps, one_more_step,
  primary_failed, primary_start, primary_starts, primary_stops, quit_server, run_returns_with,
  serving, start_server,
}
use ubuntu_insights.Server.WebService.Life.{IsOutcome}
use ubuntu_insights.Server.WebService.Shutdown.{
  CanFinish, server-IsOutcome, server_returns, shutdown_cut,
}
use ubuntu_insights.System.World.{done}

-- Both servers serve, a Quit is called, and they shut down.
abbrev launched : Server
launched = start_server fresh_contexts

abbrev primary_up : Server
primary_up = record launched { primary = serving }

abbrev both_up : Server
both_up = record primary_up { metrics = serving }

abbrev asked : Server
asked = quit_server false both_up

abbrev metrics_down : Server
metrics_down = metrics_stops done asked

abbrev both_down : Server
both_down = primary_stops done metrics_down

abbrev over : Server
over = run_returns_with done done both_down

asked_reached : ServerReaches (start_server fresh_contexts) asked
unfolding start_server primary_starts
asked_reached =
    one_more_step launched both_up asked
      (one_more_step launched primary_up both_up
        (one_more_step launched launched primary_up (no_steps launched)
          (primary_start launched done refl))
        (metrics_start primary_up refl))
      (quit_called both_up false)

metrics_down_reached : ServerReaches (start_server fresh_contexts) metrics_down
unfolding start_server
metrics_down_reached =
    one_more_step launched asked metrics_down asked_reached (metrics_shut_down asked done refl refl)

over_reached : ServerReaches (start_server fresh_contexts) over
unfolding start_server
over_reached =
    one_more_step launched both_down over
      (one_more_step launched metrics_down both_down metrics_down_reached
        (primary_failed metrics_down done refl))
      (both_stopped both_down done done refl refl)

server-IsOutcome_example : IsOutcome (some done) over × (is_graceful_done over.contexts ≡ true)
server-IsOutcome_example = server-IsOutcome over done over_reached refl

asked_graceful : is_graceful_done asked.contexts ≡ true
unfolding start_server
asked_graceful = refl

shutdown_cut_example : (asked.contexts.canceled ≡ true) ⊎ (asked.quitting ≡ true)
shutdown_cut_example = shutdown_cut asked asked_reached asked_graceful

server_returns_example : (is_graceful_done metrics_down.contexts ≡ true) × CanFinish metrics_down
server_returns_example = server_returns metrics_down metrics_down_reached (inr tt)
