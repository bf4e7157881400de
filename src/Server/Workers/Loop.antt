-- ===== src/Server/Workers/Loop.antt =====
-- Run of server/internal/ingest/workers/workers.go, with the goroutine of Watch in
-- server/internal/common/config/config.go, as a state machine while the context is not done.
-- Each of its steps may come at any time that its guard holds. (A synchronisation is one step: no
-- load of the configuration falls between its two loops.)
pub mod Quiescence
use ubuntu_insights.Base.{Bool, false, true, ◌≡◌}
use ubuntu_insights.Server.Config.{ConfigManager, allow_list, is_allowed}
use ubuntu_insights.Server.Config.Sound.{IsSound}
use ubuntu_insights.Server.Workers.{Pool, sync_workers}

-- `unsent`: a load succeeded and its change is not yet on the channel; `pending`: a change is on
-- the channel, which holds one; `armed`: the debounce timer runs.
pub record Loop : Type 0 where
  pub pool : Pool
  pub config : ConfigManager
  pub unsent : Bool
  pub pending : Bool
  pub armed : Bool

abbrev pub resynced : ConfigManager → Pool → Pool
resynced cm pool = sync_workers (is_allowed cm) (allow_list cm) (λ n. false) pool

-- Run up to its loop: the first synchronisation, and the timer that is running from the start
unfoldable pub enter_loop : ConfigManager → Pool → Loop
enter_loop cm pool = record {
  pool = resynced cm pool;
  config = cm;
  unsent = false;
  pending = false;
  armed = true;
}

-- A load of Watch that succeeds.
abbrev pub on_load : ConfigManager → Loop → Loop
on_load cm s = record s { config = cm; unsent = true }

-- Its change goes to the channel, or is dropped while another one is there.
abbrev pub on_send : Loop → Loop
on_send s = record s { unsent = false; pending = true }

-- The case of reloadEventCh: the timer starts anew.
abbrev pub on_reload : Loop → Loop
on_reload s = record s { pending = false; armed = true }

-- The case of the timer.
unfoldable pub on_timer : Loop → Loop
on_timer s = record s { pool = resynced s.config s.pool; armed = false }

pub data LoopStep : Loop → Loop → Type 0 where
  config_loaded : (s : Loop) (cm : ConfigManager) → IsSound cm → LoopStep s (on_load cm s)
  change_sent : (s : Loop) → s.unsent ≡ true → LoopStep s (on_send s)
  change_noticed : (s : Loop) → s.pending ≡ true → LoopStep s (on_reload s)
  timer_expired : (s : Loop) → s.armed ≡ true → LoopStep s (on_timer s)

pub data Reaches : Loop → Loop → Type 0 where
  at_start : (s : Loop) → Reaches s s
  then_step : (s t u : Loop) → Reaches s t → LoopStep t u → Reaches s u
