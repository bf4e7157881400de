-- ===== src/Tests/Pool.antt =====
-- The theorems on the server's configuration and on its workers, at concrete settings.
use ubuntu_insights.Base.{Bytes, List, Option, [], codes, false, refl, some, true, ◌∷◌, ◌≡◌}
use ubuntu_insights.Server.Config.{ConfigManager, Event, new_config_manager, watch}
use ubuntu_insights.Server.Config.Sound.{IsSound, watch-IsSound}
use ubuntu_insights.Server.Workers.{new_pool}
use ubuntu_insights.Server.Workers.Loop.{
  Loop, Reaches, at_start, enter_loop, on_timer, then_step, timer_expired,
}
use ubuntu_insights.Server.Workers.Loop.Quiescence.{IsInSync, quiescent-IsInSync}
use ubuntu_insights.System.World.{FilePath, World, file}
use ubuntu_insights.Tests.Setting.{world_of}

abbrev config_at : FilePath
config_at = codes "config.json" ∷ []

abbrev config_world : World
config_world = world_of ((config_at, file (codes "c")) ∷ [])

-- The file lists a name and a reserved one.
abbrev decode_names : Bytes → Option (List Bytes)
decode_names b = some (codes "linux" ∷ codes "goose_db_version" ∷ [])

abbrev written_event : Event
written_event = record { is_write = true; is_create = false; is_rename = false; name = config_at }

watch-IsSound_example : IsSound (
    watch decode_names
      (new_config_manager config_at)
      config_world
      ((written_event, config_world) ∷ []))
watch-IsSound_example =
    watch-IsSound decode_names config_at config_world ((written_event, config_world) ∷ [])

abbrev loaded_config : ConfigManager
loaded_config = watch decode_names (new_config_manager config_at) config_world []

loaded-IsSound : IsSound loaded_config
loaded-IsSound = watch-IsSound decode_names config_at config_world []

-- The timer that runs from the start expires.
abbrev after_timer : Loop
after_timer = on_timer (enter_loop loaded_config new_pool)

one_step : Reaches (enter_loop loaded_config new_pool) after_timer
unfolding enter_loop
one_step =
    then_step (enter_loop loaded_config new_pool) (enter_loop loaded_config new_pool) after_timer
      (at_start (enter_loop loaded_config new_pool))
      (timer_expired (enter_loop loaded_config new_pool) refl)

nothing_unsent : after_timer.unsent ≡ false
unfolding on_timer enter_loop
nothing_unsent = refl

nothing_pending : after_timer.pending ≡ false
unfolding on_timer enter_loop
nothing_pending = refl

not_armed : after_timer.armed ≡ false
unfolding on_timer
not_armed = refl

quiescent-IsInSync_example : IsInSync after_timer
quiescent-IsInSync_example =
    quiescent-IsInSync loaded_config new_pool after_timer loaded-IsSound one_step nothing_unsent
      nothing_pending not_armed
