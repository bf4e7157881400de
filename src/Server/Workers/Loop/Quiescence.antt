-- ===== src/Server/Workers/Loop/Quiescence.antt =====
-- When nothing is left to do, the workers are those of the configuration.
use ubuntu_insights.Base.{Bytes, arith, false, inl, inr, refl, true, ◌↔◌, ◌≡◌, ◌⊎◌}
use ubuntu_insights.Server.Config.{ConfigManager, allow_list, in_map, is_allowed}
use ubuntu_insights.Server.Config.Sound.{IsSound}
use ubuntu_insights.Server.Workers.{Pool}
use ubuntu_insights.Server.Workers.Loop.{
  Loop, LoopStep, Reaches, at_start, change_noticed, change_sent, config_loaded, enter_loop,
  on_timer, resynced, then_step, timer_expired,
}
use ubuntu_insights.Server.Workers.Sync.{sync_workers_runs}

abbrev pub IsInSync : Loop → Type 0
IsInSync s = (app : Bytes) → (in_map app s.pool.workers ≡ true) ↔ (is_allowed s.config app ≡ true)

-- What every state satisfies: a change is on its way, or the workers are in step.
abbrev IsDue : Loop → Type 0
IsDue s =
    IsSound s.config × ((s.unsent ≡ true) ⊎ (s.pending ≡ true) ⊎ (s.armed ≡ true) ⊎ IsInSync s)

resynced-in_map :
    (cm : ConfigManager) (pool : Pool)
    → IsSound cm
    → (app : Bytes) → (in_map app (resynced cm pool).workers ≡ true) ↔ (is_allowed cm app ≡ true)
resynced-in_map cm pool sound app =
    sync_workers_runs (is_allowed cm) (allow_list cm) (λ n. false) pool app (λ n. refl)
      (sound app).0

enter_loop-IsDue : (cm : ConfigManager) (pool : Pool) → IsSound cm → IsDue (enter_loop cm pool)
unfolding enter_loop
enter_loop-IsDue cm pool sound = (sound, inr (inr (inl refl)))

step-IsDue : (s t : Loop) → LoopStep s t → IsDue s → IsDue t
unfolding on_timer
step-IsDue s t (config_loaded _ cm sound) due = (sound, inl refl)
step-IsDue s t (change_sent _ e) due = (due.0, inr (inl refl))
step-IsDue s t (change_noticed _ e) due = (due.0, inr (inr (inl refl)))
step-IsDue s t (timer_expired _ e) due =
    (due.0, inr (inr (inr (resynced-in_map s.config s.pool due.0))))

Reaches-IsDue : (s t : Loop) → Reaches s t → IsDue s → IsDue t
Reaches-IsDue s t (at_start _) due = due
Reaches-IsDue s t (then_step _ u _ r step) due = step-IsDue u t step (Reaches-IsDue s u r due)

-- Whatever loads of the configuration, deliveries of changes and expiries of the timer come in
-- whatever order: when no change is on its way and the timer does not run, the applications that
-- have a worker are exactly those that the configuration allows at that moment.
pub quiescent-IsInSync :
    (cm : ConfigManager) (pool : Pool) (s : Loop)
    → IsSound cm
    → Reaches (enter_loop cm pool) s
    → s.unsent ≡ false
    → s.pending ≡ false
    → s.armed ≡ false
    → IsInSync s
quiescent-IsInSync cm pool s sound r u p a =
    elim (Reaches-IsDue (enter_loop cm pool) s r (enter_loop-IsDue cm pool sound)).1 [
      | inl e ↦ absurd (ground arith)
      | inr (inl e) ↦ absurd (ground arith)
      | inr (inr (inl e)) ↦ absurd (ground arith)
      | inr (inr (inr h)) ↦ h
    ]
