-- ===== src/Server/Workers/Pauses.antt =====
-- The pauses of appWorker.
use native.Mathlib.Nat.{mod-lt}
use ubuntu_insights.Base.{
  All, All-append, Bool, Bool-cases, List, [], arith, inl, inr, suc, zero, ℕ, ◌%◌, ◌<◌, ◌∷◌, ◌≤◌,
}
use ubuntu_insights.Server.Workers.{
  after_process, app_rounds, app_worker, base_backoff, draw_sleep, max_backoff, next_backoff,
}
use ubuntu_insights.System.Files.Trace.{OnTrace}
use ubuntu_insights.System.Keeps.{Keeps, Keeps-attempt, Keeps-bind, Keeps-pure}
use ubuntu_insights.System.World.{Io, Post, Status, World, attempt, err, ok, sleep}

-- Every pause is shorter than the longest backoff.
abbrev pub IsShort : List Post → List ℕ → Type 0
IsShort posts slept = All (λ t. t < max_backoff) slept

abbrev InRange : ℕ → Type 0
InRange backoff = (0 < backoff) × (backoff ≤ max_backoff)

next_backoff_range : (backoff : ℕ) → InRange backoff → InRange (next_backoff backoff)
unfolding next_backoff
next_backoff_range backoff h = omega arith

mod_lt_max : (n backoff : ℕ) → InRange backoff → n % backoff < max_backoff
mod_lt_max n backoff h = let lt : n % backoff < backoff = mod-lt n h.0 in omega arith

module _ (process : Io (Unit {0})) (ctx_done canceled : World → Bool)
    (runs : Keeps (OnTrace IsShort) process) where
  after_process-IsShort :
      (backoff : ℕ) (r : Status) (afresh later : Io (Unit {0}))
      → InRange backoff
      → Keeps (OnTrace IsShort) afresh
      → Keeps (OnTrace IsShort) later
      → Keeps (OnTrace IsShort) (after_process process ctx_done canceled backoff r afresh later)
  unfolding after_process draw_sleep OnTrace
  after_process-IsShort backoff (ok _) afresh later h ka kl = ka
  after_process-IsShort backoff (err e) afresh later h ka kl = record {
    at = λ w s.
        let t = w.random w.draws % backoff in
        let w1 = record w { draws = suc w.draws } in
        elim (Bool-cases (canceled w1)) [
          | inl c ↦ rw c s
          | inr c ↦ rw c (
              kl.at (sleep t w1).1 (
                All-append (λ t. t < max_backoff) w.slept (t ∷ []) s
                  (mod_lt_max (w.random w.draws) backoff h, tt)))
        ];
  }

  app_rounds-IsShort :
      (n backoff : ℕ)
      → InRange backoff
      → Keeps (OnTrace IsShort) (app_rounds process ctx_done canceled n backoff)
  unfolding app_rounds
  app_rounds-IsShort zero backoff h = Keeps-pure tt
  app_rounds-IsShort (suc n) backoff h = record {
    at = λ w s. elim (Bool-cases (ctx_done w)) [
      | inl c ↦ rw c s
      | inr c ↦ rw c (
          (Keeps-bind (attempt process) _ (Keeps-attempt process runs) (λ r.
              after_process-IsShort backoff r (app_rounds process ctx_done canceled n base_backoff)
                (app_rounds process ctx_done canceled n (next_backoff backoff)) h
                (app_rounds-IsShort n base_backoff (omega arith, omega arith))
                (app_rounds-IsShort n (next_backoff backoff) (next_backoff_range backoff h)))).at
            w s)
    ];
  }

  -- Through any number of rounds of a worker, whatever its runs return, every pause that it makes
  -- is shorter than the longest backoff, if the runs themselves make no longer pause.
  pub app_worker_pauses :
      (n : ℕ) (w : World)
      → All (λ t. t < max_backoff) w.slept
      → All (λ t. t < max_backoff) (app_worker process ctx_done canceled n w).1.slept
  unfolding app_worker OnTrace
  app_worker_pauses n w h = (app_rounds-IsShort n base_backoff (omega arith, omega arith)).at w h
