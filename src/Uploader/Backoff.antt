-- ===== src/Uploader/Backoff.antt =====
-- The pauses of BackoffUpload: their number and their length.
use native.Mathlib.Nat.{one-le-pow, le-div_iff_mul-le, div-lt_iff_lt-mul, mod-lt}
use mathlib.Core.List.{append_assoc, append-nil}
use ubuntu_insights.Base.{
  All, Bool, Bool-cases, Bytes, List, Option, [], ap, arith, if◌then◌else◌, inl, inr, is_nil, leb,
  leb-false→lt, leb→le, length, ltb, max, min, false, refl, some, suc, sym, true, zero, ◌+◌, ℕ, ◌%◌,
  ◌*◌, ◌++◌, ◌-◌, ◌/◌, ◌<◌, ◌^◌, ◌∙◌, ◌∷◌, ◌≡◌, ◌≤◌,
}
use ubuntu_insights.System.Files.Trace.{OnTrace}
use ubuntu_insights.System.Keeps.{Keeps, Keeps-bind, Keeps-if, Keeps-raise}
use ubuntu_insights.System.Steps.{bind_elim}
use ubuntu_insights.System.World.{FilePath, Result, Status, World, ok, plain}
use ubuntu_insights.Uploader.{Options, Uploader, send, upload}
use ubuntu_insights.Uploader.Retry.{
  backoff, backoff_upload, draw_wait, max_shift, next_attempt, retry_factor, retry_period,
  retry_with, send_failed,
}
use ubuntu_insights.Uploader.Trace.{OnTrace-make_dirs, OnTrace-upload_consented}

factor_pos : (attempts : ℕ) → 0 < retry_factor attempts
factor_pos attempts = one-le-pow (min attempts max_shift) 2 (omega arith)

capped :
    (b f m : ℕ)
    → 0 < f
    → m < 2 ^ 63
    → (if leb b ((2 ^ 63 - 1) / f) then min (b * f % 2 ^ 64) m else m) ≡ min (b * f) m
capped b f m pos_f h = elim (Bool-cases (leb b ((2 ^ 63 - 1) / f))) [
  | inl fits ↦
      let le : b * f ≤ 2 ^ 63 - 1 = (le-div_iff_mul-le pos_f).0 (leb→le _ _ fits) in
      rw fits (omega arith)
  | inr over ↦
      let lt : 2 ^ 63 - 1 < b * f = (div-lt_iff_lt-mul pos_f).0 (leb-false→lt _ _ over) in
      rw over (omega arith)
]

-- The bound of the pause doubles from the base period up to the greatest one, with no overflow of
-- an int64, when the greatest period is an int64.
pub retry_period_doubles :
    (o : Options) (attempts : ℕ)
    → o.max_retry_period < 2 ^ 63
    → retry_period o attempts ≡ min (o.base_retry_period * 2 ^ min attempts 62) o.max_retry_period
unfolding retry_period
retry_period_doubles o attempts h =
    capped o.base_retry_period (retry_factor attempts) o.max_retry_period (factor_pos attempts) h

-- Pauses were added to `before`: at most `n`, each shorter than the bound.
abbrev pub Paused : List ℕ → ℕ → ℕ → List ℕ → Type 0
Paused before n bound slept =
    (new : List ℕ) × (slept ≡ before ++ new) × (length new ≤ n) × All (λ t. t < bound) new

module _ (Q : List ℕ → Type 0) where
  send-slept :
      (url : FilePath) (payload : Bytes) → Keeps (OnTrace (λ _ slept. Q slept)) (send url payload)
  unfolding send OnTrace
  send-slept url payload = record {
    at = λ w h. elim (Bool-cases (w.fault w.calls)) [ inl f ↦ rw f h | inr ok_ ↦ rw ok_ h ];
  }

  upload_slept :
      (u : Uploader) (source : Bytes) (force : Bool)
      → Keeps (OnTrace (λ _ slept. Q slept)) (u.consent source)
      → Keeps (OnTrace (λ _ slept. Q slept)) (upload u source force)
  unfolding upload
  upload_slept u source force silent =
      Keeps-if (is_nil source) _ _ (λ _. Keeps-raise plain)
        (λ _. Keeps-bind _ _ (OnTrace-make_dirs _ u _ _) (λ _. Keeps-bind _ _ silent (λ c.
          OnTrace-upload_consented _ c (λ url payload _. send-slept url payload) u source force)))

-- The longest pause, plus one: `max exp 1` at the greatest period.
abbrev pub pause_bound : Options → ℕ
pause_bound o = max o.max_retry_period 1

wait_bound : (o : Options) (attempts n : ℕ) → n % max (retry_period o attempts) 1 < pause_bound o
unfolding retry_period
wait_bound o attempts n =
    let lt = mod-lt n {m = max (retry_period o attempts) 1} (omega arith) in
    let le : retry_period o attempts ≤ o.max_retry_period = ground arith in omega (arith, lt, le)

module _ (u : Uploader) (source : Bytes) (force : Bool)
    (silent : (Q : List ℕ → Type 0) → Keeps (OnTrace (λ _ slept. Q slept)) (u.consent source)) where
  upload-slept : (w : World) → (upload u source force w).1.slept ≡ w.slept
  unfolding OnTrace
  upload-slept w =
      (upload_slept (λ s. s ≡ w.slept) u source force (silent (λ s. s ≡ w.slept))).at w refl

  -- The loop has ended, after at most so many pauses.
  abbrev HasEnded : ℕ → World → Result (Option Status) → World → Type 0
  HasEnded left w r w' =
      ((x : Status) × (r ≡ ok (some x))) × Paused w.slept left (pause_bound u.options) w'.slept

  no_pause :
      (left : ℕ) (x : Status) (w w' : World) → w'.slept ≡ w.slept → HasEnded left w (ok (some x)) w'
  no_pause left x w w' e = ((x, refl), ([], e ∙ sym (append-nil w.slept), omega arith, tt))

  one_pause :
      (left t : ℕ) (w w1 : World) (r : Result (Option Status)) (w' : World)
      → w1.slept ≡ w.slept ++ (t ∷ [])
      → t < pause_bound u.options
      → HasEnded left w1 r w'
      → HasEnded (suc left) w r w'
  one_pause left t w w1 r w' e lt (ended, (new, e', le, all)) = (
    ended,
    (
      t ∷ new,
      e' ∙ ap (λ (l : List ℕ). l ++ new) e ∙ append_assoc w.slept (t ∷ []) new,
      omega arith,
      (lt, all),
    ),
  )

  backoff_ends :
      (left attempts : ℕ) (w : World)
      → attempts + left ≡ u.options.max_attempts
      → u.options.max_attempts < 2 ^ 32 - 1
      → HasEnded left w
          (backoff u source force (suc left) attempts w).0
          (backoff u source force (suc left) attempts w).1
  unfolding backoff retry_with draw_wait
  backoff_ends zero attempts w e small =
      let w1 = (upload u source force w).1 in
      let r = (upload u source force w).0 in
      let w2 = record w1 { draws = suc w1.draws } in
      let last : ltb u.options.max_attempts (next_attempt attempts) ≡ true = ground arith in
      elim (Bool-cases (send_failed r)) [
        | inl again ↦ rw (again, backoff) (rw (last, backoff) (no_pause 0 r w w2 (upload-slept w)))
        | inr stop ↦ rw (stop, backoff) (no_pause 0 r w w1 (upload-slept w))
      ]
  backoff_ends (suc left) attempts w e small =
      let w1 = (upload u source force w).1 in
      let r = (upload u source force w).0 in
      let t = w1.random w1.draws % max (retry_period u.options attempts) 1 in
      let w2 = record w1 { draws = suc w1.draws; slept = w1.slept ++ (t ∷ []) } in
      let n = next_attempt attempts in
      let more : ltb u.options.max_attempts n ≡ false = ground arith in
      let rest = backoff_ends left n w2 (omega arith) small in
      elim (Bool-cases (send_failed r)) [
        | inl again ↦
            rw (again, backoff)
              (rw (more, backoff)
                (one_pause left t w w2 (backoff u source force (suc left) n w2).0
                  (backoff u source force (suc left) n w2).1
                  (ap (λ (l : List ℕ). l ++ (t ∷ [])) (upload-slept w))
                  (wait_bound u.options attempts (w1.random w1.draws)) rest))
        | inr stop ↦ rw (stop, backoff) (no_pause (suc left) r w w1 (upload-slept w))
      ]

  -- When maxAttempts is less than the greatest uint32, the loop of BackoffUpload ends within
  -- maxAttempts + 1 rounds, with the result that BackoffUpload returns, and has then paused at most
  -- maxAttempts times, each time for less than the greatest retry period (or not at all), whatever
  -- the server answers and whichever calls fail. (GetState itself must not pause.)
  pub backoff_upload_pauses :
      (w : World)
      → u.options.max_attempts < 2 ^ 32 - 1
      → ((r : Status) × ((backoff u source force (suc u.options.max_attempts) 0 w).0 ≡ ok (some r))
          × ((backoff_upload u source force w).0 ≡ r))
        × Paused w.slept u.options.max_attempts
            (pause_bound u.options)
            (backoff_upload u source force w).1.slept
  unfolding backoff_upload
  backoff_upload_pauses w small =
      let k = u.options.max_attempts in
      let ((r, e), paused) = backoff_ends k 0 w (omega arith) small in
      bind_elim
        (λ x w'.
          ((y : Status) × ((backoff u source force (suc k) 0 w).0 ≡ ok (some y)) × (x ≡ y))
          × Paused w.slept k (pause_bound u.options) w'.slept)
        (backoff u source force (suc k) 0) _ w
        (λ o same.
          let is_r : o ≡ some r = ground (arith, e, same) in rw is_r ((r, e, refl), paused))
        (λ f failed. absurd (ground (arith, e, failed)))
