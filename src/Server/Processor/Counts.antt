-- ===== src/Server/Processor/Counts.antt =====
-- The attempts and failures that processFile counts.
use ubuntu_insights.Base.{Bool, Bool-cases, Bytes, arith, inl, inr, true, ℕ, ◌+◌, ◌≡◌, ◌≤◌}
use ubuntu_insights.Server.Processor.{
  Database, Decoders, finish_file, get_report_id, handle_invalid, has_failed_upload, one_if,
  process_file, process_kind, upload_invalid, was_attempted,
}
use ubuntu_insights.System.Files.{remove}
use ubuntu_insights.System.Steps.{bind_elim}
use ubuntu_insights.System.World.{FilePath, Result, Status, World, attempt, err, ok, pure}

-- At most one failure, no more failures than attempts, and at most two attempts.
abbrev pub IsCount : ℕ × ℕ → Type 0
IsCount (a, f) = (f ≤ a) × (f ≤ 1) × (a ≤ 2)

abbrev AreCounts : Result (ℕ × ℕ) → World → Type 0
AreCounts r w' = (c : ℕ × ℕ) → r ≡ ok c → IsCount c

abbrev AreInvalidCounts : Result (ℕ × ℕ) → World → Type 0
AreInvalidCounts r w' = (c : ℕ × ℕ) → r ≡ ok c → (c.1 ≤ c.0) × (c.0 ≤ 1)

one_if_le : (b : Bool) → one_if b ≤ 1
one_if_le b = ground arith

failed_counts :
    (r : Status) (h : has_failed_upload r ≡ true) (c : ℕ × ℕ)
    → ok (one_if (was_attempted r), 1) ≡ ok c
    → IsCount c
unfolding was_attempted has_failed_upload
failed_counts r h c e = ground arith

sum_counts :
    (n a f : ℕ) → n ≤ 1 → (f ≤ a) × (a ≤ 1) → (c : ℕ × ℕ) → ok (n + a, f) ≡ ok c → IsCount c
sum_counts n a f h b c e = grind arith

module _ (decoders : Decoders) (db : Database) where
  handle_invalid_counts :
      (path : FilePath) (id app : Bytes) (r : Status) (w : World)
      → AreInvalidCounts
          (handle_invalid decoders db path id app r w).0
          (handle_invalid decoders db path id app r w).1
  unfolding handle_invalid
  handle_invalid_counts path id app (ok _) w = λ c e. ground arith
  handle_invalid_counts path id app (err f) w =
      bind_elim AreInvalidCounts (upload_invalid decoders db path id app) _ w
        (λ (tried, r) _ c e. ground arith) (λ g _ c e. absurd (ground arith))

  finish_file_counts :
      (path : FilePath) (id app : Bytes) (r : Status) (w : World)
      → AreCounts
          (finish_file decoders db path id app r w).0
          (finish_file decoders db path id app r w).1
  unfolding finish_file was_attempted
  finish_file_counts path id app r w = elim (Bool-cases (has_failed_upload r)) [
    | inl h ↦ rw h (failed_counts r h)
    | inr h ↦ rw h (
        bind_elim AreCounts (handle_invalid decoders db path id app r) _ w
          (λ (a, f) e.
            let bound = handle_invalid_counts path id app r w (a, f) e in
            bind_elim AreCounts (attempt (remove path))
              (λ _. pure (one_if (was_attempted r) + a, f))
              (handle_invalid decoders db path id app r w).1
              (λ _ _. sum_counts (one_if (was_attempted r)) a f (one_if_le (was_attempted r)) bound)
              (λ g _ c e. absurd (ground arith)))
          (λ g _ c e. absurd (ground arith)))
  ]

  -- For one file processFile counts at most two attempts and at most one failure, and no more
  -- failures than attempts.
  pub process_file_counts :
      (path : FilePath) (app : Bytes) (legacy_app' : Bool) (w : World) (c : ℕ × ℕ)
      → (process_file decoders db path app legacy_app' w).0 ≡ ok c
      → IsCount c
  unfolding process_file
  process_file_counts path app legacy_app' w =
      bind_elim AreCounts (get_report_id decoders path) _ w
        (λ id _.
          let w1 = (get_report_id decoders path w).1 in
          bind_elim AreCounts (attempt (process_kind decoders db path id app legacy_app'))
            (finish_file decoders db path id app) w1
            (λ r _.
              finish_file_counts path id app r
                (process_kind decoders db path id app legacy_app' w1).1)
            (λ g _ c e. absurd (ground arith)))
        (λ g _ c e. absurd (ground arith))
