-- ===== src/Uploader/Retry.antt =====
-- BackoffUpload and UploadAll of insights/internal/uploader/upload.go, and of uploader.go what
-- makes an uploader: New, Config.Sanitize and GetAllSources.
use ubuntu_insights.Base.{
  Bool, Bytes, List, Option, [], if◌then◌else◌, is_nil, leb, ltb, max, min, none, not, some, suc,
  zero, ℕ, ◌%◌, ◌*◌, ◌-◌, ◌/◌, ◌^◌, ◌∷◌,
}
use ubuntu_insights.Base.Int.{ℤ}
use ubuntu_insights.Report.{Report}
use ubuntu_insights.System.Files.{read_dir, stat}
use ubuntu_insights.System.World.{
  FilePath, Io, Node, Sentinel-discrete, Status, attempt, consent_file_not_found, dir, done, err,
  fails_with, file, hiding, join, lift, ok, opaque, plain, pure, send_failure, sleep, ◌>>=◌, ◌>>◌,
}
use ubuntu_insights.Uploader.{Options, Uploader, upload}

-- constants of BackoffUpload and of package math
abbrev pub max_shift : ℕ
max_shift = 62

-- int64(1) << min(attempts, maxShift)
abbrev pub retry_factor : ℕ → ℕ
retry_factor attempts = 2 ^ min attempts max_shift

-- The upper bound of the pause after so many failed attempts; the product is an int64.
unfoldable pub retry_period : Options → ℕ → ℕ
retry_period o attempts =
    if leb o.base_retry_period ((2 ^ 63 - 1) / retry_factor attempts)
    then min (o.base_retry_period * retry_factor attempts % 2 ^ 64) o.max_retry_period
    else o.max_retry_period

-- rand.Int63n(max(exp, 1))
unfoldable pub draw_wait : ℕ → Io ℕ
draw_wait exp w = (ok (w.random w.draws % max exp 1), record w { draws = suc w.draws })

-- errors.Is(err, ErrSendFailure)
unfoldable pub send_failed : Status → Bool
unfolding Sentinel-discrete
send_failed r = fails_with r send_failure

-- attempts++, on a uint32
abbrev pub next_attempt : ℕ → ℕ
next_attempt attempts = suc attempts % 2 ^ 32

-- The body of the loop after an upload: on a send error a pause is drawn, then either the attempts
-- are used up and the error is returned, or the pause is made and the loop goes on with `next`.
unfoldable pub retry_with : Options → ℕ → Status → Io (Option Status) → Io (Option Status)
retry_with o attempts r next =
    if send_failed r
    then (do
      wait ← draw_wait (retry_period o attempts)
      if ltb o.max_attempts (next_attempt attempts) then pure (some r) else (do sleep wait; next))
    else pure (some r)

-- The error that the loop ended with; a loop that has not ended gives an error of its own.
abbrev pub ended_with : Option Status → Status
ended_with none = err plain
ended_with (some r) = r

module _ (u : Uploader) where
  -- The loop, for so many rounds at most: none if it has not ended by then.
  unfoldable pub backoff : Bytes → Bool → ℕ → ℕ → Io (Option Status)
  backoff source force zero attempts = pure none
  backoff source force (suc rounds) attempts = do
    r ← attempt (upload u source force)
    retry_with u.options attempts r (backoff source force rounds (next_attempt attempts))

  -- BackoffUpload: maxAttempts + 1 rounds are enough unless attempts wraps before.
  unfoldable pub backoff_upload : Bytes → Bool → Io (Unit {0})
  backoff_upload source force = do
    o ← backoff source force (suc u.options.max_attempts) 0
    lift (ended_with o)

  -- What one goroutine of UploadAll adds to the error: a missing consent file is skipped.
  abbrev pub gather_source : Status → Status → Status
  gather_source r errors =
      if fails_with r consent_file_not_found then errors else join errors (opaque r)

  unfoldable pub upload_sources : List Bytes → Bool → Bool → Status → Io (Unit {0})
  upload_sources [] force retry errors = lift errors
  upload_sources (source ∷ sources) force retry errors = do
    r ← attempt (if retry then backoff_upload source force else upload u source force)
    upload_sources sources force retry (gather_source r errors)

  -- UploadAll
  unfoldable pub upload_all : List Bytes → Bool → Bool → Io (Unit {0})
  upload_all sources force retry = upload_sources (u.source_order sources) force retry done

-- The walk of GetAllSources below the root: it goes into each directory, whose own entries it skips.
unfoldable pub source_dirs : FilePath → List (Bytes × Node) → Io (List Bytes)
source_dirs d [] = pure []
source_dirs d ((n, file b) ∷ l) = source_dirs d l
source_dirs d ((n, dir) ∷ l) = do _ ← read_dir (n ∷ d); rest ← source_dirs d l; pure (n ∷ rest)

abbrev pub sources_of : FilePath → Node → Io (List Bytes)
sources_of d (file b) = pure []
sources_of d dir = do entries ← read_dir d; source_dirs d entries

-- GetAllSources
unfoldable pub get_all_sources : FilePath → Io (List Bytes)
get_all_sources d = do root ← stat d; sources_of d root

-- Config
pub record Config : Type 0 where
  pub sources : List Bytes
  pub min_age : ℕ
  pub force : Bool
  pub dry_run : Bool
  pub retry : Bool

-- Config.Sanitize: without sources, all of them
unfoldable pub sanitize : FilePath → Config → Io Config
sanitize cache_dir c =
    if not (is_nil c.sources)
    then pure c
    else (do all ← hiding (get_all_sources cache_dir); pure (record c { sources = all }))

-- New, with the schedule and the clock that the uploader will meet
unfoldable pub new_uploader :
    (Bytes → Io Bool)
    → FilePath
    → ℕ
    → Bool
    → Options
    → (Bytes → Bool)
    → (Report → ℤ)
    → (List Report → List Report)
    → (List Bytes → List Bytes)
    → Uploader
new_uploader consent cache_path min_age dry_run options json_valid now order source_order = record {
  consent = consent;
  min_age = min_age;
  dry_run = dry_run;
  cache_dir = cache_path;
  options = options;
  json_valid = json_valid;
  now = now;
  order = order;
  source_order = source_order;
}
