-- ===== src/Server/Processor/Files.antt =====
-- getJSONFiles and Process of server/internal/ingest/processor/processor.go.
use ubuntu_insights.Base.{
  Bool, Bytes, List, [], codes, ext, if◌then◌else◌, length, ltb, max, same_bytes, suc, zero, ℕ,
  ◌&&◌, ◌*◌, ◌++◌, ◌+◌, ◌∷◌,
}
use ubuntu_insights.Server.Path.{join_path}
use ubuntu_insights.Server.Processor.{Database, Decoders, is_legacy, process_file}
use ubuntu_insights.System.Files.{mkdir_all, read_dir, stat}
use ubuntu_insights.System.World.{
  FilePath, Io, Node, Status, Tree, World, canceled, database_errors, dir, done, err, file, hiding,
  join, lift, ok, plain, pure, raise, ◌>>=◌, ◌>>◌,
}

-- The length of the longest path in a tree.
unfoldable pub deepest : Tree → ℕ
deepest [] = 0
deepest ((p, node) ∷ t) = max (length p) (deepest t)

-- filepath.WalkDir below `d`, on the entries `l` of `d`, for the regular files with the extension of
-- a report; directories are entered up to the given depth.
unfoldable pub walk_json : ℕ → FilePath → List (Bytes × Node) → Io (List FilePath)
walk_json depth d [] = pure []
walk_json depth d ((n, file b) ∷ l) = do
  rest ← walk_json depth d l
  pure (if same_bytes (ext n) (codes ".json") then (n ∷ d) ∷ rest else rest)
walk_json zero d ((n, dir) ∷ l) = raise plain
walk_json (suc depth) d ((n, dir) ∷ l) = do
  entries ← read_dir (n ∷ d)
  inner ← walk_json depth (n ∷ d) entries
  rest ← walk_json (suc depth) d l
  pure (inner ++ rest)

-- getJSONFiles, of a directory that was just made; no path is longer than the deepest one.
unfoldable pub get_json_files : FilePath → Io (List FilePath)
get_json_files d =
    λ w. (do _ ← stat d; entries ← read_dir d; walk_json (deepest w.tree) d entries) w

-- More than 15 % of the attempts failed: failures / attempts > 1 - 0.85.
unfoldable pub over_threshold : ℕ → ℕ → Bool
over_threshold attempts failures = ltb 0 attempts && ltb (15 * attempts) (100 * failures)

module _ (decoders : Decoders) (db : Database) (ctx_done : World → Bool) where
  -- The loop over the files: the counts, and the error of a context that is done
  unfoldable pub process_files : List FilePath → Bytes → ℕ → ℕ → Io ((ℕ × ℕ) × Status)
  process_files [] app attempts failures = pure ((attempts, failures), done)
  process_files (path ∷ rest) app attempts failures = λ w.
      if ctx_done w
      then (ok ((attempts, failures), err (canceled ∷ [])), w)
      else (do
        (a, f) ← process_file decoders db path app (is_legacy app)
        process_files rest app (attempts + a) (failures + f))
          w

  -- The deferred function
  abbrev pub judge : (ℕ × ℕ) × Status → Status
  judge ((attempts, failures), r) =
      if over_threshold attempts failures then join (err (database_errors ∷ [])) r else r

  -- Process
  unfoldable pub process : FilePath → Bytes → Io (Unit {0})
  process reports_dir app = do
    hiding (mkdir_all (join_path reports_dir app))
    files ← hiding (get_json_files (join_path reports_dir app))
    result ← process_files files app 0 0
    lift (judge result)
