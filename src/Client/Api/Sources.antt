-- ===== src/Client/Api/Sources.antt =====
-- Where Upload of the Go interface looks for the sources.
use ubuntu_insights.Base.{Bytes, List, [], arith, refl, some, ◌∷◌, ◌≡◌}
use ubuntu_insights.Client.Api.{Config, Setup, UploadFlags, resolve, upload_reports}
use ubuntu_insights.Collector.{Codec}
use ubuntu_insights.System.Calm.{IsCalm, IsCalm-of_fault, read_dir_fault, stat_fault}
use ubuntu_insights.System.Files.{entries_of, node_at, read_dir, sort_entries, stat}
use ubuntu_insights.System.Files.Laws.{stat_tree}
use ubuntu_insights.System.World.{FilePath, Node, Status, Tree, World, dir, done, file, ok}
use ubuntu_insights.Uploader.Retry.{
  get_all_sources, new_uploader, sanitize, source_dirs, upload_all, upload_sources,
}

-- The names of the directories among some entries, and among those of `d` in order of name.
abbrev pub directories : List (Bytes × Node) → List Bytes
directories [] = []
directories ((n, file b) ∷ l) = directories l
directories ((n, dir) ∷ l) = n ∷ directories l

abbrev pub directories_in : FilePath → Tree → List Bytes
directories_in d t = directories (sort_entries (entries_of d t))

stat_calm :
    (d : FilePath) (w : World) (a : Node)
    → IsCalm w
    → node_at d w.tree ≡ some a
    → (stat d w).0 ≡ ok a
unfolding stat IsCalm
stat_calm d w a calm h = ground (arith, calm w.calls)

read_dir_calm :
    (d : FilePath) (w : World)
    → IsCalm w
    → (read_dir d w).0 ≡ ok (sort_entries (entries_of d w.tree))
unfolding read_dir IsCalm
read_dir_calm d w calm = ground (arith, calm w.calls)

source_dirs_calm :
    (d : FilePath) (l : List (Bytes × Node)) (w : World)
    → IsCalm w
    → (source_dirs d l w).0 ≡ ok (directories l)
unfolding source_dirs
source_dirs_calm d [] w calm = refl
source_dirs_calm d ((n, file b) ∷ l) w calm = source_dirs_calm d l w calm
source_dirs_calm d ((n, dir) ∷ l) w calm =
    let w1 = (read_dir (n ∷ d) w).1 in
    rw (read_dir_calm (n ∷ d) w calm)
      (rw (source_dirs_calm d l w1 (IsCalm-of_fault w w1 (read_dir_fault (n ∷ d) w) calm)) refl)

get_all_sources_calm :
    (d : FilePath) (w : World)
    → IsCalm w
    → node_at d w.tree ≡ some dir
    → (get_all_sources d w).0 ≡ ok (directories_in d w.tree)
unfolding get_all_sources
get_all_sources_calm d w calm at =
    let w1 = (stat d w).1 in
    let w2 = (read_dir d w1).1 in
    let calm1 = IsCalm-of_fault w w1 (stat_fault d w) calm in
    let calm2 = IsCalm-of_fault w1 w2 (read_dir_fault d w1) calm1 in
    rw (stat_calm d w dir calm at) (
      rw (read_dir_calm d w1 calm1)
        (rw (stat_tree d w) (source_dirs_calm d (sort_entries (entries_of d w.tree)) w2 calm2)))

module _ {K : Codec} (s : Setup K) (c : Config) (flags : UploadFlags) where
  -- Upload of some sources, or nothing at all if there are none.
  abbrev pub upload_named : List Bytes → World → Status × World
  upload_named [] w = (done, w)
  upload_named (x ∷ xs) w = upload_reports s c (x ∷ xs) flags w

  upload_found :
      (names : List Bytes) (w : World)
      → s.source_order [] ≡ []
      → (get_all_sources (resolve s c).consent_dir w).0 ≡ ok names
      → upload_reports s c [] flags w
        ≡ upload_named names (get_all_sources (resolve s c).consent_dir w).1
  unfolding upload_reports sanitize upload_all upload_sources new_uploader
  upload_found [] w e h = rw h (rw e refl)
  upload_found (x ∷ xs) w e h = rw h refl

  -- When no source is named, the consent directory exists and no call fails, Upload takes the
  -- directories inside the consent directory, in order of name, as the sources, and not those of the
  -- insights directory: it does what Upload of these sources does after the look-up, and if there
  -- are none, then it returns no error and does nothing more, whatever reports the insights
  -- directory holds. (No sources are put into an order as none.)
  pub upload_reports_none :
      (w : World)
      → IsCalm w
      → s.source_order [] ≡ []
      → node_at (resolve s c).consent_dir w.tree ≡ some dir
      → upload_reports s c [] flags w
        ≡ upload_named
            (directories_in (resolve s c).consent_dir w.tree)
            (get_all_sources (resolve s c).consent_dir w).1
  upload_reports_none w calm e at =
      upload_found (directories_in (resolve s c).consent_dir w.tree) w e
        (get_all_sources_calm (resolve s c).consent_dir w calm at)
