-- ===== src/FileUtils.antt =====
-- common/fileutils/fileutils.go: writing a file through a temporary one.
pub mod Atomic
pub mod Temp
use ubuntu_insights.Base.{Bytes, [], if◌then◌else◌, ℕ, ◌==◌, ◌∷◌}
use ubuntu_insights.System.Files.{chmod, close, create_temp, mkdir_all, remove, rename, write}
use ubuntu_insights.System.World.{
  FilePath, Io, Status, attempt, err, hiding, is_error, lift, not_exist, ok, plain, pure, ◌>>=◌,
  ◌>>◌,
}

-- filepath.Dir
abbrev pub parent : FilePath → FilePath
parent [] = []
parent (n ∷ p) = p

-- The steps between the creation of the temporary file and the deferred clean-up. A mode of 0
-- leaves the mode of the temporary file.
unfoldable pub fill_and_rename : FilePath → FilePath → Bytes → ℕ → Io (Unit {0})
fill_and_rename tmp p data' perm = do
  hiding (write tmp data')
  hiding close
  hiding (rename tmp p)
  if perm == 0 then pure tt else hiding (chmod p)

-- A failed removal replaces the result, unless the file was gone.
abbrev pub after_removal : Status → Status → Status
after_removal (ok _) r = r
after_removal (err e) r = if is_error e not_exist then r else err plain

-- The deferred function.
unfoldable pub remove_temp : FilePath → Status → Io (Unit {0})
remove_temp tmp r = do
  _ ← attempt close
  removal ← attempt (remove tmp)
  lift (after_removal removal r)

unfoldable pub atomic_write : FilePath → Bytes → ℕ → Io (Unit {0})
atomic_write p data' perm = do
  tmp ← hiding (create_temp (parent p))
  r ← attempt (fill_and_rename tmp p data' perm)
  remove_temp tmp r

-- AtomicWrite
unfoldable pub write_file : FilePath → Bytes → Io (Unit {0})
write_file p data' = atomic_write p data' 0

-- AtomicWriteWithPerm
unfoldable pub write_file_with_perm : FilePath → Bytes → ℕ → ℕ → Io (Unit {0})
write_file_with_perm p data' dir_perm file_perm = do
  hiding (mkdir_all (parent p))
  atomic_write p data' file_perm
