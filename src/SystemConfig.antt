-- ===== src/SystemConfig.antt =====
-- insights/internal/systemconfig/systemconfig.go: the system-wide opt-out.
-- A manager is the directory that it was made with.
pub mod Stored
use ubuntu_insights.Base.{Bool, Bytes, codes, false, if◌then◌else◌, ℕ, ◌∷◌}
use ubuntu_insights.Env.{Env, or_plain}
use ubuntu_insights.FileUtils.{write_file_with_perm}
use ubuntu_insights.System.Files.{read_file}
use ubuntu_insights.System.World.{
  FilePath, Io, Result, attempt, err, is_error, lift, not_exist, ok, plain, ◌>>=◌,
}

-- constants.SystemConfigFileName, and the key of Config.SystemOptOut
abbrev pub system_config_file_name : Bytes
system_config_file_name = codes "system-config.toml"

abbrev pub system_opt_out_key : Bytes
system_opt_out_key = codes "system_opt_out"

-- getFile
abbrev pub config_file : FilePath → FilePath
config_file d = system_config_file_name ∷ d

module _ (env : Env) where
  -- toml.DecodeFile, of a struct with the one key
  unfoldable pub decode_file : Bytes → FilePath → Io Bool
  decode_file key p = do b ← read_file p; lift (or_plain (env.toml_decode key b))

  abbrev opted_out_of : Result Bool → Result Bool
  opted_out_of (ok v) = ok v
  opted_out_of (err e) = if is_error e not_exist then ok false else err plain

  -- IsOptedOut
  unfoldable pub is_opted_out : FilePath → Io Bool
  is_opted_out d = do
    r ← attempt (decode_file system_opt_out_key (config_file d))
    lift (opted_out_of r)

  -- Config.write and CFile.write, which differ in the key and in the modes
  unfoldable pub write_toml : Bytes → ℕ → ℕ → FilePath → Bool → Io (Unit {0})
  write_toml key dir_perm file_perm p v = do
    b ← lift (or_plain (env.toml_encode key v))
    write_file_with_perm p b dir_perm file_perm

  -- SetOptOut, with the modes 0755 and 0644
  unfoldable pub set_opt_out : FilePath → Bool → Io (Unit {0})
  set_opt_out d v = write_toml system_opt_out_key 0o755 0o644 (config_file d) v
