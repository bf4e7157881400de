-- ===== src/Consent.antt =====
-- insights/internal/consent/consent.go: the consent of each source.
pub mod Laws
pub mod RoundTrip
use ubuntu_insights.Base.{
  Bool, Bytes, List, Option, [], bytes_dec, codes, false, has_suffix, if◌then◌else◌, is_nil, none,
  some, trim_suffix, ◌++◌, ◌∷◌,
}
use ubuntu_insights.Base.Dict.{Dict, insert}
use ubuntu_insights.Env.{Env}
use ubuntu_insights.System.Files.{list_dir}
use ubuntu_insights.System.World.{
  FilePath, Io, Node, Result, attempt, consent_file_not_found, dir, err, file, hiding, is_error,
  lift, not_exist, ok, pure, ◌>>=◌, ◌>>◌,
}
use ubuntu_insights.SystemConfig.{decode_file, is_opted_out, write_toml}

-- Manager: the directory of the consent files, and the system-wide opt-out that it honours.
pub record Manager : Type 0 where
  pub path : FilePath
  pub opt_out : Option FilePath

-- New
abbrev pub new_manager : FilePath → Manager
new_manager d = record { path = d; opt_out = none }

-- NewWithSystemConfig
abbrev pub new_with_system_config : FilePath → FilePath → Manager
new_with_system_config d system_dir = record { path = d; opt_out = some system_dir }

-- constants.ConsentFilenameSuffix, and the key of CFile.ConsentState
abbrev pub consent_suffix : Bytes
consent_suffix = codes "-consent.toml"

abbrev pub consent_state_key : Bytes
consent_state_key = codes "consent_state"

module _ (env : Env) where
  abbrev pub source_or_platform : Bytes → Bytes
  source_or_platform source = if is_nil source then env.goos else source

  -- getFile
  abbrev pub consent_file : Manager → Bytes → FilePath
  consent_file cm source = (source_or_platform source ++ consent_suffix) ∷ cm.path

  -- The deferred function of GetState: a missing file is an error of its own.
  abbrev pub missing_consent : Result Bool → Result Bool
  missing_consent (ok v) = ok v
  missing_consent (err e) = if is_error e not_exist then err (consent_file_not_found ∷ e) else err e

  -- The opt-out state that GetState asks for; without a system configuration there is none.
  unfoldable pub system_opt_out : Option FilePath → Io Bool
  system_opt_out none = pure false
  system_opt_out (some d) = hiding (is_opted_out env d)

  -- readFile
  unfoldable pub read_consent : FilePath → Io Bool
  read_consent p = decode_file env consent_state_key p

  -- GetState before its deferred function
  unfoldable pub raw_state : Manager → Bytes → Io Bool
  raw_state cm source = do
    opted_out ← system_opt_out cm.opt_out
    if opted_out then pure false else read_consent (consent_file cm source)

  -- GetState
  unfoldable pub get_state : Manager → Bytes → Io Bool
  get_state cm source = do r ← attempt (raw_state cm source); lift (missing_consent r)

  -- SetState, with the modes 0750 and 0600
  unfoldable pub set_state : Manager → Bytes → Bool → Io (Unit {0})
  set_state cm source state =
      write_toml env consent_state_key 0o750 0o600 (consent_file cm source) state

-- The loop of getFiles: the last entry of a source wins.
unfoldable pub consent_files :
    FilePath → List (Bytes × Node) → Dict Bytes FilePath → Dict Bytes FilePath
consent_files d [] files = files
consent_files d ((n, dir) ∷ l) files = consent_files d l files
consent_files d ((n, file b) ∷ l) files = consent_files d l (
    if has_suffix n consent_suffix
    then insert bytes_dec (trim_suffix n consent_suffix) (n ∷ d) files
    else files)

-- getFiles
unfoldable pub get_files : Manager → Io (Dict Bytes FilePath)
get_files cm = do entries ← list_dir cm.path; pure (consent_files cm.path entries [])
