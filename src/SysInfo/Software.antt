-- ===== src/SysInfo/Software.antt =====
-- insights/internal/collector/sysinfo/software: software.go and software_linux.go. Letters outside
-- ASCII are neither capitalised nor compared without regard to their case.
pub mod Clean
pub mod KeyValue
use ubuntu_insights.Base.{
  Bool, Bytes, List, Option, [], bytes_dec, codes, false, if◌then◌else◌, is_nil, leb, none, not,
  same_bytes, some, ◌&&◌, ◌-◌, ◌==◌, ◌||◌, ◌∷◌,
}
use ubuntu_insights.Base.Dict.{Dict, insert, lookup}
use ubuntu_insights.Client.Commands.{to_lower}
use ubuntu_insights.Server.Path.{has_prefix}
use ubuntu_insights.SysInfo.Machine.{Machine, or_empty}
use ubuntu_insights.SysInfo.Platform.{PlatformInfo}
use ubuntu_insights.SysInfo.Text.{cut, one_line, read_file_log, split_at, trim_space, unquote}
use ubuntu_insights.System.Files.{read_file, stat}
use ubuntu_insights.System.World.{
  FilePath, Io, Result, attempt, err, hiding, is_ok, lift, ok, plain, pure, raise, ◌>>=◌, ◌>>◌,
}

-- osInfo; its edition is never set on Linux
pub record OsInfo : Type 0 where
  pub family : Bytes
  pub distro : Bytes
  pub version : Bytes

pub record Bios : Type 0 where
  pub vendor : Bytes
  pub version : Bytes

pub record SoftwareInfo : Type 0 where
  pub os : OsInfo
  pub timezone : Bytes
  pub lang : Bytes
  pub bios : Bios

-- The time zone's name, and the confinement in the YAML of a snap
pub record SoftwareTools : Type 0 where
  pub timezone : Bytes
  pub confinement : Bytes → Option Bytes

abbrev pub distribution_id : Bytes
distribution_id = codes "Distribution ID"

abbrev pub release : Bytes
release = codes "Release"

-- osReleaseFields and lsbReleaseFields
abbrev pub os_release_fields : Dict Bytes Bytes
os_release_fields =
    (codes "ID", distribution_id)
    ∷ (codes "NAME", codes "Name")
    ∷ (codes "VERSION_ID", release)
    ∷ []

abbrev pub lsb_release_fields : Dict Bytes Bytes
lsb_release_fields = (codes "DISTRIB_ID", distribution_id) ∷ (codes "DISTRIB_RELEASE", release) ∷ []

-- The key and the value of a line, if it has them
abbrev is_skipped_line : Bytes → Bool
is_skipped_line line = is_nil line || has_prefix line (codes "#")

abbrev trimmed_pair : Option (Bytes × Bytes) → Option (Bytes × Bytes)
trimmed_pair none = none
trimmed_pair (some (key, value)) = some (trim_space key, unquote (trim_space value))

unfoldable pub key_value : Bytes → Option (Bytes × Bytes)
key_value line =
    let l = trim_space line in if is_skipped_line l then none else trimmed_pair (cut b'=' l)

abbrev store_field : Option Bytes → Bytes → Dict Bytes Bytes → Dict Bytes Bytes
store_field none value found = found
store_field (some field) value found = insert bytes_dec field value found

abbrev pub store_pair :
    Dict Bytes Bytes → Option (Bytes × Bytes) → Dict Bytes Bytes → Dict Bytes Bytes
store_pair field_map none found = found
store_pair field_map (some (key, value)) found =
    store_field (lookup bytes_dec key field_map) value found

unfoldable pub parse_lines : Dict Bytes Bytes → List Bytes → Dict Bytes Bytes → Dict Bytes Bytes
parse_lines field_map [] found = found
parse_lines field_map (line ∷ lines) found =
    parse_lines field_map lines (store_pair field_map (key_value line) found)

-- parseKeyValueFile
unfoldable pub parse_key_value_file : Bytes → Dict Bytes Bytes → Dict Bytes Bytes
parse_key_value_file content field_map = parse_lines field_map (split_at 10 content) []

-- data[k]
abbrev pub field_of : Bytes → Dict Bytes Bytes → Bytes
field_of k found = or_empty (lookup bytes_dec k found)

-- unicode.ToUpper of the first letter, an ASCII one, as os-release(5) wants it of ID
abbrev capitalize : Bytes → Bytes
capitalize [] = []
capitalize (c ∷ s) = (if leb b'a' c && leb c b'z' then c - 32 else c) ∷ s

-- strings.EqualFold
abbrev equal_fold : Bytes → Bytes → Bool
equal_fold a b = same_bytes (to_lower a) (to_lower b)

abbrev named : Bytes → Option Bytes → Bytes
named distro none = distro
named distro (some name) = if equal_fold distro name then name else distro

unfoldable pub distro_of : Dict Bytes Bytes → Bytes
distro_of found =
    named (capitalize (field_of distribution_id found)) (lookup bytes_dec (codes "Name") found)

-- What comes before a dot in $LANG
abbrev pub before_dot : Bytes → Option (Bytes × Bytes) → Bytes
before_dot lang none = lang
before_dot lang (some (l, encoding)) = l

abbrev pub lang_or_empty : Result Bytes → Bytes
lang_or_empty (ok lang) = lang
lang_or_empty (err e) = []

-- The loop over the paths: the last one that exists wins
unfoldable pub last_existing : List FilePath → Option FilePath → Io (Option FilePath)
last_existing [] best = pure best
last_existing (p ∷ ps) best = do
  r ← attempt (stat p)
  last_existing ps (if is_ok r then some p else best)

module _ (m : Machine) where
  -- collectOSFromLSBRelease and collectOSFromFile from their data on
  abbrev pub lsb_info : Dict Bytes Bytes → Result OsInfo
  lsb_info found =
      if is_nil found
      then err plain
      else ok (record {
        family = m.goos;
        distro = field_of distribution_id found;
        version = field_of release found;
      })

  abbrev pub os_info : Dict Bytes Bytes → Result OsInfo
  os_info found =
      if is_nil found
      then err plain
      else ok
          (record { family = m.goos; distro = distro_of found; version = field_of release found })

  unfoldable pub collect_os_from_lsb_release : FilePath → Io OsInfo
  collect_os_from_lsb_release p = do
    content ← hiding (read_file p)
    lift (lsb_info (parse_key_value_file content lsb_release_fields))

  unfoldable pub collect_os_from_file : FilePath → Io OsInfo
  collect_os_from_file p = do
    content ← hiding (read_file p)
    lift (os_info (parse_key_value_file content os_release_fields))

  -- The paths of collectOS
  abbrev pub lsb_path : FilePath
  lsb_path = codes "lsb-release" ∷ codes "etc" ∷ m.root

  abbrev pub hostfs : FilePath
  hostfs = codes "hostfs" ∷ codes "snapd" ∷ codes "lib" ∷ codes "var" ∷ m.root

  abbrev pub os_release_paths : List FilePath
  os_release_paths =
      (codes "os-release" ∷ codes "lib" ∷ codes "usr" ∷ m.root)
      ∷ (codes "os-release" ∷ codes "etc" ∷ m.root)
      ∷ (codes "os-release" ∷ codes "lib" ∷ codes "usr" ∷ hostfs)
      ∷ (codes "os-release" ∷ codes "etc" ∷ hostfs)
      ∷ []

  abbrev pub from_path : Option FilePath → Io OsInfo
  from_path none = raise plain
  from_path (some p) = collect_os_from_file p

  unfoldable pub collect_os_release : Io OsInfo
  collect_os_release = do best ← last_existing os_release_paths none; from_path best

  -- collectOS: lsb-release first in a confined snap
  unfoldable pub or_os_release : Result OsInfo → Io OsInfo
  or_os_release (ok info) = pure info
  or_os_release (err e) = collect_os_release

  unfoldable pub collect_os_in_snap : Io OsInfo
  collect_os_in_snap = do
    there ← attempt (stat lsb_path)
    (if is_ok there
        then (do r ← attempt (collect_os_from_lsb_release lsb_path); or_os_release r)
        else collect_os_release)

  abbrev pub os_or_family : Result OsInfo → OsInfo
  os_or_family (ok info) = info
  os_or_family (err e) = record { family = m.goos; distro = []; version = [] }

  -- collectLang
  unfoldable pub collect_lang : Result Bytes
  collect_lang = elim (m.getenv (codes "LANG")) [
    | none ↦ err plain
    | some lang ↦ ok (before_dot lang (cut b'.' lang))
  ]

  -- collectBios
  abbrev pub dmi : Bytes → FilePath
  dmi n = n ∷ codes "id" ∷ codes "dmi" ∷ codes "class" ∷ codes "sys" ∷ m.root

  unfoldable pub collect_bios : PlatformInfo → Io Bios
  collect_bios pi =
      if not (pi.wsl.subsystem_version == 0)
      then pure (record { vendor = []; version = [] })
      else (do
        vendor ← read_file_log (dmi (codes "bios_vendor"))
        version ← read_file_log (dmi (codes "bios_version"))
        pure (record { vendor = one_line vendor; version = one_line version }))

-- The confinements that count
abbrev confines : Option Bytes → Bool
confines none = false
confines (some c) = same_bytes c (codes "strict") || same_bytes c (codes "devmode")

module _ (tools : SoftwareTools) where
  abbrev confined : Result Bytes → Bool
  confined (err e) = false
  confined (ok content) = confines (tools.confinement content)

  -- isConfinedSnap, of the directory that $SNAP stands for
  unfoldable pub is_confined_snap : Option FilePath → Io Bool
  is_confined_snap none = pure false
  is_confined_snap (some d) = do
    r ← attempt (read_file (codes "snap.yaml" ∷ codes "meta" ∷ d))
    pure (confined r)

module _ (m : Machine) (tools : SoftwareTools) where
  -- collectOS
  unfoldable pub collect_os : Option FilePath → Io OsInfo
  collect_os snap = do
    in_snap ← is_confined_snap tools snap
    if in_snap then collect_os_in_snap m else collect_os_release m

  -- Collect
  unfoldable pub collect_software : Option FilePath → PlatformInfo → Io SoftwareInfo
  collect_software snap pi = do
    os ← attempt (collect_os snap)
    bios ← collect_bios m pi
    pure (record {
      os = os_or_family m os;
      timezone = tools.timezone;
      lang = lang_or_empty (collect_lang m);
      bios = bios;
    })
