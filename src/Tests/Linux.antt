-- ===== src/Tests/Linux.antt =====
-- Runs of the collection of system information.
use ubuntu_insights.Base.{
  Bytes, List, [], bytes_dec, codes, false, if◌then◌else◌, ite, none, refl, same_bytes, some, ◌++◌,
  ◌∷◌, ◌≡◌,
}
use ubuntu_insights.Base.Dict.{Dict, lookup}
use ubuntu_insights.Server.Path.{has_prefix}
use ubuntu_insights.Server.Space.{is_blank_from, space_width}
use ubuntu_insights.SysInfo.Collect.{SysInfo, Tools, collect_sys_info}
use ubuntu_insights.SysInfo.Collect.Total.{IsSound, collect_sys_info-IsSound}
use ubuntu_insights.SysInfo.Hardware.{a_block, no_blocks, no_entries}
use ubuntu_insights.SysInfo.Machine.{Machine, Output}
use ubuntu_insights.SysInfo.Platform.Consistent.{IsEither}
use ubuntu_insights.SysInfo.Software.{key_value, parse_key_value_file}
use ubuntu_insights.SysInfo.Software.Clean.{IsClean}
use ubuntu_insights.SysInfo.Software.KeyValue.{parse_key_value_file-last}
use ubuntu_insights.SysInfo.Text.{
  contains_byte, cut, trim_left_from, trim_right, trim_space, unquote_left, unquote_right,
}
use ubuntu_insights.System.World.{Tree, done, err, file, ok, plain, pure, raise}
use ubuntu_insights.Tests.Setting.{world_of}

-- A machine outside WSL, on which lsblk works and every other command fails.
abbrev output_of : Bytes → Output
output_of cmd =
    if same_bytes cmd (codes "lsblk")
    then record { stdout = codes "[]"; stderr = []; status = done }
    else record { stdout = codes "none"; stderr = []; status = err plain }

abbrev first_word : List Bytes → Bytes
first_word [] = []
first_word (w ∷ ws) = w

abbrev laptop : Machine
laptop = record {
  root = [];
  goos = codes "linux";
  goarch = codes "amd64";
  run = λ args w. (output_of (first_word args), w);
  getenv = λ k. if same_bytes k (codes "LANG") then some (codes "de_DE.UTF-8") else none;
}

abbrev tools_of_laptop : Tools
tools_of_laptop = record {
  platform = record {
    interop_setting = λ p. pure none;
    wsl_version = λ b. none;
    connect = raise plain;
    attached_property = pure none;
    is_attached = λ b. none;
  };
  software = record { timezone = codes "CET"; confinement = λ b. none };
  hardware = record {
    lscpu = λ b. some no_entries;
    lsblk = λ b. some (
        a_block (codes "1K") (codes "disk") false
          (a_block (codes "1K") (codes "part") false no_blocks no_blocks) no_blocks);
    size_of = λ b. 1;
  };
  links = record { eval_symlinks = λ p. pure p; read_link = λ p. raise plain };
  snap = none;
  displays = pure [];
}

abbrev laptop_tree : Tree
laptop_tree =
    (codes "os-release" ∷ codes "etc" ∷ [], file (codes "ID=ubuntu"))
    ∷ (codes "meminfo" ∷ codes "proc" ∷ [], file (codes "MemTotal:       2048 kB"))
    ∷ []

collect_sys_info-IsSound_example :
    (i : SysInfo) × ((collect_sys_info laptop tools_of_laptop (world_of laptop_tree)).0 ≡ ok i)
    × IsEither laptop i.platform
    × IsClean laptop i.software
    × IsSound i.platform i.hardware
collect_sys_info-IsSound_example =
    collect_sys_info-IsSound laptop tools_of_laptop (world_of laptop_tree)

-- A file whose last line sets the version again.
abbrev release_keys : Dict Bytes Bytes
release_keys = (codes "ID", codes "Distribution ID") ∷ (codes "VERSION_ID", codes "Release") ∷ []

abbrev two_lines : Bytes
two_lines = codes "VERSION_ID=22.04\nID=ubuntu"

abbrev version_line : Bytes
version_line = codes "VERSION_ID=\"24.04\""

key_value_of_line : key_value version_line ≡ some (codes "VERSION_ID", codes "24.04")
unfolding bytes_dec cut has_prefix is_blank_from key_value space_width trim_left_from trim_right
    trim_space unquote_left unquote_right
key_value_of_line = refl

one_version_line : contains_byte 10 version_line ≡ false
unfolding contains_byte
one_version_line = refl

release_is_kept : lookup bytes_dec (codes "VERSION_ID") release_keys ≡ some (codes "Release")
unfolding bytes_dec lookup
release_is_kept = refl

parse_key_value_file-last_example :
    lookup bytes_dec
      (codes "Release")
      (parse_key_value_file (two_lines ++ (10 ∷ version_line)) release_keys)
    ≡ ite
        (bytes_dec (codes "Release") (codes "Release"))
        (some (codes "24.04"))
        (lookup bytes_dec (codes "Release") (parse_key_value_file two_lines release_keys))
parse_key_value_file-last_example =
    parse_key_value_file-last release_keys two_lines version_line (codes "VERSION_ID")
      (codes "24.04") (codes "Release") (codes "Release") one_version_line key_value_of_line
      release_is_kept
