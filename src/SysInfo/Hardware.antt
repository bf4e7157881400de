-- ===== src/SysInfo/Hardware.antt =====
-- insights/internal/collector/sysinfo/hardware: the processor and the disks of
-- hardware_linux.go.
pub mod Disks
use ubuntu_insights.Base.{
  Bool, Bytes, List, Option, [], bytes_dec, codes, if◌then◌else◌, ltb, none, not, some, suc, zero,
  ℕ, ◌%◌, ◌&&◌, ◌*◌, ◌^◌, ◌∷◌,
}
use ubuntu_insights.Base.Decimal.{parse_digits}
use ubuntu_insights.Base.Dict.{Dict, insert, lookup}
use ubuntu_insights.Client.Commands.{is_word, to_lower}
use ubuntu_insights.SysInfo.Machine.{Machine, Output, command, or_empty}
use ubuntu_insights.System.World.{Io, Result, err, is_ok, lift, ok, plain, status, ◌>>=◌, ◌>>◌}

-- The entries of lscpu's JSON: an entry's field, its data, its children, and the entries after it
pub data LscpuEntries : Type 0 where
  no_entries : LscpuEntries
  an_entry : Bytes → Bytes → LscpuEntries → LscpuEntries → LscpuEntries

pub record Cpu : Type 0 where
  pub name : Bytes
  pub vendor : Bytes
  pub arch : Bytes
  pub cpus : ℕ
  pub sockets : ℕ
  pub cores : ℕ
  pub threads : ℕ

-- usedCPUFields
abbrev used_cpu_fields : List Bytes
used_cpu_fields =
    codes "CPU(s):"
    ∷ codes "Socket(s):"
    ∷ codes "Core(s) per socket:"
    ∷ codes "Thread(s) per core:"
    ∷ codes "Architecture:"
    ∷ codes "Vendor ID:"
    ∷ codes "Model name:"
    ∷ []

abbrev store_cpu_field : Bytes → Bytes → Dict Bytes Bytes → Dict Bytes Bytes
store_cpu_field field value info =
    if is_word field used_cpu_fields then insert bytes_dec field value info else info

-- populateCPUInfo
unfoldable pub populate_cpu_info : LscpuEntries → Dict Bytes Bytes → Dict Bytes Bytes
populate_cpu_info no_entries info = info
populate_cpu_info (an_entry field value children rest) info =
    populate_cpu_info rest (populate_cpu_info children (store_cpu_field field value info))

-- strconv.ParseUint of data[k], and what stands for it if that is no number
abbrev below_2_64 : ℕ → Option ℕ → ℕ
below_2_64 other none = other
below_2_64 other (some n) = if ltb n (2 ^ 64) then n else other

unfoldable pub count_of : Bytes → Dict Bytes Bytes → ℕ → ℕ
count_of k info other = below_2_64 other (parse_digits (or_empty (lookup bytes_dec k info)))

abbrev arch_or : Bytes → Option Bytes → Bytes
arch_or arch none = arch
arch_or arch (some a) = a

-- collectCPU from its data on; the product is a uint64
unfoldable pub cpu_of : Bytes → Dict Bytes Bytes → Cpu
cpu_of arch info =
    let sockets = count_of (codes "Socket(s):") info 0 in
    let cores = count_of (codes "Core(s) per socket:") info 0 in
    let threads = count_of (codes "Thread(s) per core:") info 0 in
    record {
      name = or_empty (lookup bytes_dec (codes "Model name:") info);
      vendor = or_empty (lookup bytes_dec (codes "Vendor ID:") info);
      arch = arch_or arch (lookup bytes_dec (codes "Architecture:") info);
      cpus = count_of (codes "CPU(s):") info (threads * cores * sockets % 2 ^ 64);
      sockets = sockets;
      cores = cores;
      threads = threads;
    }

-- The entries of lsblk's JSON: size, type, whether it is removable, its children, and the entries
-- after it
pub data LsblkEntries : Type 0 where
  no_blocks : LsblkEntries
  a_block : Bytes → Bytes → Bool → LsblkEntries → LsblkEntries → LsblkEntries

pub data DiskList : Type 0 where
  no_disks : DiskList
  a_disk : ℕ → Bytes → DiskList → DiskList → DiskList

unfoldable pub is_disk_type : Bytes → Bool
is_disk_type t =
    is_word (to_lower t) (codes "disk" ∷ codes "crypt" ∷ codes "lvm" ∷ codes "part" ∷ [])

-- populateBlkInfo; the first argument is depth + 1, and `size_of` is getSize, on floating point
unfoldable pub populate_blk_info : (Bytes → ℕ) → ℕ → LsblkEntries → DiskList
populate_blk_info size_of zero entries = no_disks
populate_blk_info size_of (suc depth) no_blocks = no_disks
populate_blk_info size_of (suc depth) (a_block size type_ removable children rest) =
    let later = populate_blk_info size_of (suc depth) rest in
    let inner = populate_blk_info size_of depth children in
    if not removable && is_disk_type type_ then a_disk (size_of size) type_ inner later else later

-- The decoding of the commands' JSON, and the sizes of blocks
pub record HardwareTools : Type 0 where
  pub lscpu : Bytes → Option LscpuEntries
  pub lsblk : Bytes → Option LsblkEntries
  pub size_of : Bytes → ℕ

abbrev pub lscpu_cmd : List Bytes
lscpu_cmd = codes "lscpu" ∷ codes "-J" ∷ []

abbrev pub lsblk_cmd : List Bytes
lsblk_cmd =
    codes "lsblk" ∷ codes "-o" ∷ codes "NAME,SIZE,TYPE,RM" ∷ codes "--tree" ∷ codes "-J" ∷ []

abbrev pub has_disks : DiskList → Result DiskList
has_disks no_disks = err plain
has_disks (a_disk size type_ children rest) = ok (a_disk size type_ children rest)

module _ (m : Machine) (tools : HardwareTools) where
  abbrev cpu_result : Output → Result Cpu
  cpu_result o = if not (is_ok o.status) then err plain else elim (tools.lscpu o.stdout) [
    | none ↦ err plain
    | some entries ↦ ok (cpu_of m.goarch (populate_cpu_info entries []))
  ]

  -- collectCPU
  unfoldable pub collect_cpu : Io Cpu
  collect_cpu = do o ← command m lscpu_cmd; lift (cpu_result o)

module _ (tools : HardwareTools) where
  abbrev pub disks_result : Output → Result DiskList
  disks_result o = if not (is_ok o.status) then err plain else elim (tools.lsblk o.stdout) [
    | none ↦ err plain
    | some entries ↦ has_disks (populate_blk_info tools.size_of 11 entries)
  ]

  -- collectDisks
  unfoldable pub collect_disks : Machine → Io DiskList
  collect_disks m = do o ← command m lsblk_cmd; lift (disks_result o)
