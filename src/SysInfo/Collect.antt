-- ===== src/SysInfo/Collect.antt =====
-- Collect of insights/internal/collector/sysinfo/hardware/hardware.go and of
-- insights/internal/collector/sysinfo/sysinfo.go. What finds the screens, Wayland or xrandr, is a
-- parameter.
pub mod Total
use ubuntu_insights.Base.{Bool, Bytes, List, Option, [], false, if◌then◌else◌, not, ◌&&◌}
use ubuntu_insights.Base.Int.{pos, ℤ}
use ubuntu_insights.SysInfo.Devices.{
  Device, Links, Product, collect_accelerators, collect_gpus, collect_product, no_product, on_wsl,
}
use ubuntu_insights.SysInfo.Hardware.{
  Cpu, DiskList, HardwareTools, collect_cpu, collect_disks, no_disks,
}
use ubuntu_insights.SysInfo.Machine.{Machine}
use ubuntu_insights.SysInfo.Memory.{collect_memory}
use ubuntu_insights.SysInfo.Platform.{
  PlatformInfo, PlatformTools, collect_platform, no_desktop, no_wsl,
}
use ubuntu_insights.SysInfo.Software.{SoftwareInfo, SoftwareTools, collect_software}
use ubuntu_insights.System.World.{
  FilePath, Io, Result, attempt, err, is_ok, lift, ok, plain, pure, ◌>>=◌, ◌>>◌,
}

pub record Screen : Type 0 where
  pub physical_resolution : Bytes
  pub size : Bytes
  pub resolution : Bytes
  pub refresh_rate : Bytes

pub record HardwareInfo : Type 0 where
  pub product : Product
  pub cpu : Cpu
  pub gpus : List Device
  pub accelerators : List Device
  pub mem : ℤ
  pub blks : DiskList
  pub screens : List Screen

pub record SysInfo : Type 0 where
  pub hardware : HardwareInfo
  pub software : SoftwareInfo
  pub platform : PlatformInfo

-- Everything that the collectors take from elsewhere
pub record Tools : Type 0 where
  pub platform : PlatformTools
  pub software : SoftwareTools
  pub hardware : HardwareTools
  pub links : Links
  pub snap : Option FilePath
  pub displays : Io (List Screen)

abbrev pub or_else {ℓ} : {A : Type ℓ} → A → Result A → A
or_else d (ok a) = a
or_else d (err e) = d

abbrev pub only_arch : Bytes → Cpu
only_arch arch = record {
  name = [];
  vendor = [];
  arch = arch;
  cpus = 0;
  sockets = 0;
  cores = 0;
  threads = 0;
}

abbrev pub no_platform : PlatformInfo
no_platform = record { wsl = no_wsl; desktop = no_desktop; pro_attached = false }

-- The end of Collect: an error if all three collectors failed; what the hardware and the software
-- collector give with an error is passed on
abbrev pub gathered :
    PlatformInfo
    → Bool
    → Result HardwareInfo
    → Result SoftwareInfo
    → HardwareInfo
    → SoftwareInfo
    → Result SysInfo
gathered pl failed hw sw no_hw no_sw =
    if failed && not (is_ok hw) && not (is_ok sw)
    then err plain
    else ok (record { hardware = or_else no_hw hw; software = or_else no_sw sw; platform = pl })

abbrev pub no_hardware : HardwareInfo
no_hardware = record {
  product = no_product;
  cpu = only_arch [];
  gpus = [];
  accelerators = [];
  mem = pos 0;
  blks = no_disks;
  screens = [];
}

abbrev pub no_software : SoftwareInfo
no_software = record {
  os = record { family = []; distro = []; version = [] };
  timezone = [];
  lang = [];
  bios = record { vendor = []; version = [] };
}

module _ (m : Machine) (tools : Tools) where
  unfoldable pub collect_screens : PlatformInfo → Io (List Screen)
  collect_screens pi = if on_wsl pi then pure [] else tools.displays

  -- Collect of the hardware
  unfoldable pub collect_hardware : PlatformInfo → Io HardwareInfo
  collect_hardware pi = do
    product ← attempt (collect_product m pi)
    cpu ← attempt (collect_cpu m tools.hardware)
    gpus ← attempt (collect_gpus m tools.links pi)
    accelerators ← attempt (collect_accelerators m tools.links)
    mem ← attempt (collect_memory m)
    blks ← attempt (collect_disks tools.hardware m)
    screens ← attempt (collect_screens pi)
    pure (record {
      product = or_else no_product product;
      cpu = or_else (only_arch m.goarch) cpu;
      gpus = or_else [] gpus;
      accelerators = or_else [] accelerators;
      mem = or_else (pos 0) mem;
      blks = or_else no_disks blks;
      screens = or_else [] screens;
    })

  -- Collect
  unfoldable pub collect_sys_info : Io SysInfo
  collect_sys_info = do
    pl ← attempt (collect_platform m tools.platform)
    hw ← attempt (collect_hardware (or_else no_platform pl))
    sw ← attempt (collect_software m tools.software tools.snap (or_else no_platform pl))
    lift (gathered (or_else no_platform pl) (not (is_ok pl)) hw sw no_hardware no_software)
