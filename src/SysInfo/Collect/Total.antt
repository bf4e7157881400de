-- ===== src/SysInfo/Collect/Total.antt =====
-- Collect of the system information as a whole.
use ubuntu_insights.Base.{Bool-cases, [], false, inl, inr, refl, true, ◌≡◌, ◌≤◌, ◌⊎◌}
use ubuntu_insights.Server.Path.{clean}
use ubuntu_insights.SysInfo.Collect.{
  HardwareInfo, SysInfo, Tools, collect_hardware, collect_screens, collect_sys_info, or_else,
}
use ubuntu_insights.SysInfo.Devices.{
  collect_accelerators, collect_gpus, collect_product, no_product, on_wsl,
}
use ubuntu_insights.SysInfo.Hardware.{collect_cpu, collect_disks}
use ubuntu_insights.SysInfo.Hardware.Disks.{HasDiskTypes, collect_disks-height, height}
use ubuntu_insights.SysInfo.Machine.{Machine}
use ubuntu_insights.SysInfo.Memory.{collect_memory}
use ubuntu_insights.SysInfo.Platform.{PlatformInfo, collect_platform}
use ubuntu_insights.SysInfo.Platform.Consistent.{IsEither, Returns-platform}
use ubuntu_insights.SysInfo.Software.Clean.{IsClean, Returns-software}
use ubuntu_insights.System.Returns.{Returns}
use ubuntu_insights.System.World.{World, ok}

-- What holds of the hardware: the disks go no deeper than eleven levels and are of the types that
-- are wanted, and inside WSL there is no product, no graphics card and no screen.
abbrev pub IsSound : PlatformInfo → HardwareInfo → Type 0
IsSound pl h =
    (height h.blks ≤ 11)
    × HasDiskTypes h.blks
    × ((on_wsl pl ≡ false) ⊎ ((h.product ≡ no_product) × (h.gpus ≡ []) × (h.screens ≡ [])))

module _ (m : Machine) (tools : Tools) where
  product_on_wsl :
      (pl : PlatformInfo) (w : World)
      → on_wsl pl ≡ true
      → or_else no_product (collect_product m pl w).0 ≡ no_product
  unfolding collect_product
  product_on_wsl pl w e = rw e refl

  gpus_on_wsl :
      (pl : PlatformInfo) (w : World)
      → on_wsl pl ≡ true
      → or_else [] (collect_gpus m tools.links pl w).0 ≡ []
  unfolding collect_gpus
  gpus_on_wsl pl w e = rw e refl

  screens_on_wsl :
      (pl : PlatformInfo) (w : World)
      → on_wsl pl ≡ true
      → or_else [] (collect_screens m tools pl w).0 ≡ []
  unfolding collect_screens
  screens_on_wsl pl w e = rw e refl

  Returns-hardware : (pl : PlatformInfo) → Returns (IsSound pl) (collect_hardware m tools pl)
  unfolding collect_hardware
  Returns-hardware pl = record {
    at = λ w.
        let w1 = (collect_product m pl w).1 in
        let w2 = (collect_cpu m tools.hardware w1).1 in
        let w3 = (collect_gpus m tools.links pl w2).1 in
        let w4 = (collect_accelerators m tools.links w3).1 in
        let w5 = (collect_memory m w4).1 in
        let w6 = (collect_disks tools.hardware m w5).1 in
        let (h, t) = collect_disks-height tools.hardware m w5 in
        (
          _,
          refl,
          (
            h,
            t,
            elim (Bool-cases (on_wsl pl)) [
              | inr e ↦ inl e
              | inl e ↦ inr (product_on_wsl pl w e, gpus_on_wsl pl w2 e, screens_on_wsl pl w6 e)
            ],
          ),
        );
  }

  -- Whatever the commands, the files and the environment give, and on any schedule of failing calls:
  -- Collect of the system information returns without an error. The platform is outside WSL, with
  -- nothing of WSL and the desktop that the three variables of the environment name, or inside it,
  -- with no desktop. The family of the system is the platform's, the language has no dot, and the
  -- vendor and the version of the BIOS have no line break. The disks go no deeper than eleven levels
  -- and are of the wanted types, and inside WSL no product, graphics card or screen is reported.
  pub collect_sys_info-IsSound :
      (w : World)
      → (i : SysInfo) × ((collect_sys_info m tools w).0 ≡ ok i)
        × IsEither m i.platform
        × IsClean m i.software
        × IsSound i.platform i.hardware
  unfolding collect_sys_info
  collect_sys_info-IsSound w =
      let (pl, pl_ok, either) = (Returns-platform m tools.platform).at w in
      let w1 = (collect_platform m tools.platform w).1 in
      let (hw, hw_ok, sound) = (Returns-hardware pl).at w1 in
      let w2 = (collect_hardware m tools pl w1).1 in
      let (sw, sw_ok, clean) = (Returns-software m tools.software tools.snap pl).at w2 in
      (
        record { hardware = hw; software = sw; platform = pl },
        rw (pl_ok, hw_ok, sw_ok) refl,
        either,
        clean,
        sound,
      )
