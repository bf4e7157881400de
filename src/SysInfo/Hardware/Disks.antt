-- ===== src/SysInfo/Hardware/Disks.antt =====
-- What populateBlkInfo makes of any output of lsblk.
use ubuntu_insights.Base.{
  Bool, Bool-cases, Bytes, Option, arith, inl, inr, max, none, not, some, suc, true, zero, ℕ, ◌&&◌,
  ◌≡◌, ◌≤◌,
}
use ubuntu_insights.SysInfo.Collect.{or_else}
use ubuntu_insights.SysInfo.Hardware.{
  DiskList, HardwareTools, LsblkEntries, a_block, a_disk, collect_disks, disks_result, has_disks,
  is_disk_type, lsblk_cmd, no_blocks, no_disks, populate_blk_info,
}
use ubuntu_insights.SysInfo.Machine.{Machine, Output}
use ubuntu_insights.System.World.{Result, World, err, is_ok, ok, plain}

-- How deep the children go.
abbrev pub height : DiskList → ℕ
height no_disks = 0
height (a_disk size type_ children rest) = max (suc (height children)) (height rest)

-- Every type, at any depth, is one of the four.
abbrev pub HasDiskTypes : DiskList → Type 0
HasDiskTypes no_disks = Unit
HasDiskTypes (a_disk size type_ children rest) =
    (is_disk_type type_ ≡ true) × HasDiskTypes children × HasDiskTypes rest

both_true : (a b : Bool) → (a && b) ≡ true → b ≡ true
both_true a b h = ground arith

-- The disks of any output of lsblk go no deeper than the depth allows, and are all of a type that
-- is wanted.
pub populate_blk_info-height :
    (size_of : Bytes → ℕ) (levels : ℕ) (entries : LsblkEntries)
    → (height (populate_blk_info size_of levels entries) ≤ levels)
      × HasDiskTypes (populate_blk_info size_of levels entries)
unfolding populate_blk_info
populate_blk_info-height size_of zero entries = (omega arith, tt)
populate_blk_info-height size_of (suc depth) no_blocks = (omega arith, tt)
populate_blk_info-height size_of (suc depth) (a_block size type_ removable children rest) =
    let (h, t) = populate_blk_info-height size_of (suc depth) rest in
    let (h', t') = populate_blk_info-height size_of depth children in
    elim (Bool-cases (not removable && is_disk_type type_)) [
      | inl e ↦
          rw e (omega (arith, h, h'), (both_true (not removable) (is_disk_type type_) e, t', t))
      | inr e ↦ rw e (h, t)
    ]

-- The same of collectDisks.
abbrev HasBoundedDisks : Result DiskList → Type 0
HasBoundedDisks (err e) = Unit
HasBoundedDisks (ok disks) = (height disks ≤ 11) × HasDiskTypes disks

has_disks-HasBoundedDisks :
    (d : DiskList) → (height d ≤ 11) × HasDiskTypes d → HasBoundedDisks (has_disks d)
has_disks-HasBoundedDisks no_disks h = tt
has_disks-HasBoundedDisks (a_disk size type_ children rest) h = h

module _ (tools : HardwareTools) where
  disks_result-HasBoundedDisks : (o : Output) → HasBoundedDisks (disks_result tools o)
  disks_result-HasBoundedDisks o = elim (Bool-cases (is_ok o.status)) [
    | inr e ↦ rw e tt
    | inl e ↦ rw e (decoded (tools.lsblk o.stdout))
  ]
    where
      decoded :
          (entries : Option LsblkEntries)
          → HasBoundedDisks (elim entries [
            | none ↦ err plain
            | some l ↦ has_disks (populate_blk_info tools.size_of 11 l)
          ])
      decoded none = tt
      decoded (some l) =
          has_disks-HasBoundedDisks (populate_blk_info tools.size_of 11 l)
            (populate_blk_info-height tools.size_of 11 l)

  pub collect_disks-height :
      (m : Machine) (w : World)
      → let disks = or_else no_disks (collect_disks tools m w).0 in
        (height disks ≤ 11) × HasDiskTypes disks
  unfolding collect_disks
  collect_disks-height m w =
      or_none (disks_result tools (m.run lsblk_cmd w).0)
        (disks_result-HasBoundedDisks (m.run lsblk_cmd w).0)
    where
      or_none :
          (r : Result DiskList)
          → HasBoundedDisks r
          → (height (or_else no_disks r) ≤ 11) × HasDiskTypes (or_else no_disks r)
      or_none (ok d) h = h
      or_none (err e) h = (omega arith, tt)
