-- ===== src/SysInfo/Devices.antt =====
-- insights/internal/collector/sysinfo/hardware/hardware_linux.go: the product, the graphics cards
-- and the accelerators that sysfs lists.
use ubuntu_insights.Base.{
  Bool, Bytes, List, [], codes, false, if◌then◌else◌, is_nil, leb, not, true, ◌&&◌, ◌==◌, ◌∷◌,
}
use ubuntu_insights.SysInfo.Machine.{Machine}
use ubuntu_insights.SysInfo.Platform.{PlatformInfo}
use ubuntu_insights.SysInfo.Text.{one_line, read_file_log}
use ubuntu_insights.System.Files.{read_dir}
use ubuntu_insights.System.World.{
  FilePath, Io, Node, Result, attempt, err, hiding, is_error, lift, not_exist, ok, plain, pure,
  raise, ◌>>=◌,
}

pub record Product : Type 0 where
  pub family : Bytes
  pub name : Bytes
  pub vendor : Bytes

-- gpu, and accelerator, whose type a gpu leaves empty
pub record Device : Type 0 where
  pub name : Bytes
  pub device : Bytes
  pub vendor : Bytes
  pub driver : Bytes
  pub type_ : Bytes

-- filepath.EvalSymlinks and os.Readlink
pub record Links : Type 0 where
  pub eval_symlinks : FilePath → Io FilePath
  pub read_link : FilePath → Io FilePath

abbrev pub no_product : Product
no_product = record { family = []; name = []; vendor = [] }

abbrev last_element : FilePath → Bytes
last_element [] = codes "/"
last_element (n ∷ p) = n

-- gpuSymlinkRegex and accelSymlinkRegex: the prefix, and one digit or more
unfoldable pub are_digits : Bytes → Bool
are_digits [] = true
are_digits (c ∷ s) = leb b'0' c && leb c b'9' && are_digits s

unfoldable pub is_numbered : Bytes → Bytes → Bool
is_numbered [] s = not (is_nil s) && are_digits s
is_numbered (p ∷ prefix) [] = false
is_numbered (p ∷ prefix) (c ∷ s) = (p == c) && is_numbered prefix s

unfoldable pub on_wsl : PlatformInfo → Bool
on_wsl pi = not (pi.wsl.subsystem_version == 0)

abbrev driver_of : Result FilePath → Bytes
driver_of (ok p) = last_element p
driver_of (err e) = []

-- What collectGPU and collectAccelerator read in a device's directory; only an accelerator has a
-- class.
unfoldable pub read_class : Bool → FilePath → Io Bytes
read_class is_accelerator d = if is_accelerator then read_file_log (codes "class" ∷ d) else pure []

unfoldable pub read_device : Links → Bool → FilePath → Io Device
read_device links is_accelerator d = do
  vendor ← read_file_log (codes "vendor" ∷ d)
  name ← read_file_log (codes "label" ∷ d)
  device ← read_file_log (codes "device" ∷ d)
  class ← read_class is_accelerator d
  driver ← attempt (links.read_link (codes "driver" ∷ d))
  pure (record {
    name = one_line name;
    device = one_line device;
    vendor = one_line vendor;
    driver = driver_of driver;
    type_ = one_line class;
  })

-- collectGPU and collectAccelerator
unfoldable pub collect_device : Links → Bool → FilePath → Io Device
collect_device links is_accelerator p = do
  link ← hiding (links.eval_symlinks p)
  d ← hiding (links.eval_symlinks (codes "device" ∷ link))
  read_device links is_accelerator d

abbrev with_device : Result Device → List Device → List Device
with_device (ok d) ds = d ∷ ds
with_device (err e) ds = ds

-- The loops of collectGPUs and of collectAccelerators; a device that cannot be read is passed over.
unfoldable pub collect_devices :
    Links → Bool → Bytes → FilePath → List (Bytes × Node) → Io (List Device)
collect_devices links is_accelerator prefix d [] = pure []
collect_devices links is_accelerator prefix d ((n, node) ∷ entries) =
    if is_numbered prefix n
    then (do
      r ← attempt (collect_device links is_accelerator (n ∷ d))
      later ← collect_devices links is_accelerator prefix d entries
      pure (with_device r later))
    else collect_devices links is_accelerator prefix d entries

abbrev some_device : List Device → Result (List Device)
some_device [] = err plain
some_device (d ∷ ds) = ok (d ∷ ds)

abbrev or_no_accelerators :
    (List (Bytes × Node) → Io (List Device)) → Result (List (Bytes × Node)) → Io (List Device)
or_no_accelerators next (ok entries) = next entries
or_no_accelerators next (err e) = if is_error e not_exist then pure [] else raise plain

module _ (m : Machine) where
  abbrev dmi_id : Bytes → FilePath
  dmi_id n = n ∷ codes "id" ∷ codes "dmi" ∷ codes "class" ∷ codes "sys" ∷ m.root

  abbrev sys_class : Bytes → FilePath
  sys_class n = n ∷ codes "class" ∷ codes "sys" ∷ m.root

  -- collectProduct
  unfoldable pub collect_product : PlatformInfo → Io Product
  collect_product pi = if on_wsl pi then pure no_product else (do
    vendor ← read_file_log (dmi_id (codes "sys_vendor"))
    name ← read_file_log (dmi_id (codes "product_name"))
    family ← read_file_log (dmi_id (codes "product_family"))
    pure (record { family = one_line family; name = one_line name; vendor = one_line vendor }))

  -- collectGPUs
  unfoldable pub collect_gpus : Links → PlatformInfo → Io (List Device)
  collect_gpus links pi = if on_wsl pi then pure [] else (do
    entries ← hiding (read_dir (sys_class (codes "drm")))
    found ← collect_devices links false (codes "card") (sys_class (codes "drm")) entries
    lift (some_device found))

  -- collectAccelerators
  unfoldable pub collect_accelerators : Links → Io (List Device)
  collect_accelerators links = do
    r ← attempt (read_dir (sys_class (codes "accel")))
    or_no_accelerators (collect_devices links true (codes "accel") (sys_class (codes "accel"))) r
