-- ===== src/SysInfo/Platform.antt =====
-- insights/internal/collector/sysinfo/platform: platform.go and platform_linux.go.
pub mod Consistent
use ubuntu_insights.Base.{
  Bool, Bytes, List, Option, [], codes, false, if◌then◌else◌, is_nil, none, not, some, true, ℕ,
  ◌&&◌, ◌==◌, ◌∷◌,
}
use ubuntu_insights.Env.{or_plain}
use ubuntu_insights.Server.Path.{contains}
use ubuntu_insights.SysInfo.Machine.{Machine, Output, command, or_empty}
use ubuntu_insights.SysInfo.Text.{fields_from, read_file_log}
use ubuntu_insights.System.World.{
  FilePath, Io, Result, attempt, err, hiding, is_error, is_ok, lift, not_exist, ok, plain, pure,
  status, ◌>>=◌, ◌>>◌,
}

-- WSL, with the fields that are not found left empty; subsystemVersion is 0 outside WSL.
pub record Wsl : Type 0 where
  pub subsystem_version : ℕ
  pub systemd : Bytes
  pub interop : Bytes
  pub version : Bytes
  pub kernel_version : Bytes

pub record Desktop : Type 0 where
  pub desktop_environment : Bytes
  pub session_name : Bytes
  pub session_type : Bytes

pub record PlatformInfo : Type 0 where
  pub wsl : Wsl
  pub desktop : Desktop
  pub pro_attached : Bool

abbrev pub no_wsl : Wsl
no_wsl = record {
  subsystem_version = 0;
  systemd = [];
  interop = [];
  version = [];
  kernel_version = [];
}

abbrev pub no_desktop : Desktop
no_desktop = record { desktop_environment = []; session_name = []; session_type = [] }

-- What packages outside the program give: the [interop] enabled key of an INI file, none if it is
-- no Boolean; the first version that getWSLRegex finds in UTF-16 text, none if the text is not
-- UTF-16, or nothing is found; the connection to the system bus, and the Attached property on it,
-- none if it is no Boolean; is_attached in the JSON of `pro`.
pub record PlatformTools : Type 0 where
  pub interop_setting : FilePath → Io (Option Bool)
  pub wsl_version : Bytes → Option Bytes
  pub connect : Io (Unit {0})
  pub attached_property : Io (Option Bool)
  pub is_attached : Bytes → Option Bool

-- The commands of defaultPlatformOptions
abbrev pub detect_virt_cmd : List Bytes
detect_virt_cmd = codes "systemd-detect-virt" ∷ []

abbrev pub systemd_analyze_cmd : List Bytes
systemd_analyze_cmd = codes "systemd-analyze" ∷ codes "time" ∷ codes "--system" ∷ []

abbrev pub wsl_version_cmd : List Bytes
wsl_version_cmd = codes "wsl.exe" ∷ codes "-v" ∷ []

abbrev pub pro_status_cmd : List Bytes
pro_status_cmd = codes "pro" ∷ codes "api" ∷ codes "u.pro.status.is_attached.v1" ∷ []

-- Whether the kernel's version names WSL 1
abbrev pub version_of : Bytes → ℕ
version_of k = if contains k (codes "-Microsoft (Microsoft@Microsoft.com)") then 1 else 2

-- The kernel's version is the third word.
abbrev pub third : List Bytes → Bytes
third (a ∷ b ∷ c ∷ l) = c
third _ = []

abbrev pub says_systemd : Output → Bool
says_systemd o =
    not (contains o.stderr (codes "System has not been booted with systemd as init system"))
    && is_ok o.status
    && not (is_nil o.stdout)
    && contains o.stdout (codes "Startup finished in")

abbrev pub interop_of : Result (Option Bool) → Bool
interop_of (ok none) = true
interop_of (ok (some b)) = b
interop_of (err e) = is_error e not_exist

abbrev pub or_false : Result Bool → Bool
or_false (ok b) = b
or_false (err e) = false

module _ (m : Machine) where
  -- isWSL
  unfoldable pub is_wsl : Io Bool
  is_wsl = do
    o ← command m detect_virt_cmd
    pure (is_ok o.status && contains o.stdout (codes "wsl"))

  abbrev pub proc_version : FilePath
  proc_version = codes "version" ∷ codes "proc" ∷ m.root

  abbrev pub wsl_conf : FilePath
  wsl_conf = codes "wsl.conf" ∷ codes "etc" ∷ m.root

  -- getWSLSubsystemVersion
  unfoldable pub get_wsl_subsystem_version : Io ℕ
  get_wsl_subsystem_version = do
    wsl ← is_wsl
    if wsl then (do k ← read_file_log proc_version; pure (version_of k)) else pure 0

  -- getKernelVersion
  unfoldable pub get_kernel_version : Io Bytes
  get_kernel_version = do k ← read_file_log proc_version; pure (third (fields_from [] 0 k))

  -- wasSystemdUsed
  unfoldable pub was_systemd_used : Io Bool
  was_systemd_used = do o ← command m systemd_analyze_cmd; pure (says_systemd o)

  -- getDesktop
  unfoldable pub get_desktop : Desktop
  get_desktop = record {
    desktop_environment = or_empty (m.getenv (codes "XDG_CURRENT_DESKTOP"));
    session_name = or_empty (m.getenv (codes "XDG_SESSION_DESKTOP"));
    session_type = or_empty (m.getenv (codes "XDG_SESSION_TYPE"));
  }

module _ (m : Machine) (tools : PlatformTools) where
  -- interopEnabled
  unfoldable pub interop_enabled : Io Bool
  interop_enabled = do
    v ← get_wsl_subsystem_version m
    if v == 0
        then pure false
        else (do r ← attempt (tools.interop_setting (wsl_conf m)); pure (interop_of r))

  abbrev version_found : Output → Bytes
  version_found o = if is_ok o.status then or_empty (tools.wsl_version o.stdout) else []

  -- The end of collectWSL, when interop is enabled
  unfoldable pub with_version : Wsl → Io Wsl
  with_version info = do
    o ← command m wsl_version_cmd
    pure (record info { interop = codes "enabled"; version = version_found o })

  unfoldable pub inside_wsl : ℕ → Io Wsl
  inside_wsl v = do
    kernel ← get_kernel_version m
    used ← was_systemd_used m
    enabled ← interop_enabled
    (let info = record no_wsl {
      subsystem_version = v;
      kernel_version = kernel;
      systemd = if used then codes "used" else codes "not used";
    } in
        if enabled then with_version info else pure (record info { interop = codes "disabled" }))

  -- collectWSL
  unfoldable pub collect_wsl : Io Wsl
  collect_wsl = do v ← get_wsl_subsystem_version m; if v == 0 then pure no_wsl else inside_wsl v

  -- isProAttachedDBus
  unfoldable pub is_pro_attached_dbus : Io Bool
  is_pro_attached_dbus = do
    hiding tools.connect
    v ← hiding tools.attached_property
    lift (or_plain v)

  abbrev cli_answer : Output → Result Bool
  cli_answer o = if is_ok o.status then or_plain (tools.is_attached o.stdout) else err plain

  -- isProAttachedCLI
  unfoldable pub is_pro_attached_cli : Io Bool
  is_pro_attached_cli = do o ← command m pro_status_cmd; lift (cli_answer o)

  -- isProAttached: D-Bus first, then the command
  unfoldable pub fall_back : Result Bool → Io Bool
  fall_back (ok b) = pure b
  fall_back (err e) = do r ← attempt is_pro_attached_cli; pure (or_false r)

  unfoldable pub is_pro_attached : Io Bool
  is_pro_attached = do r ← attempt is_pro_attached_dbus; fall_back r

  -- collectPlatform
  unfoldable pub collect_platform : Io PlatformInfo
  collect_platform = do
    wsl ← collect_wsl
    attached ← is_pro_attached
    pure (record {
      wsl = wsl;
      desktop = if wsl.subsystem_version == 0 then get_desktop m else no_desktop;
      pro_attached = attached;
    })
