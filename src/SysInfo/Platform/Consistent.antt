-- ===== src/SysInfo/Platform/Consistent.antt =====
-- What collectPlatform returns.
use ubuntu_insights.Base.{
  Bool, Bytes, [], arith, codes, false, if◌then◌else◌, inl, inr, refl, true, ℕ, ◌==◌, ◌≡◌, ◌⊎◌,
}
use ubuntu_insights.SysInfo.Machine.{Machine, or_empty}
use ubuntu_insights.SysInfo.Platform.{
  PlatformInfo, PlatformTools, Wsl, collect_platform, collect_wsl, fall_back, get_desktop,
  get_kernel_version, get_wsl_subsystem_version, inside_wsl, interop_enabled, is_pro_attached,
  is_pro_attached_dbus, is_wsl, no_desktop, no_wsl, proc_version, version_of, was_systemd_used,
  with_version,
}
use ubuntu_insights.SysInfo.Text.{Returns-read_file_log}
use ubuntu_insights.System.Returns.{Anything, Returns, Returns-bind, Returns-if, Returns-pure}
use ubuntu_insights.System.World.{Result, World, err, ok}

abbrev IsVersion : ℕ → Type 0
IsVersion v = (v ≡ 0) ⊎ (v ≡ 1) ⊎ (v ≡ 2)

-- What the fields of a WSL say of one another.
abbrev pub IsInside : Wsl → Type 0
IsInside i =
    ((i.subsystem_version ≡ 1) ⊎ (i.subsystem_version ≡ 2))
    × ((i.systemd ≡ codes "used") ⊎ (i.systemd ≡ codes "not used"))
    × ((i.interop ≡ codes "enabled") ⊎ ((i.interop ≡ codes "disabled") × (i.version ≡ [])))

abbrev IsWsl : Wsl → Type 0
IsWsl i = (i ≡ no_wsl) ⊎ IsInside i

-- Outside WSL there is the desktop of the environment's variables and nothing of WSL; inside it is
-- the other way round.
abbrev pub IsEither : Machine → PlatformInfo → Type 0
IsEither m i =
    ((i.wsl ≡ no_wsl)
      × (i.desktop.desktop_environment ≡ or_empty (m.getenv (codes "XDG_CURRENT_DESKTOP")))
      × (i.desktop.session_name ≡ or_empty (m.getenv (codes "XDG_SESSION_DESKTOP")))
      × (i.desktop.session_type ≡ or_empty (m.getenv (codes "XDG_SESSION_TYPE"))))
    ⊎ (IsInside i.wsl × (i.desktop ≡ no_desktop))

module _ (m : Machine) where
  Returns-is_wsl : Returns Anything (is_wsl m)
  unfolding is_wsl
  Returns-is_wsl = record { at = λ w. (_, refl, tt) }

  version_of-IsVersion : (k : Bytes) → IsVersion (version_of k)
  version_of-IsVersion k = ground arith

  Returns-IsVersion : Returns IsVersion (get_wsl_subsystem_version m)
  unfolding get_wsl_subsystem_version
  Returns-IsVersion = Returns-bind _ _ Returns-is_wsl (λ wsl _.
      Returns-if wsl _ _
        (λ _.
          Returns-bind _ _ (Returns-read_file_log (proc_version m))
            (λ k _. Returns-pure (version_of k) (version_of-IsVersion k)))
        (λ _. Returns-pure 0 (inl refl)))

module _ (m : Machine) (tools : PlatformTools) where
  Returns-interop : Returns Anything (interop_enabled m tools)
  unfolding interop_enabled
  Returns-interop = Returns-bind _ _ (Returns-IsVersion m) (λ v _.
      Returns-if (v == 0) _ _ (λ _. Returns-pure false tt)
        (λ _. record { at = λ w. (_, refl, tt) }))

  Returns-kernel : Returns Anything (get_kernel_version m)
  unfolding get_kernel_version
  Returns-kernel =
      Returns-bind _ _ (Returns-read_file_log (proc_version m)) (λ k _. Returns-pure _ tt)

  Returns-systemd : Returns Anything (was_systemd_used m)
  unfolding was_systemd_used
  Returns-systemd = record { at = λ w. (_, refl, tt) }

  systemd_cases :
      (used : Bool)
      → ((if used then codes "used" else codes "not used") ≡ codes "used")
        ⊎ ((if used then codes "used" else codes "not used") ≡ codes "not used")
  systemd_cases true = inl refl
  systemd_cases false = inr refl

  Returns-inside : (v : ℕ) → (v ≡ 1) ⊎ (v ≡ 2) → Returns IsWsl (inside_wsl m tools v)
  unfolding inside_wsl with_version
  Returns-inside v h = Returns-bind _ _ Returns-kernel (λ kernel _.
      Returns-bind _ _ Returns-systemd (λ used _. Returns-bind _ _ Returns-interop (λ enabled _.
        Returns-if enabled _ _
          (λ _. record { at = λ w. (_, refl, inr (h, systemd_cases used, inl refl)) })
          (λ _. Returns-pure _ (inr (h, systemd_cases used, inr (refl, refl)))))))

  not_zero : (v : ℕ) → IsVersion v → (v == 0) ≡ false → (v ≡ 1) ⊎ (v ≡ 2)
  not_zero v (inl e) h = absurd (ground arith)
  not_zero v (inr e) h = e

  Returns-IsWsl : Returns IsWsl (collect_wsl m tools)
  unfolding collect_wsl
  Returns-IsWsl = Returns-bind _ _ (Returns-IsVersion m) (λ v h.
      Returns-if (v == 0) _ _ (λ _. Returns-pure no_wsl (inl refl))
        (λ e. Returns-inside v (not_zero v h e)))

  Returns-fall_back : (r : Result Bool) → Returns Anything (fall_back m tools r)
  unfolding fall_back
  Returns-fall_back (ok b) = Returns-pure b tt
  Returns-fall_back (err e) = record { at = λ w. (_, refl, tt) }

  Returns-pro : Returns Anything (is_pro_attached m tools)
  unfolding is_pro_attached
  Returns-pro = record {
    at = λ w. let (r, w') = is_pro_attached_dbus m tools w in (Returns-fall_back r).at w';
  }

  IsEither-of :
      (wsl : Wsl) (attached : Bool)
      → IsWsl wsl
      → IsEither m (record {
        wsl = wsl;
        desktop = if wsl.subsystem_version == 0 then get_desktop m else no_desktop;
        pro_attached = attached;
      })
  unfolding get_desktop
  IsEither-of wsl attached (inl e) = inl (e, rw e refl, rw e refl, rw e refl)
  IsEither-of wsl attached (inr (inl v, s, i)) = inr ((inl v, s, i), rw v refl)
  IsEither-of wsl attached (inr (inr v, s, i)) = inr ((inr v, s, i), rw v refl)

  pub Returns-platform : Returns (IsEither m) (collect_platform m tools)
  unfolding collect_platform
  Returns-platform = Returns-bind _ _ Returns-IsWsl (λ wsl h.
      Returns-bind _ _ Returns-pro (λ attached _. Returns-pure _ (IsEither-of wsl attached h)))

  -- Whatever the commands give and on any schedule of failing calls, Collect of the platform returns
  -- without an error: outside WSL with nothing of WSL; inside it with the version 1 or 2, whether
  -- systemd was used, whether interop is enabled, the version of wsl.exe only if it is, and nothing
  -- of a desktop.
  pub collect_platform-IsEither :
      (w : World) → (i : PlatformInfo) × ((collect_platform m tools w).0 ≡ ok i) × IsEither m i
  collect_platform-IsEither w = Returns-platform.at w
