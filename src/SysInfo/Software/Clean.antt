-- ===== src/SysInfo/Software/Clean.antt =====
-- What Collect of the software returns.
use ubuntu_insights.Base.{
  Bool-cases, Bytes, Option, [], codes, false, inl, inr, none, not, refl, some, ℕ, ◌==◌, ◌∷◌, ◌≡◌,
}
use ubuntu_insights.Base.Dict.{Dict}
use ubuntu_insights.SysInfo.Machine.{Machine}
use ubuntu_insights.SysInfo.Platform.{PlatformInfo}
use ubuntu_insights.SysInfo.Software.{
  Bios, OsInfo, SoftwareInfo, SoftwareTools, before_dot, collect_bios, collect_lang, collect_os,
  collect_os_from_file, collect_os_from_lsb_release, collect_os_in_snap, collect_os_release,
  collect_software, dmi, from_path, is_confined_snap, lang_or_empty, last_existing, lsb_info,
  lsb_path, lsb_release_fields, or_os_release, os_info, os_or_family, os_release_fields,
  os_release_paths, parse_key_value_file,
}
use ubuntu_insights.SysInfo.Text.{Returns-read_file_log, contains_byte, cut, cut_after, one_line}
use ubuntu_insights.System.Files.{read_file, stat}
use ubuntu_insights.System.Returns.{Returns, Returns-bind, Returns-if, Returns-pure}
use ubuntu_insights.System.Steps.{bind_elim}
use ubuntu_insights.System.World.{FilePath, Result, World, err, hiding, is_ok, ok, plain}

one_line-clean : (s : Bytes) → contains_byte 10 (one_line s) ≡ false
unfolding one_line contains_byte
one_line-clean s = elim (Bool-cases (contains_byte 10 s)) [ inl e ↦ rw e refl | inr e ↦ rw e e ]

-- What Cut finds has no separator before it, and finding nothing there is none.
abbrev NoneBefore : ℕ → Bytes → Option (Bytes × Bytes) → Type 0
NoneBefore b s none = contains_byte b s ≡ false
NoneBefore b s (some (before, rest)) = contains_byte b before ≡ false

cut_after-NoneBefore :
    (b c : ℕ) (s : Bytes) (o : Option (Bytes × Bytes))
    → (c == b) ≡ false
    → NoneBefore b s o
    → NoneBefore b (c ∷ s) (cut_after c o)
unfolding contains_byte
cut_after-NoneBefore b c s none e h = rw e h
cut_after-NoneBefore b c s (some (before, rest)) e h = rw e h

cut-NoneBefore : (b : ℕ) (s : Bytes) → NoneBefore b s (cut b s)
unfolding cut contains_byte
cut-NoneBefore b [] = refl
cut-NoneBefore b (c ∷ s) = elim (Bool-cases (c == b)) [
  | inl e ↦ rw e refl
  | inr e ↦ rw e (cut_after-NoneBefore b c s (cut b s) e (cut-NoneBefore b s))
]

before_dot-clean :
    (lang : Bytes) (o : Option (Bytes × Bytes))
    → NoneBefore b'.' lang o
    → contains_byte b'.' (before_dot lang o) ≡ false
before_dot-clean lang none h = h
before_dot-clean lang (some (l, encoding)) h = h

module _ (m : Machine) where
  abbrev IsFamily : Result OsInfo → Type 0
  IsFamily (ok i) = i.family ≡ m.goos
  IsFamily (err e) = Unit

  lsb_info-IsFamily : (found : Dict Bytes Bytes) → IsFamily (lsb_info m found)
  lsb_info-IsFamily [] = tt
  lsb_info-IsFamily (x ∷ found) = refl

  os_info-IsFamily : (found : Dict Bytes Bytes) → IsFamily (os_info m found)
  os_info-IsFamily [] = tt
  os_info-IsFamily (x ∷ found) = refl

  file-IsFamily : (p : FilePath) (w : World) → IsFamily (collect_os_from_file m p w).0
  unfolding collect_os_from_file
  file-IsFamily p w =
      bind_elim (λ r _. IsFamily r) (hiding (read_file p)) _ w
        (λ content _. os_info-IsFamily (parse_key_value_file content os_release_fields)) (λ _ _. tt)

  from_path-IsFamily : (o : Option FilePath) (w : World) → IsFamily (from_path m o w).0
  from_path-IsFamily none w = tt
  from_path-IsFamily (some p) w = file-IsFamily p w

  release-IsFamily : (w : World) → IsFamily (collect_os_release m w).0
  unfolding collect_os_release
  release-IsFamily w =
      bind_elim (λ r _. IsFamily r) (last_existing (os_release_paths m) none) _ w
        (λ best _. from_path-IsFamily best (last_existing (os_release_paths m) none w).1)
        (λ _ _. tt)

  lsb-IsFamily : (p : FilePath) (w : World) → IsFamily (collect_os_from_lsb_release m p w).0
  unfolding collect_os_from_lsb_release
  lsb-IsFamily p w =
      bind_elim (λ r _. IsFamily r) (hiding (read_file p)) _ w
        (λ content _. lsb_info-IsFamily (parse_key_value_file content lsb_release_fields))
        (λ _ _. tt)

  or_release-IsFamily :
      (r : Result OsInfo) (w : World) → IsFamily r → IsFamily (or_os_release m r w).0
  unfolding or_os_release
  or_release-IsFamily (ok i) w h = h
  or_release-IsFamily (err e) w h = release-IsFamily w

  in_snap-IsFamily : (w : World) → IsFamily (collect_os_in_snap m w).0
  unfolding collect_os_in_snap
  in_snap-IsFamily w =
      let w1 = (stat (lsb_path m) w).1 in
      elim (Bool-cases (is_ok (stat (lsb_path m) w).0)) [
        | inl e ↦ rw e (
            or_release-IsFamily (collect_os_from_lsb_release m (lsb_path m) w1).0
              (collect_os_from_lsb_release m (lsb_path m) w1).1 (lsb-IsFamily (lsb_path m) w1))
        | inr e ↦ rw e (release-IsFamily w1)
      ]

  or_family : (r : Result OsInfo) → IsFamily r → (os_or_family m r).family ≡ m.goos
  or_family (ok i) h = h
  or_family (err e) h = refl

module _ (m : Machine) where
  -- One line each, and no dot in the language; the family is the platform's.
  abbrev pub IsClean : SoftwareInfo → Type 0
  IsClean i =
      (i.os.family ≡ m.goos)
      × (contains_byte b'.' i.lang ≡ false)
      × (contains_byte 10 i.bios.vendor ≡ false)
      × (contains_byte 10 i.bios.version ≡ false)

  lang-clean : contains_byte b'.' (lang_or_empty (collect_lang m)) ≡ false
  unfolding collect_lang contains_byte
  lang-clean = of_lang (m.getenv (codes "LANG"))
    where
      of_lang :
          (o : Option Bytes)
          → contains_byte b'.' (
              lang_or_empty
                (elim o [ none ↦ err plain | some lang ↦ ok (before_dot lang (cut b'.' lang)) ]))
            ≡ false
      of_lang none = refl
      of_lang (some lang) = before_dot-clean lang (cut b'.' lang) (cut-NoneBefore b'.' lang)

  abbrev IsPlain : Bios → Type 0
  IsPlain b = (contains_byte 10 b.vendor ≡ false) × (contains_byte 10 b.version ≡ false)

  Returns-bios : (pi : PlatformInfo) → Returns IsPlain (collect_bios m pi)
  unfolding collect_bios contains_byte
  Returns-bios pi =
      Returns-if (not (pi.wsl.subsystem_version == 0)) _ _
        (λ _. Returns-pure (record { vendor = []; version = [] }) (refl, refl))
        (λ _. Returns-bind _ _ (Returns-read_file_log (dmi m (codes "bios_vendor"))) (λ vendor _.
          Returns-bind _ _ (Returns-read_file_log (dmi m (codes "bios_version"))) (λ version _.
            Returns-pure (record { vendor = one_line vendor; version = one_line version })
              (one_line-clean vendor, one_line-clean version))))

module _ (m : Machine) (tools : SoftwareTools) where
  collect_os-IsFamily :
      (snap : Option FilePath) (w : World) → IsFamily m (collect_os m tools snap w).0
  unfolding collect_os
  collect_os-IsFamily snap w =
      bind_elim (λ r _. IsFamily m r) (is_confined_snap tools snap) _ w
        (λ in_snap _.
          let w1 = (is_confined_snap tools snap w).1 in
          elim (Bool-cases in_snap) [
            | inl e ↦ rw e (in_snap-IsFamily m w1)
            | inr e ↦ rw e (release-IsFamily m w1)
          ])
        (λ _ _. tt)

  pub Returns-software :
      (snap : Option FilePath) (pi : PlatformInfo)
      → Returns (IsClean m) (collect_software m tools snap pi)
  unfolding collect_software
  Returns-software snap pi = record {
    at = λ w.
        let r = (collect_os m tools snap w).0 in
        let (b, e, v) = (Returns-bios m pi).at (collect_os m tools snap w).1 in
        (
          record {
            os = os_or_family m r;
            timezone = tools.timezone;
            lang = lang_or_empty (collect_lang m);
            bios = b;
          },
          rw e refl,
          (or_family m r (collect_os-IsFamily snap w), lang-clean m, v.0, v.1),
        );
  }

  -- Whatever the files and the environment hold and on any schedule of failing calls, Collect of the
  -- software returns without an error; the family of the system is that of the platform, the
  -- language has no encoding after a dot, and the vendor and the version of the BIOS are of one line.
  pub collect_software-IsClean :
      (snap : Option FilePath) (pi : PlatformInfo) (w : World)
      → (i : SoftwareInfo) × ((collect_software m tools snap pi w).0 ≡ ok i) × IsClean m i
  collect_software-IsClean snap pi w = (Returns-software snap pi).at w
