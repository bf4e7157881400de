-- ===== src/Server/Config.antt =====
-- server/internal/common/config/config.go: the allow list, loaded from a file and reloaded when
-- the file changes. Decoding the JSON of the file is a parameter.
pub mod Sound
use ubuntu_insights.Base.{
  Bool, Bytes, List, Option, [], bytes_dec, codes, false, if◌then◌else◌, ite, none, not, some, true,
  ◌||◌, ◌∷◌,
}
use ubuntu_insights.Base.Dict.{Dict, insert, lookup}
use ubuntu_insights.Env.{or_plain}
use ubuntu_insights.System.Files.{read_file}
use ubuntu_insights.System.World.{FilePath, Result, Status, World, done, err, is_ok, ok, path_dec}

-- The names that no application may have.
abbrev pub reserved_names : Dict Bytes (Unit {0})
reserved_names = (codes "ubuntu_report", tt) ∷ (codes "goose_db_version", tt) ∷ []

abbrev pub present {ℓ} : {A : Type ℓ} → Option A → Bool
present none = false
present (some a) = true

-- `_, exists := m[k]`
unfoldable pub in_map : {V : Type 0} → Bytes → Dict Bytes V → Bool
in_map k m = present (lookup bytes_dec k m)

pub record ConfigManager : Type 0 where
  pub allowed_list : List Bytes
  pub allow_set : Dict Bytes (Unit {0})
  pub config_path : FilePath

-- New
abbrev pub new_config_manager : FilePath → ConfigManager
new_config_manager p = record { allowed_list = []; allow_set = []; config_path = p }

unfoldable pub filter_allow_list : List Bytes → List Bytes
filter_allow_list [] = []
filter_allow_list (name ∷ names) =
    let rest = filter_allow_list names in if in_map name reserved_names then rest else name ∷ rest

unfoldable pub add_names : List Bytes → Dict Bytes (Unit {0}) → Dict Bytes (Unit {0})
add_names [] set = set
add_names (name ∷ names) set = add_names names (insert bytes_dec name tt set)

unfoldable pub build_allow_set : List Bytes → Dict Bytes (Unit {0})
build_allow_set names = add_names names []

-- IsAllowed
unfoldable pub is_allowed : ConfigManager → Bytes → Bool
is_allowed cm value = in_map value cm.allow_set

-- AllowList
abbrev pub allow_list : ConfigManager → List Bytes
allow_list cm = cm.allowed_list

-- What one event of the directory's watcher reports.
pub record Event : Type 0 where
  pub is_write : Bool
  pub is_create : Bool
  pub is_rename : Bool
  pub name : FilePath

-- The new configuration, under the lock; on an error the old one stays.
abbrev pub adopt : ConfigManager → Result (List Bytes) → Status × ConfigManager
adopt cm (err e) = (err e, cm)
adopt cm (ok names) =
    let kept = filter_allow_list names in
    (done, record cm { allowed_list = kept; allow_set = build_allow_set kept })

module _ (decode : Bytes → Option (List Bytes)) where
  abbrev pub decoded : Result Bytes → Result (List Bytes)
  decoded (err e) = err e
  decoded (ok b) = or_plain (decode b)

  -- Load: the result, and the manager that it leaves
  unfoldable pub load : ConfigManager → World → (Status × ConfigManager) × World
  load cm w = let (r, w') = read_file cm.config_path w in (adopt cm (decoded r), w')

  -- The loop of Watch on the events of the watcher, until the context is done, with the number of
  -- successful loads that it reports. (The channel of the reports keeps one that nobody has read
  -- and drops the rest.)
  unfoldable pub on_event : ConfigManager → Event → World → (Bool × ConfigManager) × World
  on_event cm event w =
      if not (event.is_write || event.is_create || event.is_rename)
      then ((false, cm), w)
      else if not (ite (path_dec event.name cm.config_path) true false)
      then ((false, cm), w)
      else (let ((r, cm'), w') = load cm w in ((is_ok r, cm'), w'))

  -- A world for each event: what happened to the file in between is not the watcher's doing.
  unfoldable pub on_events : ConfigManager → List (Event × World) → ConfigManager
  on_events cm [] = cm
  on_events cm ((event, w) ∷ l) = on_events (on_event cm event w).0.1 l

  -- Watch: the initial load, then the loop
  unfoldable pub watch : ConfigManager → World → List (Event × World) → ConfigManager
  watch cm w l = on_events (load cm w).0.1 l
