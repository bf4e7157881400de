-- ===== src/Server/Config/Sound.antt =====
-- What IsAllowed answers after any run of the watcher.
use ubuntu_insights.Base.{
  Bool-cases, Bytes, Has, List, Option, [], arith, bytes_dec, false, inl, inr, none, refl, some,
  true, ◌↔◌, ◌∷◌, ◌≡◌, ◌≢◌, ◌⊎◌,
}
use ubuntu_insights.Base.Dict.{Dict, insert, lookup, lookup-insert}
use ubuntu_insights.Env.{or_plain}
use ubuntu_insights.Server.Config.{
  ConfigManager, Event, add_names, adopt, allow_list, build_allow_set, decoded, filter_allow_list,
  in_map, is_allowed, load, new_config_manager, on_event, on_events, reserved_names, watch,
}
use ubuntu_insights.System.Files.{read_file}
use ubuntu_insights.System.World.{FilePath, Result, Status, World, done, err, ok}

pub insert-in_map :
    {V : Type 0} (k name : Bytes) (v : V) (set : Dict Bytes V)
    → (in_map k (insert bytes_dec name v set) ≡ true) ↔ ((k ≡ name) ⊎ (in_map k set ≡ true))
unfolding in_map
insert-in_map k name v set = ground (arith, lookup-insert bytes_dec k name v set)

add_names-in_map :
    (k : Bytes) (names : List Bytes) (set : Dict Bytes (Unit {0}))
    → (in_map k (add_names names set) ≡ true) ↔ (Has k names ⊎ (in_map k set ≡ true))
unfolding add_names
add_names-in_map k [] set = ground arith
add_names-in_map k (name ∷ names) set =
    ground
      (arith, add_names-in_map k names (insert bytes_dec name tt set), insert-in_map k name tt set)

-- The filter keeps exactly the names that are not reserved.
pub filter_allow_list-Has :
    (k : Bytes) (names : List Bytes)
    → Has k (filter_allow_list names) ↔ (Has k names × (in_map k reserved_names ≡ false))
unfolding filter_allow_list
filter_allow_list-Has k [] = ground arith
filter_allow_list-Has k (name ∷ names) = elim (Bool-cases (in_map name reserved_names)) [
  | inl e ↦ rw e (ground (arith, filter_allow_list-Has k names))
  | inr e ↦ rw e (ground (arith, filter_allow_list-Has k names))
]

empty-in_map : (k : Bytes) → in_map {V = Unit {0}} k [] ≡ false
unfolding in_map lookup
empty-in_map k = refl

-- The set answers what the list holds, and the list holds no reserved name.
abbrev pub IsSound : ConfigManager → Type 0
IsSound cm =
    (k : Bytes)
    → ((is_allowed cm k ≡ true) ↔ Has k (allow_list cm))
      × (Has k (allow_list cm) → in_map k reserved_names ≡ false)

adopt_sound :
    (names : List Bytes) (k : Bytes)
    → let kept = filter_allow_list names in
      ((in_map k (build_allow_set kept) ≡ true) ↔ Has k kept)
      × (Has k kept → in_map k reserved_names ≡ false)
unfolding build_allow_set
adopt_sound names k = ground (
  arith,
  add_names-in_map k (filter_allow_list names) [],
  filter_allow_list-Has k names,
  empty-in_map k,
)

module _ (decode : Bytes → Option (List Bytes)) where
  adopted-IsSound :
      (cm : ConfigManager) (r : Result (List Bytes)) → IsSound cm → IsSound (adopt cm r).1
  unfolding is_allowed
  adopted-IsSound cm (err e) h = h
  adopted-IsSound cm (ok names) h = λ k. adopt_sound names k

  load-IsSound : (cm : ConfigManager) (w : World) → IsSound cm → IsSound (load decode cm w).0.1
  unfolding load
  load-IsSound cm w h = adopted-IsSound cm (decoded decode (read_file cm.config_path w).0) h

  on_event-IsSound :
      (cm : ConfigManager) (event : Event) (w : World)
      → IsSound cm
      → IsSound (on_event decode cm event w).0.1
  unfolding on_event
  on_event-IsSound cm event w h = ground (arith, load-IsSound cm w)

  on_events-IsSound :
      (cm : ConfigManager) (l : List (Event × World)) → IsSound cm → IsSound (on_events decode cm l)
  unfolding on_events
  on_events-IsSound cm [] h = h
  on_events-IsSound cm ((event, w) ∷ l) h =
      on_events-IsSound (on_event decode cm event w).0.1 l (on_event-IsSound cm event w h)

  new_config_manager-IsSound : (p : FilePath) → IsSound (new_config_manager p)
  unfolding is_allowed
  new_config_manager-IsSound p k = ground (arith, empty-in_map k)

  -- Whatever a manager's file holds at the start and at each event of the watcher, and whichever
  -- reads of it fail: IsAllowed says yes to exactly the names of AllowList, and none of these is
  -- reserved.
  pub watch-IsSound :
      (p : FilePath) (w : World) (l : List (Event × World))
      → IsSound (watch decode (new_config_manager p) w l)
  unfolding watch
  watch-IsSound p w l =
      on_events-IsSound (load decode (new_config_manager p) w).0.1 l
        (load-IsSound (new_config_manager p) w (new_config_manager-IsSound p))

  -- The read gave `s`, and the load returned `r` and left `cm'`.
  abbrev pub LoadOutcome : ConfigManager → Result Bytes → Status × ConfigManager → Type 0
  LoadOutcome cm s (r, cm') =
      ((r ≢ done) × (cm' ≡ cm))
      ⊎ ((b : Bytes) × (names : List Bytes) × (r ≡ done)
          × (s ≡ ok b)
          × (decode b ≡ some names)
          × ((k : Bytes)
              → (is_allowed cm' k ≡ true) ↔ (Has k names × (in_map k reserved_names ≡ false))))

  adopted_allows :
      (cm : ConfigManager) (names : List Bytes) (k : Bytes)
      → (is_allowed (adopt cm (ok names)).1 k ≡ true)
        ↔ (Has k names × (in_map k reserved_names ≡ false))
  unfolding is_allowed
  adopted_allows cm names k = ground (arith, adopt_sound names k, filter_allow_list-Has k names)

  adopted_outcome :
      (cm : ConfigManager) (b : Bytes) (o : Option (List Bytes))
      → decode b ≡ o
      → LoadOutcome cm (ok b) (adopt cm (or_plain o))
  adopted_outcome cm b none e = inl (λ x. cc, refl)
  adopted_outcome cm b (some names) e = inr (b, names, refl, refl, e, adopted_allows cm names)

  decoded_outcome :
      (cm : ConfigManager) (s : Result Bytes) → LoadOutcome cm s (adopt cm (decoded decode s))
  decoded_outcome cm (err e) = inl (λ x. cc, refl)
  decoded_outcome cm (ok b) = adopted_outcome cm b (decode b) refl

  -- A load fails and leaves the manager as it was, or the file was read and decoded, and then
  -- IsAllowed says yes to exactly the names in the file that are not reserved.
  pub load_allows :
      (cm : ConfigManager) (w : World)
      → LoadOutcome cm (read_file cm.config_path w).0 (load decode cm w).0
  unfolding load
  load_allows cm w = decoded_outcome cm (read_file cm.config_path w).0
