-- ===== src/Server/Workers/Sync.antt =====
-- What a synchronisation of the workers does.
use ubuntu_insights.Base.{
  Bool, Bool-cases, Bytes, Has, List, [], arith, bytes_dec, false, if◌then◌else◌, inl, inr, ite,
  none, refl, some, true, ℕ, ◌↔◌, ◌∷◌, ◌≡◌, ◌⊎◌,
}
use ubuntu_insights.Base.Dict.{Dict, lookup, lookup-erase, lookup-insert}
use ubuntu_insights.Server.Config.{in_map}
use ubuntu_insights.Server.Config.Sound.{insert-in_map}
use ubuntu_insights.Server.Workers.{
  Pool, start, start_added, stop_removed, stop_unless, sync_workers,
}

module _ (is_allowed : Bytes → Bool) where
  stop_unless-lookup :
      (k app : Bytes) (id : ℕ) (pool : Pool)
      → lookup bytes_dec k (stop_unless is_allowed app id pool).workers
        ≡ ite
            (bytes_dec k app)
            (if is_allowed app then lookup bytes_dec k pool.workers else none)
            (lookup bytes_dec k pool.workers)
  unfolding stop_unless
  stop_unless-lookup k app id pool = ground (arith, lookup-erase bytes_dec k app pool.workers)

  stop_unless-canceled :
      (app : Bytes) (j id : ℕ) (pool : Pool)
      → Has id pool.canceled ⊎ ((is_allowed app ≡ false) × (id ≡ j))
      → Has id (stop_unless is_allowed app j pool).canceled
  unfolding stop_unless
  stop_unless-canceled app j id pool h = ground arith

  -- An allowed worker goes on; of the others no entry that was gone through is left.
  stop_removed-lookup :
      (k : Bytes) (l : Dict Bytes ℕ) (pool : Pool)
      → (is_allowed k ≡ true
          → lookup bytes_dec k (stop_removed is_allowed l pool).workers
            ≡ lookup bytes_dec k pool.workers)
        × (is_allowed k ≡ false
            → (lookup bytes_dec k pool.workers ≡ none) ⊎ (in_map k l ≡ true)
            → lookup bytes_dec k (stop_removed is_allowed l pool).workers ≡ none)
  unfolding stop_removed in_map lookup
  stop_removed-lookup k [] pool = ground arith
  stop_removed-lookup k ((app, id) ∷ rest) pool = ground (
    arith,
    stop_removed-lookup k rest (stop_unless is_allowed app id pool),
    stop_unless-lookup k app id pool,
  )

  stop_removed-Has_canceled :
      (l : Dict Bytes ℕ) (pool : Pool) (id : ℕ)
      → Has id pool.canceled
      → Has id (stop_removed is_allowed l pool).canceled
  unfolding stop_removed
  stop_removed-Has_canceled [] pool id h = h
  stop_removed-Has_canceled ((app, j) ∷ rest) pool id h =
      stop_removed-Has_canceled rest (stop_unless is_allowed app j pool) id
        (stop_unless-canceled app j id pool (inl h))

  stop_removed-cancels :
      (k : Bytes) (id : ℕ) (l : Dict Bytes ℕ) (pool : Pool)
      → is_allowed k ≡ false
      → lookup bytes_dec k l ≡ some id
      → Has id (stop_removed is_allowed l pool).canceled
  unfolding stop_removed lookup
  stop_removed-cancels k id [] pool n h = absurd (ground arith)
  stop_removed-cancels k id ((app, j) ∷ rest) pool n h = elim (bytes_dec k app) [
    | yes e ↦
        stop_removed-Has_canceled rest (stop_unless is_allowed app j pool) id
          (stop_unless-canceled app j id pool (inr (ground arith, ground arith)))
    | no ne ↦ stop_removed-cancels k id rest (stop_unless is_allowed app j pool) n (ground arith)
  ]

  present-cases :
      (k : Bytes) (d : Dict Bytes ℕ) → (lookup bytes_dec k d ≡ none) ⊎ (in_map k d ≡ true)
  unfolding in_map
  present-cases k d = ground arith

  stop_all-lookup :
      (k : Bytes) (pool : Pool)
      → lookup bytes_dec k (stop_removed is_allowed pool.workers pool).workers
        ≡ (if is_allowed k then lookup bytes_dec k pool.workers else none)
  stop_all-lookup k pool = elim (Bool-cases (is_allowed k)) [
    | inl e ↦ rw e ((stop_removed-lookup k pool.workers pool).0 e)
    | inr e ↦ rw e ((stop_removed-lookup k pool.workers pool).1 e (present-cases k pool.workers))
  ]

module _ (ctx_done : ℕ → Bool) (k : Bytes) where
  start-lookup :
      (app : Bytes) (pool : Pool)
      → lookup bytes_dec k (start app pool).workers
        ≡ ite (bytes_dec k app) (some pool.started) (lookup bytes_dec k pool.workers)
  start-lookup app pool = lookup-insert bytes_dec k app pool.started pool.workers

  start_added-keeps :
      (names : List Bytes) (pool : Pool) (id : ℕ)
      → lookup bytes_dec k pool.workers ≡ some id
      → lookup bytes_dec k (start_added ctx_done names pool).workers ≡ some id
  unfolding start_added in_map
  start_added-keeps [] pool id h = h
  start_added-keeps (app ∷ rest) pool id h = ground (
    arith,
    start_added-keeps rest pool id,
    start_added-keeps rest (start app pool) id,
    start-lookup app pool,
  )

  start_added-canceled :
      (names : List Bytes) (pool : Pool)
      → (start_added ctx_done names pool).canceled ≡ pool.canceled
  unfolding start_added
  start_added-canceled [] pool = refl
  start_added-canceled (app ∷ rest) pool =
      ground (arith, start_added-canceled rest pool, start_added-canceled rest (start app pool))

  start_added-in_map :
      (names : List Bytes) (pool : Pool)
      → ((n : ℕ) → ctx_done n ≡ false)
      → (in_map k (start_added ctx_done names pool).workers ≡ true)
        ↔ ((in_map k pool.workers ≡ true) ⊎ Has k names)
  unfolding start_added
  start_added-in_map [] pool h = ground arith
  start_added-in_map (app ∷ rest) pool h = ground (
    arith,
    start_added-in_map rest pool h,
    start_added-in_map rest (start app pool) h,
    insert-in_map k app pool.started pool.workers,
    h pool.started,
  )

module _ (is_allowed : Bytes → Bool) (allow_list : List Bytes) (ctx_done : ℕ → Bool) (pool : Pool)
    (k : Bytes) where
  stopped-in_map :
      in_map k (stop_removed is_allowed pool.workers pool).workers
      ≡ (if is_allowed k then in_map k pool.workers else false)
  unfolding in_map
  stopped-in_map = ground (arith, stop_all-lookup is_allowed k pool)

  -- After a synchronisation that the context does not stop, with an IsAllowed that says yes to the
  -- names of the AllowList, the workers that run are those of the allowed applications.
  pub sync_workers_runs :
      ((n : ℕ) → ctx_done n ≡ false)
      → ((is_allowed k ≡ true) ↔ Has k allow_list)
      → (in_map k (sync_workers is_allowed allow_list ctx_done pool).workers ≡ true)
        ↔ (is_allowed k ≡ true)
  unfolding sync_workers
  sync_workers_runs go sound = ground (
    arith,
    start_added-in_map ctx_done k allow_list (stop_removed is_allowed pool.workers pool) go,
    stopped-in_map,
  )

  -- A synchronisation, stopped by the context or not, lets a running worker of an allowed
  -- application go on under its own cancel function.
  pub sync_workers_keeps :
      (id : ℕ)
      → lookup bytes_dec k pool.workers ≡ some id
      → is_allowed k ≡ true
      → lookup bytes_dec k (sync_workers is_allowed allow_list ctx_done pool).workers ≡ some id
  unfolding sync_workers
  sync_workers_keeps id h a =
      let stopped = stop_removed is_allowed pool.workers pool in
      start_added-keeps ctx_done k allow_list stopped id
        (ground (arith, stop_all-lookup is_allowed k pool))

  -- A synchronisation, stopped by the context or not, calls the cancel function of a running worker
  -- whose application is not allowed.
  pub sync_workers_cancels :
      (id : ℕ)
      → lookup bytes_dec k pool.workers ≡ some id
      → is_allowed k ≡ false
      → Has id (sync_workers is_allowed allow_list ctx_done pool).canceled
  unfolding sync_workers
  sync_workers_cancels id h n =
      let stopped = stop_removed is_allowed pool.workers pool in
      rw (start_added-canceled ctx_done k allow_list stopped)
        (stop_removed-cancels is_allowed k id pool.workers pool n h)
