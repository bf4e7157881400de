-- ===== src/FileUtils/Atomic.antt =====
-- What a reader of the tree can see of an atomic write, on every schedule of failing calls.
use ubuntu_insights.Base.{
  Bool-cases, Bytes, [], arith, if◌then◌else◌, inl, inr, ite, none, refl, some, ℕ, ◌==◌, ◌∷◌, ◌≡◌,
  ◌≢◌, ◌⊎◌,
}
use ubuntu_insights.Base.Dict.{erase, insert}
use ubuntu_insights.FileUtils.{atomic_write, fill_and_rename, parent, remove_temp}
use ubuntu_insights.System.Files.{chmod, close, create_temp, node_at, rename, temp_name, write}
use ubuntu_insights.System.Files.Laws.{
  chmod_tree, close_tree, create_temp_cases, node_at-erase, node_at-insert, remove_cases,
  rename_cases, write_cases,
}
use ubuntu_insights.System.Steps.{bind_elim, opaque-eq_err, opaque-eq_ok}
use ubuntu_insights.System.World.{
  FilePath, Io, Status, World, attempt, done, file, hiding, path_dec, pure, ◌>>=◌, ◌>>◌,
}

-- The temporary file that the next atomic write beside `p` uses.
abbrev pub temp_path : FilePath → World → FilePath
temp_path p w = temp_name (w.random w.draws) ∷ parent p

module _ (k n : Bytes) (d e : FilePath) (data' : Bytes) (q : FilePath) where
  -- The tree after the steps from `w` on: `q` is as before, or it is the target and holds the
  -- data; after a success the temporary file is the target.
  abbrev Filled : World → Status → World → Type 0
  Filled w r w' =
      (q ≢ k ∷ d
        → (node_at q w'.tree ≡ node_at q w.tree)
          ⊎ ((q ≡ n ∷ e) × (node_at q w'.tree ≡ some (file data'))))
      × (r ≡ done
          → node_at q w'.tree
            ≡ ite (path_dec q (n ∷ e)) (some (file data'))
                (ite (path_dec q (k ∷ d)) none (node_at q w.tree)))

  last_steps :
      (perm : ℕ) (w w0 : World)
      → Filled w0 done w
      → let m = (if perm == 0 then pure tt else hiding (chmod (n ∷ e))) in Filled w0 (m w).0 (m w).1
  last_steps perm w w0 h = elim (Bool-cases (perm == 0)) [
    | inl z ↦ rw z h
    | inr z ↦ rw (z, chmod_tree (n ∷ e) w) (h.0, λ _. h.1 refl)
  ]

  rename-Filled :
      (perm : ℕ) (w w0 : World)
      → w.tree ≡ insert path_dec (k ∷ d) (file data') w0.tree
      → let m = (do
        hiding (rename (k ∷ d) (n ∷ e))
        if perm == 0 then pure tt else hiding (chmod (n ∷ e))) in
        Filled w0 (m w).0 (m w).1
  rename-Filled perm w w0 h =
      bind_elim (Filled w0) (hiding (rename (k ∷ d) (n ∷ e))) _ w
        (λ a eq. last_steps perm _ w0 (
          ground (
            arith,
            opaque-eq_ok (rename (k ∷ d) (n ∷ e) w).0 eq,
            rename_cases (k ∷ d) (n ∷ e) data' w,
            node_at-insert (k ∷ d) k d (file data') w0.tree,
            node_at-insert q k d (file data') w0.tree,
            node_at-erase q k d w.tree,
            node_at-insert q n e (file data') (erase path_dec (k ∷ d) w.tree),
          )))
        (λ f eq. ground (
          arith,
          opaque-eq_err (rename (k ∷ d) (n ∷ e) w).0 eq,
          rename_cases (k ∷ d) (n ∷ e) data' w,
          node_at-insert (k ∷ d) k d (file data') w0.tree,
          node_at-insert q k d (file data') w0.tree,
        ))

  fill_and_rename-Filled :
      (perm : ℕ) (w : World)
      → let m = fill_and_rename (k ∷ d) (n ∷ e) data' perm in Filled w (m w).0 (m w).1
  unfolding fill_and_rename
  fill_and_rename-Filled perm w =
      bind_elim (Filled w) (hiding (write (k ∷ d) data')) _ w
        (λ a eq.
          bind_elim (Filled w) (hiding close) _ (write (k ∷ d) data' w).1
            (λ _ _. rename-Filled perm (close (write (k ∷ d) data' w).1).1 w (
              ground (
                arith,
                opaque-eq_ok (write (k ∷ d) data' w).0 eq,
                write_cases (k ∷ d) data' w,
                close_tree (write (k ∷ d) data' w).1,
              )))
            (λ f _. ground (
              arith,
              write_cases (k ∷ d) data' w,
              close_tree (write (k ∷ d) data' w).1,
              node_at-insert q k d (file data') w.tree,
            )))
        (λ f eq.
          ground (arith, write_cases (k ∷ d) data' w, node_at-insert q k d (file data') w.tree))

  remove_temp_cases :
      (r : Status) (w : World)
      → (q ≢ k ∷ d → node_at q (remove_temp (k ∷ d) r w).1.tree ≡ node_at q w.tree)
        × ((remove_temp (k ∷ d) r w).0 ≡ done
            → (r ≡ done)
              × (node_at q (remove_temp (k ∷ d) r w).1.tree
                  ≡ ite (path_dec q (k ∷ d)) none (node_at q w.tree)))
  unfolding remove_temp
  remove_temp_cases r w =
      ground (arith, close_tree w, remove_cases (k ∷ d) (close w).1, node_at-erase q k d w.tree)

-- What holds of an atomic write from `w` on, at the path `q`, whatever its result.
abbrev pub OldOrNew : FilePath → Bytes → FilePath → World → World → Type 0
OldOrNew p data' q w w' =
    (node_at q w'.tree ≡ node_at q w.tree) ⊎ ((q ≡ p) × (node_at q w'.tree ≡ some (file data')))

module _ (n : Bytes) (e : FilePath) (data' : Bytes) (q : FilePath) where
  abbrev Written : World → Status → World → Type 0
  Written w r w' =
      (q ≢ temp_path (n ∷ e) w → OldOrNew (n ∷ e) data' q w w')
      × (n ∷ e ≢ temp_path (n ∷ e) w
          → r ≡ done
          → node_at q w'.tree ≡ ite (path_dec q (n ∷ e)) (some (file data')) (node_at q w.tree))

  abbrev finish : ℕ → FilePath → Io (Unit {0})
  finish perm tmp = do r ← attempt (fill_and_rename tmp (n ∷ e) data' perm); remove_temp tmp r

  finish-Written :
      (perm : ℕ) (w : World)
      → node_at (temp_path (n ∷ e) w) w.tree ≡ none
      → (create_temp e w).1.tree ≡ insert path_dec (temp_path (n ∷ e) w) (file []) w.tree
      → Written w
          (finish perm (temp_path (n ∷ e) w) (create_temp e w).1).0
          (finish perm (temp_path (n ∷ e) w) (create_temp e w).1).1
  finish-Written perm w fresh made =
      let w1 = (create_temp e w).1 in
      let k = temp_name (w.random w.draws) in
      let r = fill_and_rename (k ∷ e) (n ∷ e) data' perm w1 in
      ground (
        arith,
        fill_and_rename-Filled k n e e data' q perm w1,
        remove_temp_cases k n e e data' q r.0 r.1,
        node_at-insert q k e (file []) w.tree,
      )

  atomic_write-Written :
      (perm : ℕ) (w : World)
      → Written w (atomic_write (n ∷ e) data' perm w).0 (atomic_write (n ∷ e) data' perm w).1
  unfolding atomic_write
  atomic_write-Written perm w =
      bind_elim (Written w) (hiding (create_temp e)) (finish perm) w
        (λ tmp eq.
          let same : tmp ≡ temp_path (n ∷ e) w =
            ground (arith, create_temp_cases e w, opaque-eq_ok (create_temp e w).0 eq) in
          rw same (
            finish-Written perm w
              (ground (arith, create_temp_cases e w, opaque-eq_ok (create_temp e w).0 eq))
              (ground (arith, create_temp_cases e w, opaque-eq_ok (create_temp e w).0 eq))))
        (λ f eq. ground (arith, create_temp_cases e w))

module _ (n : Bytes) (e : FilePath) (data' : Bytes) (perm : ℕ) (w : World) (q : FilePath) where
  -- After an atomic write, on any schedule of failing calls and whatever its result, a path other
  -- than the temporary file shows what it showed before, or it is the target and shows the whole
  -- of the new data.
  pub atomic_write-OldOrNew :
      q ≢ temp_path (n ∷ e) w → OldOrNew (n ∷ e) data' q w (atomic_write (n ∷ e) data' perm w).1
  atomic_write-OldOrNew h = (atomic_write-Written n e data' q perm w).0 h

  -- After an atomic write that returns no error, to a target that is not named like the temporary
  -- file, the target holds the data and every other path is as it was, no temporary file left.
  pub atomic_write-done :
      n ∷ e ≢ temp_path (n ∷ e) w
      → (atomic_write (n ∷ e) data' perm w).0 ≡ done
      → node_at q (atomic_write (n ∷ e) data' perm w).1.tree
        ≡ ite (path_dec q (n ∷ e)) (some (file data')) (node_at q w.tree)
  atomic_write-done h ok_ = (atomic_write-Written n e data' q perm w).1 h ok_
