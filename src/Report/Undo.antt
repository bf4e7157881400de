-- ===== src/Report/Undo.antt =====
-- UndoProcessed after MarkAsProcessed.
use ubuntu_insights.Base.{
  Bool, Bytes, Option, [], ap, arith, false, is_nil, ite, none, some, subst, sym, ◌∙◌, ◌∷◌, ◌≡◌,
  ◌≢◌,
}
use ubuntu_insights.FileUtils.{atomic_write, write_file}
use ubuntu_insights.FileUtils.Atomic.{atomic_write-done, temp_path}
use ubuntu_insights.Report.{Report, mark_as_processed, undo_processed}
use ubuntu_insights.Report.Moves.{IsMovable, mark_as_processed_ok, marked, remove_ok}
use ubuntu_insights.System.Files.{node_at, remove}
use ubuntu_insights.System.Steps.{bind_elim, opaque-eq_ok}
use ubuntu_insights.System.World.{FilePath, Node, World, done, file, hiding, ok, path_dec}

-- Where the report was stashed and what UndoProcessed leaves at `q`.
abbrev Restored : FilePath → FilePath → Bytes → FilePath → World → World → Type 0
Restored from to data' q w w' =
    node_at q w'.tree
    ≡ ite (path_dec q from) none (ite (path_dec q to) (some (file data')) (node_at q w.tree))

undo_steps :
    (r : Report) (m n : Bytes) (d e q : FilePath) (w w1 : World)
    → r.path ≡ m ∷ e
    → node_at q w1.tree ≡ ite (path_dec q (n ∷ d)) (some (file r.stash_data)) (node_at q w.tree)
    → (remove r.path w1).0 ≡ done
    → Restored (m ∷ e) (n ∷ d) r.stash_data q w (remove r.path w1).1
undo_steps r m n d e q w w1 at h removed_ =
    remove_ok r.path m e q w1 at removed_
    ∙ ap (λ (o : Option Node). ite (path_dec q (m ∷ e)) none o) h

-- When UndoProcessed returns a report, the stashed data is back where it came from.
pub undo_processed_ok :
    (r : Report) (m n : Bytes) (d e q : FilePath) (w : World) (r' : Report)
    → r.path ≡ m ∷ e
    → r.stash_path ≡ n ∷ d
    → n ∷ d ≢ temp_path (n ∷ d) w
    → (undo_processed r w).0 ≡ ok r'
    → (r' ≡ record r { path = r.stash_path; stash_path = []; stash_data = [] })
      × Restored (m ∷ e) (n ∷ d) r.stash_data q w (undo_processed r w).1
unfolding undo_processed write_file
undo_processed_ok r m n d e q w r' at stash no_temp =
    let back : Report = record r { path = r.stash_path; stash_path = []; stash_data = [] } in
    let nonempty : is_nil r.stash_path ≡ false = ap is_nil stash in
    rw nonempty (
      bind_elim (λ x w'. x ≡ ok r' → (r' ≡ back) × Restored (m ∷ e) (n ∷ d) r.stash_data q w w')
        (hiding (atomic_write r.stash_path r.stash_data 0)) _ w
        (λ _ f.
          let w1 = (atomic_write r.stash_path r.stash_data 0 w).1 in
          bind_elim (λ x w'. x ≡ ok r' → (r' ≡ back) × Restored (m ∷ e) (n ∷ d) r.stash_data q w w')
            (hiding (remove r.path)) _ w1
            (λ _ g h. (
              ground arith,
              undo_steps r m n d e q w w1 at
                  (stored stash
                    (ground (arith, opaque-eq_ok (atomic_write r.stash_path r.stash_data 0 w).0 f)))
                  (ground (arith, opaque-eq_ok (remove r.path w1).0 g)),
            ))
            (λ _ _ h. absurd (ground arith)))
        (λ _ _ h. absurd (ground arith)))
  where
    stored :
        r.stash_path ≡ n ∷ d
        → (atomic_write r.stash_path r.stash_data 0 w).0 ≡ done
        → node_at q (atomic_write r.stash_path r.stash_data 0 w).1.tree
          ≡ ite (path_dec q (n ∷ d)) (some (file r.stash_data)) (node_at q w.tree)
    stored s =
        subst
          (λ p.
            (atomic_write p r.stash_data 0 w).0 ≡ done
            → node_at q (atomic_write p r.stash_data 0 w).1.tree
              ≡ ite (path_dec q (n ∷ d)) (some (file r.stash_data)) (node_at q w.tree))
          (sym s) (atomic_write-done n d r.stash_data 0 w q no_temp)

module _ (json_valid : Bytes → Bool) (dest : FilePath) (data' : Bytes) (r : Report) (n : Bytes)
    (d : FilePath) (mv : IsMovable dest r n d) where
  -- Marking a report as processed and undoing that, when neither returns an error, gives back the
  -- report with its stash emptied, and a tree in which every path is as it was, except that the
  -- marked path, whatever it held before, is gone. (The destination's file of that name is not the
  -- report itself, and neither path is that of a temporary file of a write.)
  pub undo_processed-mark_as_processed :
      (q : FilePath) (w : World) (r' r'' : Report)
      → (mark_as_processed json_valid dest data' r w).0 ≡ ok r'
      → let w' = (mark_as_processed json_valid dest data' r w).1 in
        (undo_processed r' w').0 ≡ ok r''
        → (r'' ≡ record r { stash_path = []; stash_data = [] })
          × (node_at q (undo_processed r' w').1.tree
              ≡ ite (path_dec q (marked dest r)) none (node_at q w.tree))
  undo_processed-mark_as_processed q w r' r'' h k =
      let w' = (mark_as_processed json_valid dest data' r w).1 in
      let (orig, same, was, valid, now) =
        mark_as_processed_ok json_valid dest data' r n d mv q w r' h in
      let (back, restored) =
        undo_processed_ok r' r.name n d dest q w' r'' (ap (λ (x : Report). x.path) same)
          (ap (λ (x : Report). x.stash_path) same ∙ mv.at) (mv.no_temp_back w') k in
      (
        back
            ∙ ap
                (λ (x : Report). record x { path = x.stash_path; stash_path = []; stash_data = [] })
                same,
        finally restored now was (ap (λ (x : Report). x.stash_data) same),
      )
    where
      finally :
          {o o' : Option Node} {b orig : Bytes}
          → o ≡ ite (path_dec q (r.name ∷ dest)) none (ite (path_dec q (n ∷ d)) (some (file b)) o')
          → o'
            ≡ ite
                (path_dec q (n ∷ d))
                none
                (ite (path_dec q (r.name ∷ dest)) (some (file data')) (node_at q w.tree))
          → node_at (n ∷ d) w.tree ≡ some (file orig)
          → b ≡ orig
          → o ≡ ite (path_dec q (r.name ∷ dest)) none (node_at q w.tree)
      finally h1 h2 h3 h4 = ground arith
