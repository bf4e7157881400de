-- ===== src/Report/Moves.antt =====
-- Moving a report to the uploaded directory, and back.
use ubuntu_insights.Base.{
  Bool, Bytes, Option, ap, arith, ite, none, refl, some, subst, sym, true, ◌∙◌, ◌∷◌, ◌≡◌, ◌≢◌,
}
use ubuntu_insights.FileUtils.{atomic_write, write_file}
use ubuntu_insights.FileUtils.Atomic.{atomic_write-done, atomic_write-OldOrNew, temp_path}
use ubuntu_insights.Report.{Report, mark_as_processed, read_json}
use ubuntu_insights.System.Files.{node_at, read_file, remove}
use ubuntu_insights.System.Files.Laws.{node_at-erase, remove_cases}
use ubuntu_insights.System.Steps.{bind_elim, opaque-eq_err, opaque-eq_ok}
use ubuntu_insights.System.World.{
  Error, FilePath, Node, Tree, World, done, err, file, hiding, ok, path_dec,
}

module _ (json_valid : Bytes → Bool) where
  pub read_json_tree : (r : Report) (w : World) → (read_json json_valid r w).1.tree ≡ w.tree
  unfolding read_json read_file
  read_json_tree r w = ground arith

  pub read_json_ok :
      (r : Report) (w : World) (b : Bytes)
      → (read_json json_valid r w).0 ≡ ok b
      → (node_at r.path w.tree ≡ some (file b)) × (json_valid b ≡ true)
  unfolding read_json read_file
  read_json_ok r w b h = ground arith

-- A removal that is reported as an error removed nothing.
pub remove_err :
    (p q : FilePath) (w : World) (e : Error)
    → (remove p w).0 ≡ err e
    → node_at q (remove p w).1.tree ≡ node_at q w.tree
remove_err p q w e h = ground (arith, remove_cases p w)

pub remove_ok :
    (p : FilePath) (n : Bytes) (d q : FilePath) (w : World)
    → p ≡ n ∷ d
    → (remove p w).0 ≡ done
    → node_at q (remove p w).1.tree ≡ ite (path_dec q (n ∷ d)) none (node_at q w.tree)
remove_ok p n d q w e =
    rw e (λ h. ground (arith, remove_cases (n ∷ d) w, node_at-erase q n d w.tree))

-- A report that lies in a directory of its own, with a name that is no temporary one: `marked` is
-- where MarkAsProcessed puts it.
abbrev pub marked : FilePath → Report → FilePath
marked dest r = r.name ∷ dest

pub record IsMovable (dest : FilePath) (r : Report) (n : Bytes) (d : FilePath) : Type 0 where
  pub at : r.path ≡ n ∷ d
  pub elsewhere : n ∷ d ≢ marked dest r
  pub no_temp : (w : World) → n ∷ d ≢ temp_path (marked dest r) w
  pub no_temp_back : (w : World) → n ∷ d ≢ temp_path (n ∷ d) w
  pub named : (w : World) → marked dest r ≢ temp_path (marked dest r) w
  pub named_back : (w : World) → marked dest r ≢ temp_path (n ∷ d) w

module _ (json_valid : Bytes → Bool) (dest : FilePath) (data' : Bytes) (r : Report) (n : Bytes)
    (d : FilePath) (mv : IsMovable dest r n d) where
  -- On any schedule of failing calls, when MarkAsProcessed returns an error the original report is
  -- still where it was, with what it held. (The destination's file of that name is not the report
  -- itself, and neither path is that of a temporary file of a write.)
  pub mark_as_processed_err :
      (w : World) (e : Error)
      → (mark_as_processed json_valid dest data' r w).0 ≡ err e
      → node_at (n ∷ d) (mark_as_processed json_valid dest data' r w).1.tree
        ≡ node_at (n ∷ d) w.tree
  unfolding mark_as_processed write_file
  mark_as_processed_err w e =
      bind_elim (λ x w'. x ≡ err e → node_at (n ∷ d) w'.tree ≡ node_at (n ∷ d) w.tree)
        (hiding (read_json json_valid r)) _ w
        (λ orig _.
          let w1 = (read_json json_valid r w).1 in
          let kept_read : node_at (n ∷ d) w1.tree ≡ node_at (n ∷ d) w.tree =
            ap (node_at (n ∷ d)) (read_json_tree json_valid r w) in
          let old = atomic_write-OldOrNew r.name dest data' 0 w1 (n ∷ d) (mv.no_temp w1) in
          let kept_write : node_at (n ∷ d) (atomic_write (marked dest r) data' 0 w1).1.tree
              ≡ node_at (n ∷ d) w.tree =
            ground (arith, mv.elsewhere, old, kept_read) in
          bind_elim (λ x w'. x ≡ err e → node_at (n ∷ d) w'.tree ≡ node_at (n ∷ d) w.tree)
            (hiding (atomic_write (marked dest r) data' 0)) _ w1
            (λ _ _.
              bind_elim (λ x w'. x ≡ err e → node_at (n ∷ d) w'.tree ≡ node_at (n ∷ d) w.tree)
                (hiding (remove r.path)) _ (atomic_write (marked dest r) data' 0 w1).1
                (λ _ _ h. absurd (ground arith))
                (λ f k h.
                  let (f', k', _) =
                    opaque-eq_err (remove r.path (atomic_write (marked dest r) data' 0 w1).1).0 k in
                  remove_err r.path (n ∷ d) (atomic_write (marked dest r) data' 0 w1).1 f' k'
                  ∙ kept_write))
            (λ f _ h. kept_write))
        (λ f _ h. ap (node_at (n ∷ d)) (read_json_tree json_valid r w))

  -- The report that MarkAsProcessed returns, of a file that held `orig`.
  abbrev pub moved : Bytes → Report
  moved orig = record {
    path = marked dest r;
    name = r.name;
    time_stamp = r.time_stamp;
    stash_path = r.path;
    stash_data = orig;
  }

  abbrev pub MovedTo : FilePath → World → Report → World → Type 0
  MovedTo q w r' w' =
      (orig : Bytes) × (r' ≡ moved orig)
      × (node_at (n ∷ d) w.tree ≡ some (file orig))
      × (json_valid orig ≡ true)
      × (node_at q w'.tree
          ≡ ite (path_dec q (n ∷ d)) none
              (ite (path_dec q (marked dest r)) (some (file data')) (node_at q w.tree)))

  mark_steps :
      (q : FilePath) (w : World) (orig : Bytes)
      → (read_json json_valid r w).0 ≡ ok orig
      → let w1 = (read_json json_valid r w).1 in
        let w2 = (atomic_write (marked dest r) data' 0 w1).1 in
        (atomic_write (marked dest r) data' 0 w1).0 ≡ done
        → (remove r.path w2).0 ≡ done
        → MovedTo q w (moved orig) (remove r.path w2).1
  mark_steps q w orig h written_ removed_ =
      let w1 = (read_json json_valid r w).1 in
      let w2 = (atomic_write (marked dest r) data' 0 w1).1 in
      let (found_, valid) = read_json_ok json_valid r w orig h in
      (
        orig,
        refl,
        ap (λ (p : FilePath). node_at p w.tree) (sym mv.at) ∙ found_,
        valid,
        (remove_ok r.path n d q w2 mv.at removed_
            ∙ ap (λ (o : Option Node). ite (path_dec q (n ∷ d)) none o)
                (atomic_write-done r.name dest data' 0 w1 q (mv.named w1) written_
                  ∙ ap
                      (λ (t : Tree).
                        ite (path_dec q (marked dest r)) (some (file data')) (node_at q t))
                      (read_json_tree json_valid r w))),
      )

  -- When MarkAsProcessed returns a report, the original file is gone, its content is stashed and
  -- was valid JSON, the new file holds the data, and no other path has changed.
  pub mark_as_processed_ok :
      (q : FilePath) (w : World) (r' : Report)
      → (mark_as_processed json_valid dest data' r w).0 ≡ ok r'
      → MovedTo q w r' (mark_as_processed json_valid dest data' r w).1
  unfolding mark_as_processed write_file
  mark_as_processed_ok q w r' =
      bind_elim (λ x w'. x ≡ ok r' → MovedTo q w r' w') (hiding (read_json json_valid r)) _ w
        (λ orig e.
          let w1 = (read_json json_valid r w).1 in
          bind_elim (λ x w'. x ≡ ok r' → MovedTo q w r' w')
            (hiding (atomic_write (marked dest r) data' 0)) _ w1
            (λ _ f.
              let w2 = (atomic_write (marked dest r) data' 0 w1).1 in
              bind_elim (λ x w'. x ≡ ok r' → MovedTo q w r' w') (hiding (remove r.path)) _ w2
                (λ _ g h.
                  let same : moved orig ≡ r' = ground (arith) in
                  subst (λ x. MovedTo q w x (remove r.path w2).1) same
                    (mark_steps q w orig (opaque-eq_ok (read_json json_valid r w).0 e)
                      (ground (arith, opaque-eq_ok (atomic_write (marked dest r) data' 0 w1).0 f))
                      (ground (arith, opaque-eq_ok (remove r.path w2).0 g))))
                (λ _ _ h. absurd (ground arith)))
            (λ _ _ h. absurd (ground arith)))
        (λ _ _ h. absurd (ground arith))
