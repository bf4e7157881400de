-- ===== src/Server/Processor/Unread.antt =====
-- What processFile does with a report that it cannot read.
use ubuntu_insights.Base.{
  Bool, Bool-cases, Bytes, arith, ext, false, inl, inr, none, refl, some, suc, trim_suffix, true, ℕ,
  ◌∷◌, ◌≡◌,
}
use ubuntu_insights.Server.Processor.{
  Database, Decoders, decode_file, finish_file, get_report_id, handle_invalid, has_failed_upload,
  process_and_upload, process_file, process_kind, send_invalid, upload_invalid, was_attempted,
}
use ubuntu_insights.System.Files.{node_at, read_file, remove}
use ubuntu_insights.System.Files.Laws.{remove_calm}
use ubuntu_insights.System.World.{FilePath, Result, World, err, file, ok, plain}

read_file_fails :
    (p : FilePath) (w : World)
    → w.fault w.calls ≡ true
    → read_file p w ≡ (err plain, record w { calls = suc w.calls })
unfolding read_file
read_file_fails p w f = rw f refl

remove_rows : (p : FilePath) (w : World) → (remove p w).1.rows ≡ w.rows
unfolding remove
remove_rows p w = ground arith

-- Nothing is counted, the file at `path` is gone, and the database is as it was.
abbrev pub IsLost : FilePath → World → Result (ℕ × ℕ) → World → Type 0
IsLost path w r w' = (r ≡ ok (0, 0)) × (node_at path w'.tree ≡ none) × (w'.rows ≡ w.rows)

module _ (decoders : Decoders) (db : Database) (n : Bytes) (d : FilePath) (app b : Bytes) where
  -- The three system calls of the file, from the world v on
  abbrev FailsTwice : World → Type 0
  FailsTwice v =
      (v.fault v.calls ≡ true)
      × (v.fault (suc v.calls) ≡ true)
      × (v.fault (suc (suc v.calls)) ≡ false)

  unread :
      (id : Bytes) (legacy_app' : Bool) (v : World)
      → node_at (n ∷ d) v.tree ≡ some (file b)
      → FailsTwice v
      → let m = process_kind decoders db (n ∷ d) id app legacy_app' in
        IsLost
          (n ∷ d)
          v
          (finish_file decoders db (n ∷ d) id app (m v).0 (m v).1).0
          (finish_file decoders db (n ∷ d) id app (m v).0 (m v).1).1
  unfolding process_kind process_and_upload decode_file finish_file handle_invalid upload_invalid
      send_invalid has_failed_upload was_attempted
  unread id false v at (f1, f2, f3) =
      let v1 = record v { calls = suc v.calls } in
      let v2 = record v { calls = suc (suc v.calls) } in
      rw (read_file_fails (n ∷ d) v f1, read_file_fails (n ∷ d) v1 f2)
        (refl, (remove_calm n d v2 b f3 at).1, remove_rows (n ∷ d) v2)
  unread id true v at (f1, f2, f3) =
      let v1 = record v { calls = suc v.calls } in
      let v2 = record v { calls = suc (suc v.calls) } in
      rw (read_file_fails (n ∷ d) v f1, read_file_fails (n ∷ d) v1 f2)
        (refl, (remove_calm n d v2 b f3 at).1, remove_rows (n ∷ d) v2)

  -- A report whose two reads fail, at whatever moment, and whose removal does not: it is removed
  -- unread, nothing is uploaded, and nothing is counted, whatever it holds, of the current or of the
  -- legacy kind, and whatever the database is.
  pub process_file-IsLost :
      (legacy_app' : Bool) (w : World)
      → node_at (n ∷ d) w.tree ≡ some (file b)
      → w.fault w.calls ≡ true
      → w.fault (suc w.calls) ≡ true
      → w.fault (suc (suc w.calls)) ≡ false
      → IsLost
          (n ∷ d)
          w
          (process_file decoders db (n ∷ d) app legacy_app' w).0
          (process_file decoders db (n ∷ d) app legacy_app' w).1
  unfolding process_file get_report_id
  process_file-IsLost legacy_app' w at f1 f2 f3 =
      elim (Bool-cases (decoders.is_uuid (trim_suffix n (ext n)))) [
        | inl e ↦ rw e (unread (trim_suffix n (ext n)) legacy_app' w at (f1, f2, f3))
        | inr e ↦ rw e (
            unread (decoders.new_uuid (w.random w.draws)) legacy_app'
              (record w { draws = suc w.draws }) at (f1, f2, f3))
      ]
