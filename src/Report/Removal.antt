-- ===== src/Report/Removal.antt =====
-- What the removal of reports, one after the other, leaves.
use ubuntu_insights.Base.{
  Bytes, Has, List, [], ap, inl, inr, none, refl, some, sym, ◌∙◌, ◌∷◌, ◌≡◌, ◌⊎◌,
}
use ubuntu_insights.Report.{Report, remove_reports}
use ubuntu_insights.System.Calm.{IsCalm, IsCalm-of_fault, calm_now, remove_fault}
use ubuntu_insights.System.Files.{node_at, remove}
use ubuntu_insights.System.Files.Laws.{remove-node_at, remove_calm}
use ubuntu_insights.System.World.{FilePath, World, file}

-- From `w` to `w'` the path is as it was, or it was the path of one of the reports and is gone.
abbrev pub OnlyRemoves : List Report → Bytes → FilePath → World → World → Type 0
OnlyRemoves rs n d w w' =
    (node_at (n ∷ d) w'.tree ≡ node_at (n ∷ d) w.tree)
    ⊎ ((r : Report) × Has r rs × (r.path ≡ n ∷ d) × (node_at (n ∷ d) w'.tree ≡ none))

joined :
    (r : Report) (rs : List Report) (n : Bytes) (d : FilePath) (w w1 w2 : World)
    → (node_at (n ∷ d) w1.tree ≡ node_at (n ∷ d) w.tree)
      ⊎ ((r.path ≡ n ∷ d) × (node_at (n ∷ d) w1.tree ≡ none))
    → OnlyRemoves rs n d w1 w2
    → OnlyRemoves (r ∷ rs) n d w w2
joined r rs n d w w1 w2 a (inr (s, m, e, gone)) = inr (s, inr m, e, gone)
joined r rs n d w w1 w2 (inl a) (inl b) = inl (b ∙ a)
joined r rs n d w w1 w2 (inr (e, gone)) (inl b) = inr (r, inl refl, e, b ∙ gone)

pub remove_reports_tree :
    (rs : List Report) (w : World) (n : Bytes) (d : FilePath)
    → OnlyRemoves rs n d w (remove_reports rs w).1
unfolding remove_reports
remove_reports_tree [] w n d = inl refl
remove_reports_tree (r ∷ rs) w n d =
    joined r rs n d w (remove r.path w).1 (remove_reports rs (remove r.path w).1).1
      (remove-node_at r.path n d w) (remove_reports_tree rs (remove r.path w).1 n d)

pub remove_reports-none :
    (rs : List Report) (w : World) (n : Bytes) (d : FilePath)
    → node_at (n ∷ d) w.tree ≡ none
    → node_at (n ∷ d) (remove_reports rs w).1.tree ≡ none
remove_reports-none rs w n d h = elim (remove_reports_tree rs w n d) [
  | inl same ↦ same ∙ h
  | inr (r, m, e, gone) ↦ gone
]

remove_calm_gone :
    (p : FilePath) (w : World) (n : Bytes) (d : FilePath) (b : Bytes)
    → IsCalm w
    → p ≡ n ∷ d
    → (node_at (n ∷ d) w.tree ≡ some (file b)) ⊎ (node_at (n ∷ d) w.tree ≡ none)
    → node_at (n ∷ d) (remove p w).1.tree ≡ none
remove_calm_gone p w n d b calm e (inl h) = rw e (remove_calm n d w b (calm_now w calm) h).1
remove_calm_gone p w n d b calm e (inr h) = elim (remove-node_at p n d w) [
  | inl same ↦ same ∙ h
  | inr (_, gone) ↦ gone
]

-- When no call fails, the file of each of the reports is gone.
pub remove_reports_calm :
    (rs : List Report) (w : World) (n : Bytes) (d : FilePath) (b : Bytes) (r : Report)
    → IsCalm w
    → (node_at (n ∷ d) w.tree ≡ some (file b)) ⊎ (node_at (n ∷ d) w.tree ≡ none)
    → Has r rs
    → r.path ≡ n ∷ d
    → node_at (n ∷ d) (remove_reports rs w).1.tree ≡ none
unfolding remove_reports
remove_reports_calm [] w n d b r calm h m e = absurd m
remove_reports_calm (s ∷ rs) w n d b r calm h (inl same) e =
    remove_reports-none rs (remove s.path w).1 n d
      (remove_calm_gone s.path w n d b calm (ap (λ (x : Report). x.path) (sym same) ∙ e) h)
remove_reports_calm (s ∷ rs) w n d b r calm h (inr m) e =
    let w1 = (remove s.path w).1 in
    let now : (node_at (n ∷ d) w1.tree ≡ some (file b)) ⊎ (node_at (n ∷ d) w1.tree ≡ none) =
      elim (remove-node_at s.path n d w) [
        | inl same ↦ elim h [ inl x ↦ inl (same ∙ x) | inr x ↦ inr (same ∙ x) ]
        | inr (_, gone) ↦ inr gone
      ] in
    remove_reports_calm rs w1 n d b r (IsCalm-of_fault w w1 (remove_fault s.path w) calm) now m e
