-- ===== src/System/Calm.antt =====
-- Worlds in which no system call fails of its own accord.
use ubuntu_insights.Base.{Bool, ap, arith, false, ℕ, ◌∙◌, ◌≡◌}
use ubuntu_insights.System.Files.{read_dir, remove, stat}
use ubuntu_insights.System.World.{FilePath, World}

unfoldable pub IsCalm : World → Type 0
IsCalm w = (k : ℕ) → w.fault k ≡ false

pub calm_now : (w : World) → IsCalm w → w.fault w.calls ≡ false
unfolding IsCalm
calm_now w h = h w.calls

pub IsCalm-of_fault : (w w' : World) → w'.fault ≡ w.fault → IsCalm w → IsCalm w'
unfolding IsCalm
IsCalm-of_fault w w' e h k = ap (λ (f : ℕ → Bool). f k) e ∙ h k

pub remove_fault : (p : FilePath) (w : World) → (remove p w).1.fault ≡ w.fault
unfolding remove
remove_fault p w = ground arith

pub stat_fault : (p : FilePath) (w : World) → (stat p w).1.fault ≡ w.fault
unfolding stat
stat_fault p w = ground arith

pub read_dir_fault : (p : FilePath) (w : World) → (read_dir p w).1.fault ≡ w.fault
unfolding read_dir
read_dir_fault p w = ground arith
