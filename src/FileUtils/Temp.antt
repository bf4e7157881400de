-- ===== src/FileUtils/Temp.antt =====
-- The names of temporary files are not those of the program's own files.
use ubuntu_insights.Base.{Bytes, [], ap, codes, refl, sym, ℕ, ◌++◌, ◌∙◌, ◌∷◌, ◌≡◌, ◌≢◌}
use ubuntu_insights.Base.Decimal.{format_ℕ}
use ubuntu_insights.FileUtils.Atomic.{temp_path}
use ubuntu_insights.System.Files.{temp_name}
use ubuntu_insights.System.World.{FilePath, World}

abbrev pub last_byte : Bytes → ℕ
last_byte [] = 0
last_byte (c ∷ []) = c
last_byte (c ∷ d ∷ s) = last_byte (d ∷ s)

pub last_byte-append : (s t : Bytes) (c : ℕ) → last_byte (s ++ (c ∷ t)) ≡ last_byte (c ∷ t)
last_byte-append [] t c = refl
last_byte-append (a ∷ []) t c = refl
last_byte-append (a ∷ b ∷ s) t c = last_byte-append (b ∷ s) t c

last_byte-temp_name : (n : ℕ) → last_byte (temp_name n) ≡ b'p'
unfolding temp_name
last_byte-temp_name n =
    last_byte-append (codes "tmp") (format_ℕ n ++ codes ".tmp") b'-'
    ∙ last_byte-append (b'-' ∷ format_ℕ n) (codes "tmp") b'.'

-- A name that ends in another byte than p is no temporary name.
pub ne-temp_path :
    (s t : Bytes) (c : ℕ) (d : FilePath) (w : World)
    → last_byte (c ∷ t) ≢ b'p'
    → (s ++ (c ∷ t)) ∷ d ≢ temp_path ((s ++ (c ∷ t)) ∷ d) w
ne-temp_path s t c d w h e = h (
    sym (last_byte-append s t c)
    ∙ ap last_byte (head_eq e)
    ∙ last_byte-temp_name (w.random w.draws))
  where
    head_eq : {x y : Bytes} → x ∷ d ≡ y ∷ d → x ≡ y
    head_eq p = cc
