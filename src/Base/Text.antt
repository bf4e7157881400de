-- ===== src/Base/Text.antt =====
-- Byte strings (Go's string and []byte), and the functions of package strings and path/filepath
-- that the program applies to one path element.
use Prim.Native.Nat.{ℕ}
use Prim.Native.Char.{code}
use Prim.Native.String.{String}
use mathlib.Core.Path.{◌≡◌, refl}
use mathlib.Core.Logic.{ite}
use mathlib.Core.Bool.{Bool, true, false}
use mathlib.Core.List.{List, [], ◌∷◌}
use native.Mathlib.Decide.{ℕ_discrete}
use ubuntu_insights.Base.Lists.{list_dec}
use ubuntu_insights.Base.Tests.{◌==◌, if◌then◌else◌}

abbrev pub Bytes : Type 0
Bytes = List ℕ

-- The bytes of an ASCII literal.
abbrev pub codes : String → Bytes
codes String.[] = []
codes (String.◌∷◌ c s) = code c ∷ codes s

unfoldable pub bytes_dec : Discrete Bytes
unfolding ℕ_discrete list_dec
bytes_dec = list_dec ℕ_discrete

abbrev pub same_bytes : Bytes → Bytes → Bool
same_bytes a b = ite (bytes_dec a b) true false

abbrev pub is_nil {ℓ} : {A : Type ℓ} → List A → Bool
is_nil [] = true
is_nil (x ∷ xs) = false

pub is_nil-eq_true {ℓ} : {A : Type ℓ} (xs : List A) → is_nil xs ≡ true → xs ≡ []
is_nil-eq_true [] h = refl
is_nil-eq_true (x ∷ xs) h = cc

-- strings.HasSuffix
unfoldable pub has_suffix : Bytes → Bytes → Bool
has_suffix [] t = is_nil t
has_suffix (c ∷ s) t = if same_bytes (c ∷ s) t then true else has_suffix s t

-- strings.TrimSuffix
unfoldable pub trim_suffix : Bytes → Bytes → Bytes
trim_suffix [] t = []
trim_suffix (c ∷ s) t = ite (bytes_dec (c ∷ s) t) [] (c ∷ trim_suffix s t)

-- filepath.Ext of a path element: what begins at its last dot.
unfoldable pub ext : Bytes → Bytes
ext [] = []
ext (c ∷ s) = let e = ext s in if is_nil e then (if c == b'.' then c ∷ s else []) else e

ext_lem : ext (codes "12.tar.json") ≡ codes ".json"
unfolding ext
ext_lem = refl

trim_suffix_lem : trim_suffix (codes "a-consent.toml") (codes "-consent.toml") ≡ codes "a"
unfolding trim_suffix bytes_dec
trim_suffix_lem = refl
