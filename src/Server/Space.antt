-- ===== src/Server/Space.antt =====
-- strings.TrimSpace, for what uploadInvalid of server/internal/ingest/processor/processor.go asks.
use ubuntu_insights.Base.{
  Bool, Bytes, [], false, if◌then◌else◌, leb, refl, suc, true, zero, ℕ, ◌&&◌, ◌-◌, ◌==◌, ◌||◌, ◌∷◌,
  ◌≡◌,
}

-- Whether strings.TrimSpace leaves nothing: the spaces of ASCII, and those of Unicode in UTF-8.
abbrev is_space : ℕ → Bool
is_space c = (c == 32) || (leb 9 c && leb c 13)

abbrev is_space_2 : ℕ → ℕ → Bool
is_space_2 c d = (c == 194) && ((d == 133) || (d == 160))

abbrev is_space_3 : ℕ → ℕ → ℕ → Bool
is_space_3 c d e =
    ((c == 225) && (d == 154) && (e == 128))
    || ((c == 226)
        && (d == 128)
        && ((leb 128 e && leb e 138) || (e == 168) || (e == 169) || (e == 175)))
    || ((c == 226) && (d == 129) && (e == 159))
    || ((c == 227) && (d == 128) && (e == 128))

-- The length of the space that a text begins with, 0 if it begins with none.
unfoldable pub space_width : Bytes → ℕ
space_width [] = 0
space_width (c ∷ []) = if is_space c then 1 else 0
space_width (c ∷ d ∷ []) = if is_space c then 1 else if is_space_2 c d then 2 else 0
space_width (c ∷ d ∷ e ∷ s) =
    if is_space c then 1 else if is_space_2 c d then 2 else if is_space_3 c d e then 3 else 0

unfoldable pub is_blank_from : ℕ → Bytes → Bool
is_blank_from skip [] = true
is_blank_from (suc skip) (c ∷ s) = is_blank_from skip s
is_blank_from zero (c ∷ s) =
    let width = space_width (c ∷ s) in
    let rest = is_blank_from (width - 1) s in if width == 0 then false else rest

is_blank_lem : is_blank_from 0 (32 ∷ 194 ∷ 160 ∷ 10 ∷ []) ≡ true
unfolding is_blank_from space_width
is_blank_lem = refl
