-- ===== src/SysInfo/Text.antt =====
-- Package strings on the texts that the collectors read, and ReadFileLog of
-- common/fileutils/fileutils.go.
use ubuntu_insights.Base.{
  Bool, Bytes, List, Option, [], codes, false, if◌then◌else◌, is_nil, none, refl, reverse, some,
  suc, zero, ℕ, ◌&&◌, ◌++◌, ◌-◌, ◌==◌, ◌||◌, ◌∷◌, ◌≡◌,
}
use ubuntu_insights.Server.Space.{is_blank_from, space_width}
use ubuntu_insights.System.Files.{read_file}
use ubuntu_insights.System.Returns.{Anything, Returns}
use ubuntu_insights.System.World.{FilePath, Io, Result, attempt, err, ok, pure, ◌>>=◌}

-- strings.TrimLeftFunc and TrimRightFunc of unicode.IsSpace; the width of a space that is skipped
-- is counted down.
unfoldable pub trim_left_from : ℕ → Bytes → Bytes
trim_left_from skip [] = []
trim_left_from (suc skip) (c ∷ s) = trim_left_from skip s
trim_left_from zero (c ∷ s) =
    let width = space_width (c ∷ s) in
    let rest = trim_left_from (width - 1) s in if width == 0 then c ∷ s else rest

unfoldable pub trim_right : Bytes → Bytes
trim_right [] = []
trim_right (c ∷ s) = let rest = trim_right s in if is_blank_from 0 (c ∷ s) then [] else c ∷ rest

-- strings.TrimSpace
unfoldable pub trim_space : Bytes → Bytes
trim_space s = trim_right (trim_left_from 0 s)

-- strings.Split at a byte
abbrev prepend : ℕ → List Bytes → List Bytes
prepend c [] = (c ∷ []) ∷ []
prepend c (line ∷ lines) = (c ∷ line) ∷ lines

unfoldable pub split_at : ℕ → Bytes → List Bytes
split_at b [] = [] ∷ []
split_at b (c ∷ s) = let rest = split_at b s in if c == b then [] ∷ rest else prepend c rest

-- strings.Cut at a byte: none if it is not found
abbrev pub cut_after : ℕ → Option (Bytes × Bytes) → Option (Bytes × Bytes)
cut_after c none = none
cut_after c (some (before, rest)) = some (c ∷ before, rest)

unfoldable pub cut : ℕ → Bytes → Option (Bytes × Bytes)
cut b [] = none
cut b (c ∷ s) = let found = cut b s in if c == b then some ([], s) else cut_after c found

-- strings.Trim of the quotes in "'
abbrev is_quote : ℕ → Bool
is_quote c = (c == 34) || (c == 39)

unfoldable pub unquote_left : Bytes → Bytes
unquote_left [] = []
unquote_left (c ∷ s) = let rest = unquote_left s in if is_quote c then rest else c ∷ s

unfoldable pub unquote_right : Bytes → Bytes
unquote_right [] = []
unquote_right (c ∷ s) =
    let rest = unquote_right s in if is_nil rest && is_quote c then [] else c ∷ rest

abbrev pub unquote : Bytes → Bytes
unquote s = unquote_right (unquote_left s)

-- strings.ContainsRune of a byte
unfoldable pub contains_byte : ℕ → Bytes → Bool
contains_byte b [] = false
contains_byte b (c ∷ s) = (c == b) || contains_byte b s

-- strings.Fields, with the word that is being read, the last byte first
abbrev word : Bytes → List Bytes
word [] = []
word (c ∷ s) = reverse (c ∷ s) ∷ []

unfoldable pub fields_from : Bytes → ℕ → Bytes → List Bytes
fields_from w skip [] = word w
fields_from w (suc skip) (c ∷ s) = fields_from w skip s
fields_from w zero (c ∷ s) =
    let width = space_width (c ∷ s) in
    (if width == 0 then [] else word w)
    ++ fields_from (if width == 0 then c ∷ w else []) (width - 1) s

-- ReadFileLog and ReadFileLogError: the trimmed text, or "" on an error
abbrev trimmed : Result Bytes → Bytes
trimmed (ok b) = trim_space b
trimmed (err e) = []

unfoldable pub read_file_log : FilePath → Io Bytes
read_file_log p = do r ← attempt (read_file p); pure (trimmed r)

-- It never fails.
pub Returns-read_file_log : (p : FilePath) → Returns Anything (read_file_log p)
unfolding read_file_log
Returns-read_file_log p = record { at = λ w. (_, refl, tt) }

-- The collectors' answer to a value of more than one line: it is dropped.
unfoldable pub one_line : Bytes → Bytes
one_line s = if contains_byte 10 s then [] else s

text_tests :
    (trim_space (codes "  a b \n") ≡ codes "a b")
    × (split_at 10 (codes "a\n\nb") ≡ codes "a" ∷ [] ∷ codes "b" ∷ [])
    × (cut b'=' (codes "A=B=C") ≡ some (codes "A", codes "B=C"))
    × (unquote (codes "'a'b'") ≡ codes "a'b")
    × (fields_from [] 0 (codes " Linux  version 6.8\n")
        ≡ codes "Linux" ∷ codes "version" ∷ codes "6.8" ∷ [])
unfolding trim_space trim_right trim_left_from is_blank_from space_width split_at cut unquote_left
    unquote_right fields_from
text_tests = (refl, refl, refl, refl, refl)
