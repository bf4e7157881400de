-- ===== src/SysInfo/Memory.antt =====
-- collectMemory of insights/internal/collector/sysinfo/hardware/hardware_linux.go, with the
-- conversion of units in common/fileutils/fileutils.go.
use ubuntu_insights.Base.{
  Bool, Bytes, List, Option, [], bytes_dec, codes, if◌then◌else◌, is_nil, leb, list_dec, none, not,
  refl, same_bytes, some, suc, ℕ, ℕ_discrete, ◌&&◌, ◌*◌, ◌/◌, ◌==◌, ◌||◌, ◌∷◌, ◌≡◌,
}
use ubuntu_insights.Base.Decimal.{digits, negate, parse_digits, parse_int, scan}
use ubuntu_insights.Base.Int.{negsuc, pos, wrap64, ℤ}
use ubuntu_insights.Client.Commands.{to_lower}
use ubuntu_insights.SysInfo.Machine.{Machine}
use ubuntu_insights.SysInfo.Text.{split_at}
use ubuntu_insights.System.Files.{read_file}
use ubuntu_insights.System.World.{Io, hiding, pure, ◌>>=◌}

-- ConvertUnitToBytes: what a unit multiplies by, none if it is not known
abbrev is_one_of : Bytes → Bytes → Bytes → Bytes → Bool
is_one_of u a b c = same_bytes u a || same_bytes u b || same_bytes u c

unfoldable pub unit_factor : Bytes → Option ℕ
unit_factor unit =
    let u = to_lower unit in
    if is_one_of u [] (codes "b") (codes "b")
    then some 1
    else if is_one_of u (codes "k") (codes "kb") (codes "kib")
    then some 1024
    else if is_one_of u (codes "m") (codes "mb") (codes "mib")
    then some (1024 * 1024)
    else if is_one_of u (codes "g") (codes "gb") (codes "gib")
    then some (1024 * 1024 * 1024)
    else if is_one_of u (codes "t") (codes "tb") (codes "tib")
    then some (1024 * 1024 * 1024 * 1024)
    else none

-- The quotient of an int64 by 1024 * 1024, which Go rounds towards 0
abbrev in_mebibytes : ℤ → ℤ
in_mebibytes (pos n) = pos (n / 1024 / 1024)
in_mebibytes (negsuc n) = negate (suc n / 1024 / 1024)

-- ConvertUnitToStandard of a value that is not negative, as an int64; a value whose unit is not
-- known comes back as it is, with an error that is only logged
abbrev pub standard_of : Option ℕ → ℕ → ℤ
standard_of none v = pos v
standard_of (some factor) v = in_mebibytes (wrap64 (pos (v * factor)))

abbrev pub convert_unit_to_standard : Bytes → ℕ → ℤ
convert_unit_to_standard unit v = standard_of (unit_factor unit) v

-- The texts that regular expressions split: the spaces of \s, and runs of bytes
abbrev is_re_space : ℕ → Bool
is_re_space c = (c == 32) || (c == 9) || (c == 10) || (c == 12) || (c == 13)

abbrev is_digit : ℕ → Bool
is_digit c = leb b'0' c && leb c b'9'

abbrev is_word_byte : ℕ → Bool
is_word_byte c = not (is_re_space c)

unfoldable pub take_while : (ℕ → Bool) → Bytes → Bytes
take_while p [] = []
take_while p (c ∷ s) = let rest = take_while p s in if p c then c ∷ rest else []

unfoldable pub drop_while : (ℕ → Bool) → Bytes → Bytes
drop_while p [] = []
drop_while p (c ∷ s) = let rest = drop_while p s in if p c then rest else c ∷ s

-- meminfoRegex: the digits and the unit of a line of the key
abbrev unit_of : Bytes → Option Bytes
unit_of [] = some []
unit_of (c ∷ s) =
    let word = drop_while is_re_space (c ∷ s) in
    if not (is_re_space c)
    then none
    else if is_nil (drop_while is_re_space (drop_while is_word_byte word))
    then some (take_while is_word_byte word)
    else none

abbrev with_unit : Bytes → Bytes → Option Bytes → Option (Bytes × Bytes × Bytes)
with_unit key digits none = none
with_unit key digits (some unit) = some (key, digits, unit)

abbrev after_colon : Bytes → Bytes → Option (Bytes × Bytes × Bytes)
after_colon key s =
    let value = drop_while is_re_space s in
    let digits = take_while is_digit value in
    if is_nil key || is_nil digits
    then none
    else with_unit key digits (unit_of (drop_while is_digit value))

abbrev at_colon : Bytes → Bytes → Option (Bytes × Bytes × Bytes)
at_colon key [] = none
at_colon key (c ∷ s) = if c == b':' then after_colon key s else none

abbrev is_key_byte : ℕ → Bool
is_key_byte c = not (is_re_space c || (c == b':'))

unfoldable pub meminfo_line : Bytes → Option (Bytes × Bytes × Bytes)
meminfo_line l = at_colon (take_while is_key_byte l) (drop_while is_key_byte l)

abbrev total_of : Bytes → Option ℤ → ℤ
total_of unit (some (pos v)) = convert_unit_to_standard unit v
total_of unit _ = pos 0

abbrev memory_or : ℤ → Option (Bytes × Bytes × Bytes) → ℤ
memory_or later none = later
memory_or later (some (key, digits, unit)) =
    if same_bytes key (codes "MemTotal") then total_of unit (parse_int digits) else later

-- The loop of collectMemory over the lines, which ends at the first total
unfoldable pub mem_total : List Bytes → ℤ
mem_total [] = pos 0
mem_total (l ∷ lines) = let later = mem_total lines in memory_or later (meminfo_line l)

-- collectMemory
unfoldable pub collect_memory : Machine → Io ℤ
collect_memory m = do
  content ← hiding (read_file (codes "meminfo" ∷ codes "proc" ∷ m.root))
  pure (mem_total (split_at 10 content))

meminfo_tests :
    (mem_total (codes "MemFree: 1 kB" ∷ codes "MemTotal:   2097153 kB" ∷ []) ≡ pos 2048)
    × (mem_total (codes "MemTotal:3x" ∷ codes "MemTotal: 5242880" ∷ []) ≡ pos 5)
unfolding mem_total meminfo_line take_while drop_while parse_int parse_digits scan unit_factor
    bytes_dec list_dec ℕ_discrete wrap64
meminfo_tests = (refl, refl)
