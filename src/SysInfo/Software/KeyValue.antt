-- ===== src/SysInfo/Software/KeyValue.antt =====
-- parseKeyValueFile, line by line.
use ubuntu_insights.Base.{
  Bool-cases, Bytes, List, [], ap, arith, bytes_dec, false, inl, inr, ite, refl, some, true, ℕ,
  ◌++◌, ◌==◌, ◌∷◌, ◌≡◌,
}
use ubuntu_insights.Base.Dict.{Dict, lookup, lookup-insert}
use ubuntu_insights.SysInfo.Software.{key_value, parse_key_value_file, parse_lines, store_pair}
use ubuntu_insights.SysInfo.Text.{contains_byte, split_at}

split_at_line : (b : ℕ) (line : Bytes) → contains_byte b line ≡ false → split_at b line ≡ line ∷ []
unfolding split_at contains_byte
split_at_line b [] h = refl
split_at_line b (c ∷ line) h =
    let same = split_at_line b line (ground arith) in ground (arith, same)

split_at_ne : (b : ℕ) (s : Bytes) → (x : Bytes) × (xs : List Bytes) × (split_at b s ≡ x ∷ xs)
unfolding split_at
split_at_ne b [] = ([], [], refl)
split_at_ne b (c ∷ s) = elim (Bool-cases (c == b)) [
  | inl e ↦ ([], split_at b s, rw e refl)
  | inr e ↦ let (x, xs, p) = split_at_ne b s in (c ∷ x, xs, rw e (rw p refl))
]

-- A last line is split off.
split_at-append :
    (b : ℕ) (s line : Bytes)
    → contains_byte b line ≡ false
    → split_at b (s ++ (b ∷ line)) ≡ split_at b s ++ (line ∷ [])
unfolding split_at
split_at-append b [] line h = rw (eq_self b) (ap (λ l. [] ∷ l) (split_at_line b line h))
  where
    eq_self : (n : ℕ) → (n == n) ≡ true
    eq_self n = ground arith
split_at-append b (c ∷ s) line h = elim (Bool-cases (c == b)) [
  | inl e ↦ rw e (ap (λ l. [] ∷ l) (split_at-append b s line h))
  | inr e ↦ let (x, xs, p) = split_at_ne b s in rw e (rw (split_at-append b s line h, p) refl)
]

module _ (field_map : Dict Bytes Bytes) where
  parse_lines-append :
      (lines : List Bytes) (line : Bytes) (found : Dict Bytes Bytes)
      → parse_lines field_map (lines ++ (line ∷ [])) found
        ≡ store_pair field_map (key_value line) (parse_lines field_map lines found)
  unfolding parse_lines
  parse_lines-append [] line found = refl
  parse_lines-append (l ∷ lines) line found =
      parse_lines-append lines line (store_pair field_map (key_value l) found)

  -- One more line of a file, that has a key of the map and a value: afterwards the field of the key
  -- has that value, whatever the lines before it say, and every other field is what those say.
  pub parse_key_value_file-last :
      (content line key value field other : Bytes)
      → contains_byte 10 line ≡ false
      → key_value line ≡ some (key, value)
      → lookup bytes_dec key field_map ≡ some field
      → lookup bytes_dec other (parse_key_value_file (content ++ (10 ∷ line)) field_map)
        ≡ ite
            (bytes_dec other field)
            (some value)
            (lookup bytes_dec other (parse_key_value_file content field_map))
  unfolding parse_key_value_file
  parse_key_value_file-last content line key value field other h k f =
      rw (split_at-append 10 content line h) (
        rw (parse_lines-append (split_at 10 content) line []) (
          rw (k, f)
            (lookup-insert bytes_dec other field value
              (parse_lines field_map (split_at 10 content) []))))
