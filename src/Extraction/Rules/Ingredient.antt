-- ===== src/Extraction/Rules/Ingredient.antt =====
-- `parseIngredientLine`, internal/extraction/rules.go.
pub mod Soundness
pub mod Reading
use recipe_reader.Common.{
  ℕ, Bool, ◌&&◌, ◌||◌, not, [], ◌++◌, map, Option, none, some, if◌then◌else◌, ltb, ◌==◌, length,
}
use recipe_reader.Text.{
  Text, Unicode, codes, is_empty, has_prefix, trim_left, trim_space, trim_suffix, fields,
}
use recipe_reader.Float.{Float}
use recipe_reader.Extraction.Types.{ExtractedIngredient}
use recipe_reader.Extraction.Units.{is_known_unit, normalize_unit}
use recipe_reader.Extraction.Rules.Line.{LineMatch, ingredient_line}

abbrev pub max_unitless_ingredient_words : ℕ
max_unitless_ingredient_words = 6

-- `strings.ReplaceAll(s, ",", ".")`
abbrev pub dotted : Text → Text
dotted s = map (λ c. if c == b',' then b'.' else c) s

module _ {F : Type 0} (u : Unicode) (fl : Float F) where
  abbrev pub amount_of : Text → F
  amount_of s = if is_empty s then fl.zero else fl.parse (dotted s)

  -- The name before its last full stop is dropped, and the unit.
  unfoldable pub name_and_unit : Text → Text → Text × Text
  name_and_unit candidate rest =
      if is_empty candidate
      then (rest, [])
      else if is_known_unit u candidate
      then (rest, normalize_unit u candidate)
      else (trim_space (candidate ++ (codes " " ++ rest)), [])

  -- The three tests at the end, on the amount, the unit and the name.
  unfoldable pub checked : F → Text → Text → Option (ExtractedIngredient F)
  checked amount unit name =
      if is_empty name || has_prefix name (codes "#")
      then none
      else if fl.eq amount fl.zero
          && is_empty unit
          && ltb max_unitless_ingredient_words (length (fields name))
      then none
      else some (record { name = name; amount = amount; unit = unit })

  unfoldable pub line_matched : Option LineMatch → Option (ExtractedIngredient F)
  unfolding name_and_unit checked
  line_matched none = none
  line_matched (some m) =
      let named = name_and_unit (trim_space m.unit) (trim_space m.rest) in
      checked (amount_of m.amount) named.1 (trim_space (trim_suffix named.0 (codes ".")))

  -- What a caption puts in front of an ingredient.
  abbrev pub is_line_noise : ℕ → Bool
  is_line_noise r =
      not (u.is_letter r) && not (u.is_digit r) && not (u.is_number r) && not (r == b'#')

  -- `parseIngredientLine`
  unfoldable pub parse_ingredient_line : Text → Option (ExtractedIngredient F)
  unfolding line_matched
  parse_ingredient_line line = line_matched (ingredient_line (trim_left is_line_noise line))
