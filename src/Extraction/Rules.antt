-- ===== src/Extraction/Rules.antt =====
-- internal/extraction/rules.go: the extractor for captions with section headers. It calls nothing
-- outside itself, so it leaves the world alone.
pub mod Line
pub mod Title
pub mod Ingredient
pub mod Score
pub mod Soundness
pub mod Layout
use recipe_reader.Common.{
  Bool, true, false, ◌||◌, List, [], ◌∷◌, Option, none, some, if◌then◌else◌, length,
}
use recipe_reader.Text.{Text, Unicode, is_empty, trim_space, split, join}
use recipe_reader.Float.{Float}
use recipe_reader.Errors.{Result, ok}
use recipe_reader.Extraction.Types.{ExtractedRecipe, ExtractedIngredient, Extractor}
use recipe_reader.Extraction.Expressions.{is_ingredients_header, is_instructions_header}
use recipe_reader.Extraction.Categories.{categories_for}
use Title.{recipe_title}
use Ingredient.{parse_ingredient_line}
use Score.{confidence_for}

pub data Section : Type 0 where
  outside ingredients instructions : Section

-- The lines of the two sections.
pub record Sections : Type 0 where
  pub ingredient_lines : List Text
  pub instruction_lines : List Text

-- A line that is in a section, in front of those that follow.
unfoldable pub put_line : Section → Text → Sections → Sections
put_line outside line s = s
put_line ingredients line s = record s { ingredient_lines = line ∷ s.ingredient_lines }
put_line instructions line s = record s { instruction_lines = line ∷ s.instruction_lines }

-- The loop over the lines.
unfoldable pub sections_from : Section → List Text → Sections
unfolding put_line
sections_from section [] = record { ingredient_lines = []; instruction_lines = [] }
sections_from section (raw ∷ lines) =
    let line = trim_space raw in
    elim (is_ingredients_header line) [
      | true ↦ sections_from ingredients lines
      | false ↦ elim (is_instructions_header line) [
        | true ↦ sections_from instructions lines
        | false ↦ elim (is_empty line) [
          | true ↦ sections_from section lines
          | false ↦ put_line section line (sections_from section lines)
        ]
      ]
    ]

module _ {F : Type 0} (u : Unicode) (fl : Float F) where
  -- The loop over the lines of the ingredients section.
  unfoldable pub parse_lines : List Text → List (ExtractedIngredient F)
  parse_lines [] = []
  parse_lines (line ∷ lines) =
      let rest = parse_lines lines in
      elim (parse_ingredient_line u fl line) [ none ↦ rest | some ing ↦ ing ∷ rest ]

  -- `Extract`, of the caption's lines.
  unfoldable pub extract_lines : List Text → ExtractedRecipe F
  unfolding sections_from parse_lines
  extract_lines lines =
      let found = sections_from outside lines in
      let ings = parse_lines found.ingredient_lines in
      let method = join (b'\n' ∷ []) found.instruction_lines in
      let score =
        confidence_for fl (recipe_title u lines) ings method (length found.ingredient_lines) in
      record {
        name = recipe_title u lines;
        ingredients = ings;
        instructions = method;
        categories = if fl.lt fl.zero score then categories_for u lines else [];
        confidence = score;
        degraded = false;
      }

  -- `RuleBasedExtractor.Extract`
  unfoldable pub rules_extract : {W : Type 0} → Extractor F W
  unfolding extract_lines
  rules_extract caption w = (ok (extract_lines (split b'\n' caption)), w)
