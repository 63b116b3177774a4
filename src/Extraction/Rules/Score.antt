-- ===== src/Extraction/Rules/Score.antt =====
-- The confidence of the rules extractor, internal/extraction/rules.go.
use recipe_reader.Common.{ℕ, List, if◌then◌else◌, ltb, ◌==◌, length}
use recipe_reader.Text.{Text, text_eq, trim_space, rune_count}
use recipe_reader.Float.{Float}
use recipe_reader.Extraction.Types.{ExtractedIngredient}
use recipe_reader.Extraction.Score.{clamp01, with_amounts}
use recipe_reader.Extraction.Rules.Title.{untitled_recipe}

abbrev pub full_ingredient_count : ℕ
full_ingredient_count = 4

abbrev pub full_instruction_runes : ℕ
full_instruction_runes = 80

module _ {F : Type 0} (fl : Float F) where
  -- `math.Min(1, float64(n)/float64(full))`
  abbrev pub share : ℕ → ℕ → F
  share n full = fl.min fl.one (fl.div (fl.of_int n) (fl.of_int full))

  -- `ingredientScore`
  unfoldable pub ingredient_score : List (ExtractedIngredient F) → ℕ → F
  ingredient_score ings candidate_lines =
      if length ings == 0
      then fl.zero
      else (let count = share (length ings) full_ingredient_count in
          let coverage =
            if ltb 0 candidate_lines then share (length ings) candidate_lines else fl.one in
          let amounts = fl.div (fl.of_int (with_amounts fl ings)) (fl.of_int (length ings)) in
          clamp01 fl (
            fl.add (fl.add (fl.mul (fl.percent 60) count) (fl.mul (fl.percent 20) coverage))
              (fl.mul (fl.percent 20) amounts)))

  -- `instructionScore`
  unfoldable pub instruction_score : Text → F
  instruction_score instructions =
      let n = rune_count (trim_space instructions) in
      if n == 0 then fl.zero else share n full_instruction_runes

  -- `confidenceFor`, of a name, the ingredients and the instructions.
  unfoldable pub confidence_for : Text → List (ExtractedIngredient F) → Text → ℕ → F
  unfolding ingredient_score instruction_score
  confidence_for name ings instructions ingredient_lines =
      let score =
        fl.add (fl.mul (fl.percent 50) (ingredient_score ings ingredient_lines))
          (fl.mul (fl.percent 50) (instruction_score instructions)) in
      clamp01 fl (if text_eq name untitled_recipe then fl.mul score (fl.percent 75) else score)
