-- ===== src/Extraction/Llm.antt =====
-- `LLMExtractor.Extract`, `parseToolInput` and `structuralConfidence`, internal/extraction/llm.go.
-- The transport, under its deadline, and the decoding of its answer by package encoding/json are
-- parameters.
pub mod Acceptance
use recipe_reader.Common.{false, ◌||◌, List, if◌then◌else◌, leb, ◌==◌, length}
use recipe_reader.Text.{Text, codes, is_empty, text_eq, trim_space, byte_len}
use recipe_reader.Float.{Float}
use recipe_reader.Errors.{Result, ok, err, Sentinel, sentinel, wrap}
use recipe_reader.Extraction.Types.{ExtractedRecipe, ExtractedIngredient}
use recipe_reader.Extraction.Caption.{cap_caption}
use recipe_reader.Extraction.Wrap.{wrap_caption}
use recipe_reader.Extraction.Score.{clamp01, with_amounts}

abbrev pub no_recipe_sentinel : Text
no_recipe_sentinel = codes "NO_RECIPE_FOUND"

-- The arguments of the record_recipe call. An ingredient of theirs has the fields of
-- `ExtractedIngredient`, so the loop that copies them is the list itself.
pub record ToolInput (F : Type 0) : Type 0 where
  pub name : Text
  pub instructions : Text
  pub ingredients : List (ExtractedIngredient F)
  pub categories : List Text
  pub confidence : F

module _ {F : Type 0} (fl : Float F) where
  -- `structuralConfidence` of a recipe with ingredients and instructions, before it is clamped.
  unfoldable pub structural_score : Text → List (ExtractedIngredient F) → F
  structural_score instructions ings =
      let count = fl.of_int (length ings) in
      let full =
        fl.add (fl.percent 50)
          (fl.mul (fl.percent 20) (fl.min fl.one (fl.div count (fl.of_int 4)))) in
      let method =
        if leb 80 (byte_len (trim_space instructions)) then fl.add full (fl.percent 15) else full in
      fl.add method (fl.mul (fl.percent 15) (fl.div (fl.of_int (with_amounts fl ings)) count))

  -- `structuralConfidence`
  unfoldable pub structural_confidence : Text → List (ExtractedIngredient F) → F
  unfolding structural_score
  structural_confidence instructions ings =
      if (length ings == 0) || is_empty (trim_space instructions)
      then fl.zero
      else clamp01 fl (structural_score instructions ings)

  -- What `parseToolInput` makes of arguments that could be decoded, at its two scores.
  unfoldable pub scored : ToolInput F → F → Result (ExtractedRecipe F)
  scored parsed confidence =
      if fl.le confidence fl.zero
      then err (sentinel Sentinel.no_recipe)
      else ok (record {
        name = parsed.name;
        ingredients = parsed.ingredients;
        instructions = parsed.instructions;
        categories = parsed.categories;
        confidence = confidence;
        degraded = false;
      })

  unfoldable pub read_tool_input : Result (ToolInput F) → Result (ExtractedRecipe F)
  read_tool_input (err e) = err (wrap e)
  read_tool_input (ok parsed) =
      if text_eq parsed.instructions no_recipe_sentinel || fl.le parsed.confidence fl.zero
      then err (sentinel Sentinel.no_recipe)
      else scored parsed (
          fl.min (clamp01 fl parsed.confidence)
            (structural_confidence parsed.instructions parsed.ingredients))

module _ {F W Raw : Type 0} (fl : Float F) (unmarshal : Raw → Result (ToolInput F))
    (record_recipe : Text → W → Result Raw × W) where
  -- `parseToolInput`
  unfoldable pub parse_tool_input : Raw → Result (ExtractedRecipe F)
  parse_tool_input raw = read_tool_input fl (unmarshal raw)

  unfoldable pub tool_called : Result Raw → Result (ExtractedRecipe F)
  tool_called (err e) = err e
  tool_called (ok raw) = parse_tool_input raw

  -- `LLMExtractor.Extract`
  unfoldable pub llm_extract : Text → W → Result (ExtractedRecipe F) × W
  llm_extract caption w =
      let answer = record_recipe (wrap_caption (cap_caption caption)) w in
      (tool_called answer.0, answer.1)
