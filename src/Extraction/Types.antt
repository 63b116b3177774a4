-- ===== src/Extraction/Types.antt =====
-- internal/extraction/extractor.go: what an extractor returns.
use recipe_reader.Common.{Bool, List}
use recipe_reader.Text.{Text}
use recipe_reader.Errors.{Result}

pub record ExtractedIngredient (F : Type 0) : Type 0 where
  pub name : Text
  pub amount : F
  pub unit : Text

pub record ExtractedRecipe (F : Type 0) : Type 0 where
  pub name : Text
  pub ingredients : List (ExtractedIngredient F)
  pub instructions : Text
  pub categories : List Text
  pub confidence : F
  pub degraded : Bool

-- The interface `Extractor`. An extractor may call out, so it moves the state `W` of the world on.
abbrev pub Extractor : Type 0 → Type 0 → Type 0
Extractor F W = Text → W → Result (ExtractedRecipe F) × W
