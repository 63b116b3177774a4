-- ===== src/Repository/Interfaces.antt =====
-- The interfaces of internal/repository that the API takes, over a world `W`. An id that is
-- passed to the repository is a natural number: no row has an id below 1.
use recipe_reader.Common.{ℕ, List, Option}
use recipe_reader.Text.{Text}
use recipe_reader.Errors.{Error, Result}
use recipe_reader.Domain.{Category, MeasureUnit, Ingredient, Recipe}
use recipe_reader.Repository.Reads.{SearchQuery}

-- `RecipeRepository`; the recipe that `create` and `update` are passed is theirs to fill in.
pub record RecipeRepository (F W : Type 0) : Type 0 where
  pub create : Recipe F → W → (Option Error × Recipe F) × W
  pub update : Recipe F → W → (Option Error × Recipe F) × W
  pub get_by_id : ℕ → W → Result (Recipe F) × W
  pub get_by_source : Text → W → Result (Recipe F) × W
  pub delete : ℕ → W → Result {0} Unit × W
  pub search : SearchQuery → W → Result (List (Recipe F) × ℕ) × W

-- `LookupRepository`
pub record LookupRepository (W : Type 0) : Type 0 where
  pub list_categories : W → Result (List Category) × W
  pub list_units : W → Result (List MeasureUnit) × W
  pub list_ingredients : W → Result (List Ingredient) × W
  pub find_or_create_category : Text → W → Result Category × W
  pub find_or_create_unit : Text → W → Result MeasureUnit × W
  pub find_or_create_ingredient : Text → W → Result Ingredient × W
