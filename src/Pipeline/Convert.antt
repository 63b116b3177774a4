-- ===== src/Pipeline/Convert.antt =====
-- `toRecipe` and `publishThreshold`, internal/pipeline/pipeline.go.
pub mod Bounds
use recipe_reader.Common.{
  ℕ, ◌≡◌, refl, ◌≢◌, ◌⊎◌, inl, inr, ◌≤◌, Bool, true, false, List, [], ◌∷◌, map, Option, none, some,
  if◌then◌else◌, All, arith, Bool-cases,
}
use recipe_reader.Text.{Text, Unicode, codes, is_empty, rune_count}
use recipe_reader.Float.{Float}
use recipe_reader.Errors.{ok}
use recipe_reader.Domain.{
  Recipe, RecipeIngredient, RecipeStatus, Category, status_needs_review, status_published,
}
use recipe_reader.Extraction.Types.{ExtractedRecipe, ExtractedIngredient}
use recipe_reader.Instagram.Types.{SavedPost}
use recipe_reader.Pipeline.Sanitize.{
  sanitize_name, max_recipe_name_runes, max_ingredient_name_runes, max_unit_name_runes,
  rune_count-sanitize_name-le, sanitize_name-IsLabel, IsLabel,
}
use recipe_reader.Pipeline.Vocabulary.{
  Vocabulary, resolve, vocabulary_of, IsListed, IsProposed, resolve-IsListed,
}

abbrev pub untitled_recipe : Text
untitled_recipe = codes "Unbenanntes Rezept"

-- The two settings of a `Pipeline` that decide about publication.
pub record Thresholds (F : Type 0) : Type 0 where
  pub threshold : F
  pub publish_threshold : F

module _ {F : Type 0} (fl : Float F) where
  -- `publishThreshold`: unset, which is not above zero, means the older setting.
  unfoldable pub effective_threshold : Thresholds F → F
  effective_threshold t =
      if fl.lt fl.zero t.publish_threshold then t.publish_threshold else t.threshold

  unfoldable pub status_for : Thresholds F → F → RecipeStatus
  unfolding effective_threshold
  status_for t confidence =
      if fl.lt confidence (effective_threshold t) then status_needs_review else status_published

unfoldable pub recipe_name : Text → Text
recipe_name name =
    let kept = sanitize_name name max_recipe_name_runes in
    if is_empty kept then untitled_recipe else kept

abbrev pub category_of : Text → Category
category_of name = record { id = 0; name = name }

module _ {F : Type 0} where
  -- The loop over the ingredients: one without a name is left out.
  unfoldable pub to_ingredients : List (ExtractedIngredient F) → List (RecipeIngredient F)
  to_ingredients [] = []
  to_ingredients (ing ∷ ings) =
      let rest = to_ingredients ings in
      let name = sanitize_name ing.name max_ingredient_name_runes in
      if is_empty name
      then rest
      else record {
        ingredient_id = 0;
        ingredient_name = name;
        amount = ing.amount;
        unit_id = none;
        unit_name = sanitize_name ing.unit max_unit_name_runes;
      }
        ∷ rest

  -- `toRecipe`
  unfoldable pub to_recipe :
      Unicode
      → Float F
      → Thresholds F
      → SavedPost
      → ExtractedRecipe F
      → Option Vocabulary
      → Recipe F
  unfolding status_for recipe_name to_ingredients
  to_recipe u fl t post ex vocab = record {
    id = 0;
    name = recipe_name ex.name;
    instructions = ex.instructions;
    image_url = post.image_url;
    source = post.source;
    status = status_for fl t ex.confidence;
    ingredients = to_ingredients ex.ingredients;
    categories = map category_of (resolve u vocab ex.categories);
    created_at = 0;
    updated_at = 0;
  }
