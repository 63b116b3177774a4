-- ===== src/Repository/Reads.antt =====
-- The reads of internal/repository/recipe_repository.go.
pub mod Pages
pub mod Clear
pub mod Assembly
pub mod Paging
pub mod Removal
use recipe_reader.Common.{
  ℕ, ◌-◌, ◌*◌, ◌/◌, ◌%◌, ◌^◌, ℤ, pos, negsuc, ◌||◌, List, [], ◌∷◌, ◌++◌, map, Option, none, some,
  if◌then◌else◌, ltb, ◌==◌,
}
use recipe_reader.Text.{Text, is_empty}
use recipe_reader.Errors.{Sentinel, wrap}
use recipe_reader.Domain.{RecipeStatus, Category, RecipeIngredient, Recipe}
use recipe_reader.Db.Store.{RecipeRow, Action, ◌>>=◌, pure, map_error}
use recipe_reader.Db.Reads.{
  Locale, LineView, Filter, list_recipe_ingredients, list_ingredients_for_recipes,
  list_recipe_categories, list_categories_for_recipes, get_recipe, get_recipe_by_source,
  count_recipes, search_recipes,
}
use recipe_reader.Repository.Recipes.{or_sentinel}

-- `SearchQuery`
pub record SearchQuery : Type 0 where
  pub text : Text
  pub category_id : Option ℕ
  pub status : Option RecipeStatus
  pub page : ℤ
  pub page_size : ℤ

-- `toRecipeIngredient`
abbrev pub to_recipe_ingredient : {F : Type 0} → LineView F → RecipeIngredient F
to_recipe_ingredient v = record {
  ingredient_id = v.ingredient_id;
  ingredient_name = v.ingredient_name;
  amount = v.amount;
  unit_id = v.unit_id;
  unit_name = v.unit_name;
}

-- `baseRecipe`, with the associations that are filled in behind it.
abbrev pub base_recipe :
    {F : Type 0} → RecipeRow → List (RecipeIngredient F) → List Category → Recipe F
base_recipe row ings cats = record {
  id = row.id;
  name = row.name;
  instructions = row.instructions;
  image_url = row.image_url;
  source = row.source;
  status = row.status;
  ingredients = ings;
  categories = cats;
  created_at = row.created_at;
  updated_at = row.updated_at;
}

-- The loops `m[row.RecipeID] = append(m[row.RecipeID], …)`.
unfoldable pub grouped : {A B : Type 0} → (A → B) → (ℕ → List B) → List (ℕ × A) → ℕ → List B
grouped f m [] = m
grouped f m (r ∷ rows) = grouped f (λ j. if r.0 == j then m j ++ f (r.1) ∷ [] else m j) rows

-- `int32(n)`
abbrev pub int32 : ℕ → ℤ
int32 n = if ltb (n % 2 ^ 32) (2 ^ 31) then pos (n % 2 ^ 32) else negsuc (2 ^ 32 - 1 - n % 2 ^ 32)

abbrev pub max_int32 : ℕ
max_int32 = 2147483647

abbrev pub clamp_page : ℤ → ℕ
clamp_page (pos n) = if ltb n 1 then 1 else n
clamp_page (negsuc n) = 1

abbrev pub clamp_page_size : ℤ → ℕ
clamp_page_size (pos n) = if ltb n 1 || ltb 100 n then 20 else n
clamp_page_size (negsuc n) = 20

-- The filters of a query; an empty text filters nothing.
abbrev pub filter_of : SearchQuery → Filter
filter_of q = record {
  text = if is_empty q.text then none else some q.text;
  category_id = q.category_id;
  status = q.status;
}

module _ {F : Type 0} (locale : Locale) where
  -- `assemble`
  unfoldable pub assemble : RecipeRow → Action F (Recipe F)
  assemble row = do
    lines ← map_error wrap (list_recipe_ingredients row.id)
    cats ← map_error wrap (list_recipe_categories locale row.id)
    pure (base_recipe row (map to_recipe_ingredient lines) cats)

  -- `GetByID`
  unfoldable pub get_by_id : ℕ → Action F (Recipe F)
  get_by_id id = do row ← map_error (or_sentinel Sentinel.not_found) (get_recipe id); assemble row

  -- `GetBySource`
  unfoldable pub get_by_source : Text → Action F (Recipe F)
  get_by_source source = do
    row ← map_error (or_sentinel Sentinel.not_found) (get_recipe_by_source source)
    assemble row

  -- `assemblePage` of some rows.
  unfoldable pub assemble_rows : List RecipeRow → Action F (List (Recipe F))
  assemble_rows rows = do
    lines ← map_error wrap (list_ingredients_for_recipes (map (λ (r : RecipeRow). r.id) rows))
    cats ← map_error wrap (list_categories_for_recipes locale (map (λ (r : RecipeRow). r.id) rows))
    pure (
        map
          (λ (r : RecipeRow).
            base_recipe r (grouped to_recipe_ingredient (λ j. []) lines r.id)
              (grouped (λ c. c) (λ j. []) cats r.id))
          rows)

  -- `assemblePage`
  unfoldable pub assemble_page : List RecipeRow → Action F (List (Recipe F))
  assemble_page [] = pure []
  assemble_page (row ∷ rows) = assemble_rows (row ∷ rows)

  -- The page behind the test on the offset.
  unfoldable pub found_page : SearchQuery → ℕ → ℕ → ℕ → Action F (List (Recipe F) × ℕ)
  found_page q total page size = if ltb (max_int32 / size) (page - 1) then pure ([], total) else (do
    rows ←
        map_error wrap
          (search_recipes locale (filter_of q) (int32 size) (int32 ((page - 1) * size)))
    recipes ← assemble_page rows
    pure (recipes, total))

  -- `Search`
  unfoldable pub search : SearchQuery → Action F (List (Recipe F) × ℕ)
  search q = do
    total ← map_error wrap (count_recipes locale (filter_of q))
    found_page q total (clamp_page q.page) (clamp_page_size q.page_size)
