-- ===== src/Api/Dto.antt =====
-- internal/api/dto.go, and `dtoToRecipe` of internal/api/handlers_recipes.go. A reply is the value
-- that `writeJSON` encodes.
use recipe_reader.Common.{ℕ, Bool, List, map, Option}
use recipe_reader.Text.{Text}
use recipe_reader.Domain.{Category, RecipeIngredient, Recipe}

pub record IngredientDto (F : Type 0) : Type 0 where
  pub name : Text
  pub amount : F
  pub unit : Text

pub record CategoryDto : Type 0 where
  pub id : ℕ
  pub name : Text

pub record UnitDto : Type 0 where
  pub id : ℕ
  pub name : Text

pub record IngredientLookupDto : Type 0 where
  pub id : ℕ
  pub name : Text

pub record RecipeDto (F : Type 0) : Type 0 where
  pub id : ℕ
  pub name : Text
  pub instructions : Text
  pub image_url : Text
  pub source : Text
  pub status : Text
  pub ingredients : List (IngredientDto F)
  pub categories : List CategoryDto

-- The answer of the import's status; the fields that are left out of it are options.
pub record ImportStatus : Type 0 where
  pub running : Bool
  pub last_run : Text
  pub seen : ℕ
  pub imported : ℕ
  pub skipped : ℕ
  pub no_recipe : ℕ
  pub degraded : ℕ
  pub failed : ℕ
  pub error : Option (Text × Text)
  pub cooldown : Option (Text × ℕ)

pub data Reply (F : Type 0) : Type 0 where
  error_reply : Text → Reply F
  recipe_reply : RecipeDto F → Reply F
  page_reply : List (RecipeDto F) → ℕ → Reply F
  categories_reply : List CategoryDto → Reply F
  units_reply : List UnitDto → Reply F
  ingredients_reply : List IngredientLookupDto → Reply F
  started_reply : Reply F
  status_reply : ImportStatus → Reply F
  health_reply : Option Text → Reply F

abbrev pub category_dto : Category → CategoryDto
category_dto c = record { id = c.id; name = c.name }

abbrev pub dto_category : CategoryDto → Category
dto_category d = record { id = 0; name = d.name }

module _ {F : Type 0} where
  abbrev pub ingredient_dto : RecipeIngredient F → IngredientDto F
  ingredient_dto ri = record { name = ri.ingredient_name; amount = ri.amount; unit = ri.unit_name }

  -- `toRecipeDTO`
  unfoldable pub to_recipe_dto : Recipe F → RecipeDto F
  to_recipe_dto r = record {
    id = r.id;
    name = r.name;
    instructions = r.instructions;
    image_url = r.image_url;
    source = r.source;
    status = r.status;
    ingredients = map ingredient_dto r.ingredients;
    categories = map category_dto r.categories;
  }

  abbrev pub dto_ingredient : IngredientDto F → RecipeIngredient F
  dto_ingredient d = record {
    ingredient_id = 0;
    ingredient_name = d.name;
    amount = d.amount;
    unit_id = Option.none;
    unit_name = d.unit;
  }

  -- `dtoToRecipe`: names and no ids.
  unfoldable pub dto_to_recipe : RecipeDto F → Recipe F
  dto_to_recipe d = record {
    id = 0;
    name = d.name;
    instructions = d.instructions;
    image_url = d.image_url;
    source = d.source;
    status = d.status;
    ingredients = map dto_ingredient d.ingredients;
    categories = map dto_category d.categories;
    created_at = 0;
    updated_at = 0;
  }
