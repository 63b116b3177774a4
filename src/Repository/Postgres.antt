-- ===== src/Repository/Postgres.antt =====
-- `NewRecipeRepository` and `NewLookupRepository` of internal/repository: the interfaces over one
-- session with the database.
use recipe_reader.Db.Store.{Session}
use recipe_reader.Db.Reads.{Locale}
use recipe_reader.Repository.Interfaces.{RecipeRepository, LookupRepository}
use recipe_reader.Repository.Recipes.{create, update, delete}
use recipe_reader.Repository.Reads.{get_by_id, get_by_source, search}
use recipe_reader.Repository.Lookups.{
  list_categories, list_units, list_ingredients, find_or_create_category, find_or_create_unit,
  find_or_create_ingredient,
}

-- `NewRecipeRepository`
abbrev pub recipe_repository : {F : Type 0} → Locale → RecipeRepository F (Session F)
recipe_repository locale = record {
  create = create;
  update = update;
  get_by_id = get_by_id locale;
  get_by_source = get_by_source locale;
  delete = delete;
  search = search locale;
}

-- `NewLookupRepository`
abbrev pub lookup_repository : {F : Type 0} → Locale → LookupRepository (Session F)
lookup_repository locale = record {
  list_categories = list_categories locale;
  list_units = list_units locale;
  list_ingredients = list_ingredients locale;
  find_or_create_category = find_or_create_category;
  find_or_create_unit = find_or_create_unit;
  find_or_create_ingredient = find_or_create_ingredient;
}
