-- ===== src/Repository/Lookups.antt =====
-- internal/repository/lookup_repository.go, over the statements of Db.
pub mod Seeding
use recipe_reader.Common.{List, map}
use recipe_reader.Text.{Text}
use recipe_reader.Errors.{wrap}
use recipe_reader.Domain.{Category, MeasureUnit, Ingredient}
use recipe_reader.Db.Store.{NamedRow, Action, ◌>>=◌, pure, map_error}
use recipe_reader.Db.Statements
use recipe_reader.Db.Lists
use recipe_reader.Db.Reads.{Locale}

abbrev pub to_category : NamedRow → Category
to_category row = record { id = row.id; name = row.name }

abbrev pub to_unit : NamedRow → MeasureUnit
to_unit row = record { id = row.id; name = row.name }

abbrev pub to_ingredient : NamedRow → Ingredient
to_ingredient row = record { id = row.id; name = row.name }

module _ {F : Type 0} (locale : Locale) where
  -- `ListCategories`
  unfoldable pub list_categories : Action F (List Category)
  list_categories = do
    rows ← map_error wrap (Lists.list_categories locale)
    pure (map to_category rows)

  -- `ListUnits`
  unfoldable pub list_units : Action F (List MeasureUnit)
  list_units = do rows ← map_error wrap (Lists.list_units locale); pure (map to_unit rows)

  -- `ListIngredients`
  unfoldable pub list_ingredients : Action F (List Ingredient)
  list_ingredients = do
    rows ← map_error wrap (Lists.list_ingredients locale)
    pure (map to_ingredient rows)

module _ {F : Type 0} where
  -- `FindOrCreateCategory`
  unfoldable pub find_or_create_category : Text → Action F Category
  find_or_create_category name = do
    row ← map_error wrap (Statements.find_or_create_category name)
    pure (to_category row)

  -- `FindOrCreateUnit`
  unfoldable pub find_or_create_unit : Text → Action F MeasureUnit
  find_or_create_unit name = do
    row ← map_error wrap (Statements.find_or_create_unit name)
    pure (to_unit row)

  -- `FindOrCreateIngredient`
  unfoldable pub find_or_create_ingredient : Text → Action F Ingredient
  find_or_create_ingredient name = do
    row ← map_error wrap (Statements.find_or_create_ingredient name)
    pure (to_ingredient row)
