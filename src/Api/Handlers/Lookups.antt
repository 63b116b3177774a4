-- ===== src/Api/Handlers/Lookups.antt =====
-- internal/api/handlers_lookups.go
use recipe_reader.Common.{Option, List, map}
use recipe_reader.Text.{codes}
use recipe_reader.Errors.{Error, Result, ok, err}
use recipe_reader.Domain.{Category, MeasureUnit, Ingredient}
use recipe_reader.Repository.Interfaces.{LookupRepository}
use recipe_reader.Api.Http.{Request, ResponseWriter, Panic, Handler}
use recipe_reader.Api.Dto.{
  UnitDto, IngredientLookupDto, Reply, categories_reply, units_reply, ingredients_reply,
  category_dto,
}
use recipe_reader.Api.Handlers.{answer, write_internal_error}

abbrev pub unit_dto : MeasureUnit → UnitDto
unit_dto u = record { id = u.id; name = u.name }

abbrev pub ingredient_lookup_dto : Ingredient → IngredientLookupDto
ingredient_lookup_dto i = record { id = i.id; name = i.name }

module _ {F S W : Type 0} (out : ResponseWriter (Reply F) S)
    (log_failure : Request → Error → W → W) where
  abbrev pub categories_listed : Request → Result (List Category) → S → W → (Option Panic × S) × W
  categories_listed r (ok rows) s w =
      answer out log_failure 200 (categories_reply (map category_dto rows)) s w
  categories_listed r (err e) s w =
      write_internal_error out log_failure r (codes "failed to list categories") e s w

  abbrev pub units_listed : Request → Result (List MeasureUnit) → S → W → (Option Panic × S) × W
  units_listed r (ok rows) s w = answer out log_failure 200 (units_reply (map unit_dto rows)) s w
  units_listed r (err e) s w =
      write_internal_error out log_failure r (codes "failed to list units") e s w

  abbrev pub ingredients_listed :
      Request → Result (List Ingredient) → S → W → (Option Panic × S) × W
  ingredients_listed r (ok rows) s w =
      answer out log_failure 200 (ingredients_reply (map ingredient_lookup_dto rows)) s w
  ingredients_listed r (err e) s w =
      write_internal_error out log_failure r (codes "failed to list ingredients") e s w

  module _ (lookups : LookupRepository W) where
    -- `handleListCategories`
    unfoldable pub handle_list_categories : Handler S W
    handle_list_categories r s w =
        let (res, w') = lookups.list_categories w in categories_listed r res s w'

    -- `handleListUnits`
    unfoldable pub handle_list_units : Handler S W
    handle_list_units r s w = let (res, w') = lookups.list_units w in units_listed r res s w'

    -- `handleListIngredients`
    unfoldable pub handle_list_ingredients : Handler S W
    handle_list_ingredients r s w =
        let (res, w') = lookups.list_ingredients w in ingredients_listed r res s w'
