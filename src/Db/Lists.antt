-- ===== src/Db/Lists.antt =====
-- The statements of internal/db/sqlc that list a lookup table, by their SQL: in the order of names.
use recipe_reader.Common.{Bool, List, sort_by}
use recipe_reader.Errors.{ok}
use recipe_reader.Db.Store.{NamedRow, Action, call}
use recipe_reader.Db.Reads.{Locale}

-- `ORDER BY name`
abbrev pub row_le : Locale → NamedRow → NamedRow → Bool
row_le locale x y = locale.text_le x.name y.name

module _ {F : Type 0} (locale : Locale) where
  -- `ListUnits`
  unfoldable pub list_units : Action F (List NamedRow)
  list_units = call λ s. (ok (sort_by (row_le locale) s.store.units), s)

  -- `ListCategories`
  unfoldable pub list_categories : Action F (List NamedRow)
  list_categories = call λ s. (ok (sort_by (row_le locale) s.store.categories), s)

  -- `ListIngredients`
  unfoldable pub list_ingredients : Action F (List NamedRow)
  list_ingredients = call λ s. (ok (sort_by (row_le locale) s.store.ingredients), s)
