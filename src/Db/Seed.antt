-- ===== src/Db/Seed.antt =====
-- internal/db/seed.go: the units and categories that every database starts with.
use recipe_reader.Common.{List, [], ◌∷◌}
use recipe_reader.Text.{Text, codes}
use recipe_reader.Errors.{wrap}
use recipe_reader.Db.Store.{Action, ◌>>=◌, pure, map_error}
use recipe_reader.Db.Statements.{find_or_create_unit, find_or_create_category}

-- `defaultUnits`
abbrev pub default_units : List Text
default_units =
    codes "g"
    ∷ codes "kg"
    ∷ codes "ml"
    ∷ codes "l"
    ∷ codes "Stück"
    ∷ codes "EL"
    ∷ codes "TL"
    ∷ codes "Prise"
    ∷ codes "Bund"
    ∷ codes "Dose"
    ∷ codes "Packung"
    ∷ []

-- `defaultCategories`
abbrev pub default_categories : List Text
default_categories =
    codes "Frühstück"
    ∷ codes "Hauptgericht"
    ∷ codes "Dessert"
    ∷ codes "Vorspeise"
    ∷ codes "Snack"
    ∷ codes "Vegetarisch"
    ∷ codes "Vegan"
    ∷ codes "Backen"
    ∷ codes "Getränk"
    ∷ []

module _ {F : Type 0} where
  -- The loops of `Seed`.
  unfoldable pub seed_units : List Text → Action F Unit
  seed_units [] = pure tt
  seed_units (name ∷ names) = do row ← map_error wrap (find_or_create_unit name); seed_units names

  unfoldable pub seed_categories : List Text → Action F Unit
  seed_categories [] = pure tt
  seed_categories (name ∷ names) = do
    row ← map_error wrap (find_or_create_category name)
    seed_categories names

  -- `Seed`
  unfoldable pub seed : Action F Unit
  seed = do done ← seed_units default_units; seed_categories default_categories
