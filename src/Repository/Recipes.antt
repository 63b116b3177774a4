-- ===== src/Repository/Recipes.antt =====
-- The writes of internal/repository/recipe_repository.go: a transaction each, over the statements
-- of Db/Statements. No other transaction commits while one runs, and a commit that reports an
-- error has changed nothing.
pub mod Names
pub mod Resolved
pub mod Lookups
pub mod Lines
pub mod Filing
pub mod Keeping
pub mod Associations
pub mod Writes
pub mod Updates
pub mod Atomicity
pub mod Duplicates
pub mod Vocabulary
pub mod Resolution
pub mod Success
pub mod Storing
use recipe_reader.Common.{
  ℕ, ◌+◌, ◌%◌, ◌^◌, Bool, not, ◌&&◌, List, [], ◌∷◌, Option, none, some, if◌then◌else◌, ◌==◌,
}
use recipe_reader.Text.{is_empty}
use recipe_reader.Errors.{Error, Sentinel, sentinel, wrap, errors_is, Result, ok, err}
use recipe_reader.Domain.{Category, RecipeIngredient, Recipe}
use recipe_reader.Db.Store.{Store, Session, Action, ◌>>=◌, ◌>>◌, pure, raise, call, map_error}
use recipe_reader.Db.Statements.{
  find_or_create_category, find_or_create_ingredient, find_or_create_unit, create_recipe,
  update_recipe, delete_recipe, delete_recipe_ingredients, delete_recipe_categories,
  add_recipe_ingredient, add_recipe_category,
}

-- `int32(i)`, as the distance from the least number of 32 bits.
abbrev pub int32_position : ℕ → ℕ
int32_position i = (i + 2 ^ 31) % 2 ^ 32

-- The errors that one statement's are returned as: a missing row by a sentinel of its own.
abbrev pub or_sentinel : Sentinel → Error → Error
or_sentinel t e = if errors_is e Sentinel.no_rows then sentinel t else wrap e

-- A commit's error is wrapped, and `tx.Rollback` runs if no commit went well.
abbrev pub closed :
    {F A : Type 0} → (Error → Error) → Store F → Result A → Session F → Result A × Session F
closed f before (ok a) s = (ok a, s)
closed f before (err e) s = (err (f e), record s { store = before })

module _ {F A : Type 0} where
  -- `tx.Commit`
  unfoldable pub committed : Store F → A → Action F A
  committed before a s = let (r, s') = call (pure a) s in closed wrap before r s'

  abbrev pub ended : Store F → Result A → Action F A
  ended before (ok a) s = committed before a s
  ended before (err e) s = (err e, record s { store = before })

  -- The work between `pool.Begin` and the return.
  unfoldable pub worked : Action F A → Action F A
  worked work s = let (r, s') = work s in ended (s.store) r s'

  unfoldable pub transact : Action F A → Action F A
  transact work = map_error wrap (call (pure tt)) >> worked work

abbrev no_unit : Option ℕ → Bool
no_unit none = Bool.true
no_unit (some id) = Bool.false

module _ {F : Type 0} where
  -- `resolveLookups`
  unfoldable pub resolve_category : Category → Action F Category
  resolve_category cat = if not (cat.id == 0) then pure cat else (do
    row ← map_error wrap (find_or_create_category cat.name)
    pure (record { id = row.id; name = row.name }))

  unfoldable pub resolve_ingredient : RecipeIngredient F → Action F (RecipeIngredient F)
  resolve_ingredient ing =
      if ing.ingredient_id == 0
      then (do
        row ← map_error wrap (find_or_create_ingredient ing.ingredient_name)
        pure (record ing { ingredient_id = row.id; ingredient_name = row.name }))
      else pure ing

  unfoldable pub resolve_unit : RecipeIngredient F → Action F (RecipeIngredient F)
  resolve_unit ing =
      if no_unit ing.unit_id && not (is_empty ing.unit_name)
      then (do
        row ← map_error wrap (find_or_create_unit ing.unit_name)
        pure (record ing { unit_id = some row.id; unit_name = row.name }))
      else pure ing

  unfoldable pub resolve_categories : List Category → Action F (List Category)
  resolve_categories [] = pure []
  resolve_categories (cat ∷ cats) = do
    cat' ← resolve_category cat
    cats' ← resolve_categories cats
    pure (cat' ∷ cats')

  unfoldable pub resolve_ingredients :
      List (RecipeIngredient F) → Action F (List (RecipeIngredient F))
  resolve_ingredients [] = pure []
  resolve_ingredients (ing ∷ ings) = do
    named ← resolve_ingredient ing
    ing' ← resolve_unit named
    ings' ← resolve_ingredients ings
    pure (ing' ∷ ings')

  -- `resolveLookups`
  unfoldable pub resolve_lookups : Recipe F → Action F (Recipe F)
  resolve_lookups recipe = do
    cats ← resolve_categories recipe.categories
    ings ← resolve_ingredients recipe.ingredients
    pure (record recipe { categories = cats; ingredients = ings })

  -- The loops of `writeAssociations`.
  unfoldable pub add_lines : ℕ → ℕ → List (RecipeIngredient F) → Action F Unit
  add_lines id i [] = pure tt
  add_lines id i (ing ∷ ings) = do
    row ←
        map_error wrap
          (add_recipe_ingredient id ing.ingredient_id ing.amount ing.unit_id (int32_position i))
    add_lines id (i + 1) ings

  unfoldable pub add_categories : ℕ → List Category → Action F Unit
  add_categories id [] = pure tt
  add_categories id (cat ∷ cats) = do
    done ← map_error wrap (add_recipe_category id cat.id)
    add_categories id cats

  -- `writeAssociations`
  unfoldable pub write_associations : Recipe F → Action F Unit
  write_associations recipe = do
    cleared ← map_error wrap (delete_recipe_ingredients recipe.id)
    added ← add_lines recipe.id 0 recipe.ingredients
    emptied ← map_error wrap (delete_recipe_categories recipe.id)
    add_categories recipe.id recipe.categories

  unfoldable pub associated : Recipe F → Action F (Recipe F)
  associated staged = do
    resolved ← resolve_lookups staged
    written ← write_associations resolved
    pure resolved

  -- The work of `Create`; the copy of `stage` is the value itself.
  unfoldable pub created : Recipe F → Action F (Recipe F)
  created staged = do
    row ←
        map_error (or_sentinel Sentinel.duplicate_source) (
          create_recipe staged.name staged.instructions staged.image_url staged.source
            staged.status)
    associated
        (record staged { id = row.id; created_at = row.created_at; updated_at = row.updated_at })

  unfoldable pub updated : Recipe F → Action F (Recipe F)
  updated staged = do
    row ←
        map_error (or_sentinel Sentinel.not_found)
          (update_recipe staged.id staged.name staged.instructions staged.image_url staged.status)
    associated (record staged { created_at = row.created_at; updated_at = row.updated_at })

  -- The error, and the recipe of the caller: the staged one only if all went well.
  abbrev pub handed : Recipe F → Result (Recipe F) → Option Error × Recipe F
  handed recipe (ok staged) = (none, staged)
  handed recipe (err e) = (some e, recipe)

  -- `Create`
  unfoldable pub create : Recipe F → Session F → (Option Error × Recipe F) × Session F
  create recipe s = let (r, s') = transact (created recipe) s in (handed recipe r, s')

  -- `Update`
  unfoldable pub update : Recipe F → Session F → (Option Error × Recipe F) × Session F
  update recipe s = let (r, s') = transact (updated recipe) s in (handed recipe r, s')

  -- `Delete`
  unfoldable pub delete : ℕ → Action F Unit
  delete id = do
    n ← map_error wrap (delete_recipe id)
    if n == 0 then raise (sentinel Sentinel.not_found) else pure tt
