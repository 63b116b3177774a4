-- ===== src/Db/Statements.antt =====
-- The statements of internal/db/sqlc that recipes are written and read with, by their SQL and the
-- constraints of internal/db/migrations. A statement that breaks a constraint fails with an error
-- of the server, `foreign`, and changes no table.
use recipe_reader.Common.{
  ℕ, ◌+◌, Bool, true, not, ◌&&◌, [], ◌∷◌, ◌++◌, map, Option, none, some, if◌then◌else◌, ◌==◌, any,
}
use recipe_reader.Text.{Text, text_eq}
use recipe_reader.Errors.{Sentinel, sentinel, foreign, ok, err}
use recipe_reader.Domain.{valid}
use recipe_reader.Db.Store.{
  NamedRow, RecipeRow, LineRow, FiledRow, Store, Session, Action, call, without, find, has_id,
}

abbrev pub is_named : Text → NamedRow → Bool
is_named name r = text_eq r.name name

abbrev pub new_row : ℕ → Text → NamedRow
new_row id name = record { id = id; name = name }

-- A row as an update with an id leaves it.
abbrev pub rewritten : ℕ → Text → Text → Text → Text → ℕ → RecipeRow → RecipeRow
rewritten id name instructions image_url status now r =
    if r.id == id
    then record r {
      name = name;
      instructions = instructions;
      image_url = image_url;
      status = status;
      updated_at = now;
    }
    else r

module _ {F : Type 0} where
  -- `FindOrCreateUnit`, and the same for categories and ingredients
  unfoldable pub find_or_create_unit : Text → Action F NamedRow
  find_or_create_unit name = call λ s. elim (find (is_named name) s.store.units) [
    | some r ↦ (ok r, s)
    | none ↦
        let r = new_row s.next_unit name in
        (
          ok r,
          record s {
            store = record (s.store) { units = s.store.units ++ r ∷ [] };
            next_unit = s.next_unit + 1;
          },
        )
  ]

  unfoldable pub find_or_create_category : Text → Action F NamedRow
  find_or_create_category name = call λ s. elim (find (is_named name) s.store.categories) [
    | some r ↦ (ok r, s)
    | none ↦
        let r = new_row s.next_category name in
        (
          ok r,
          record s {
            store = record (s.store) { categories = s.store.categories ++ r ∷ [] };
            next_category = s.next_category + 1;
          },
        )
  ]

  unfoldable pub find_or_create_ingredient : Text → Action F NamedRow
  find_or_create_ingredient name = call λ s. elim (find (is_named name) s.store.ingredients) [
    | some r ↦ (ok r, s)
    | none ↦
        let r = new_row s.next_ingredient name in
        (
          ok r,
          record s {
            store = record (s.store) { ingredients = s.store.ingredients ++ r ∷ [] };
            next_ingredient = s.next_ingredient + 1;
          },
        )
  ]

  -- `CreateRecipe`; no row comes back if the source is stored. The sequence moves on before the
  -- constraints are tested.
  unfoldable pub create_recipe : Text → Text → Text → Text → Text → Action F RecipeRow
  create_recipe name instructions image_url source status = call λ s.
      let row : RecipeRow = record {
        id = s.next_recipe;
        name = name;
        instructions = instructions;
        image_url = image_url;
        source = source;
        status = status;
        created_at = s.now;
        updated_at = s.now;
      } in
      let moved : Session F = record s { next_recipe = s.next_recipe + 1 } in
      if not (valid status)
      then (err (foreign 0), moved)
      else if any (λ (r : RecipeRow). text_eq r.source source) s.store.recipes
      then (err (sentinel Sentinel.no_rows), moved)
      else (
        ok row,
        record moved { store = record (s.store) { recipes = s.store.recipes ++ row ∷ [] } },
      )

  -- `UpdateRecipe`; no row comes back if there is none with the id.
  unfoldable pub update_recipe : ℕ → Text → Text → Text → Text → Action F RecipeRow
  update_recipe id name instructions image_url status = call λ s.
      elim (find (λ (r : RecipeRow). r.id == id) s.store.recipes) [
        | none ↦ (err (sentinel Sentinel.no_rows), s)
        | some r ↦
            let rewrite = rewritten id name instructions image_url status s.now in
            if not (valid status) then (err (foreign 0), s) else (
              ok (rewrite r),
              record s { store = record (s.store) { recipes = map rewrite s.store.recipes } },
            )
      ]

  -- `DeleteRecipe`: how many rows went; the rows of the two other tables go with theirs.
  unfoldable pub delete_recipe : ℕ → Action F ℕ
  delete_recipe id = call λ s.
      let gone = find (λ (r : RecipeRow). r.id == id) s.store.recipes in
      (
        ok (elim gone [ none ↦ 0 | some r ↦ 1 ]),
        record s {
          store = record (s.store) {
            recipes = without (λ (r : RecipeRow). r.id == id) s.store.recipes;
            lines = without (λ (l : LineRow F). l.recipe_id == id) s.store.lines;
            filed = without (λ (f : FiledRow). f.recipe_id == id) s.store.filed;
          };
        },
      )

  -- `DeleteRecipeIngredients`
  unfoldable pub delete_recipe_ingredients : ℕ → Action F Unit
  delete_recipe_ingredients id = call λ s. (
    ok tt,
    record s {
      store = record (s.store) {
        lines = without (λ (l : LineRow F). l.recipe_id == id) s.store.lines;
      };
    },
  )

  -- `DeleteRecipeCategories`
  unfoldable pub delete_recipe_categories : ℕ → Action F Unit
  delete_recipe_categories id = call λ s. (
    ok tt,
    record s {
      store = record (s.store) {
        filed = without (λ (f : FiledRow). f.recipe_id == id) s.store.filed;
      };
    },
  )

  abbrev pub has_recipe : Store F → ℕ → Bool
  has_recipe st id = any (λ (r : RecipeRow). r.id == id) st.recipes

  abbrev pub has_unit : Store F → Option ℕ → Bool
  has_unit st none = true
  has_unit st (some id) = has_id st.units id

  -- The position of a recipe's line is taken.
  abbrev pub is_taken : Store F → ℕ → ℕ → Bool
  is_taken st id position =
      any (λ (l : LineRow F). (l.recipe_id == id) && (l.position == position)) st.lines

  -- `AddRecipeIngredient`
  unfoldable pub add_recipe_ingredient : ℕ → ℕ → F → Option ℕ → ℕ → Action F (LineRow F)
  add_recipe_ingredient recipe_id ingredient_id amount unit_id position = call λ s.
      let row : LineRow F = record {
        id = s.next_line;
        recipe_id = recipe_id;
        ingredient_id = ingredient_id;
        amount = amount;
        unit_id = unit_id;
        position = position;
      } in
      let moved : Session F = record s { next_line = s.next_line + 1 } in
      if has_recipe (s.store) recipe_id
        && has_id s.store.ingredients ingredient_id
        && has_unit (s.store) unit_id
        && not (is_taken (s.store) recipe_id position)
      then (ok row, record moved { store = record (s.store) { lines = s.store.lines ++ row ∷ [] } })
      else (err (foreign 0), moved)

  -- `AddRecipeCategory`: a pair that is there stays as it is.
  unfoldable pub add_recipe_category : ℕ → ℕ → Action F Unit
  add_recipe_category recipe_id category_id = call λ s.
      let row : FiledRow = record { recipe_id = recipe_id; category_id = category_id } in
      if any (λ (f : FiledRow). (f.recipe_id == recipe_id) && (f.category_id == category_id))
        s.store.filed
      then (ok tt, s)
      else if has_recipe (s.store) recipe_id && has_id s.store.categories category_id
      then (ok tt, record s { store = record (s.store) { filed = s.store.filed ++ row ∷ [] } })
      else (err (foreign 0), s)
