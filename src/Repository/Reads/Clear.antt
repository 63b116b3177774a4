-- ===== src/Repository/Reads/Clear.antt =====
-- The reads of internal/repository/recipe_repository.go when no call fails: what they return, as a
-- function of the tables.
use recipe_reader.Common.{ℕ, ◌≡◌, refl, ◌∙◌, List, [], ◌∷◌, map, any, ◌==◌, select, sort_by, keyed}
use recipe_reader.Errors.{Error, wrap, ok}
use recipe_reader.Domain.{Recipe}
use recipe_reader.Db.Store.{RecipeRow, Store, Session, Action, ◌>>=◌, pure, call, map_error}
use recipe_reader.Db.Reads.{
  Locale, join_rows, line_key, line_le, filed_key, category_key, name_le, joined_line,
  joined_category, list_recipe_ingredients, list_ingredients_for_recipes, list_recipe_categories,
  list_categories_for_recipes,
}
use recipe_reader.Repository.Reads.{
  to_recipe_ingredient, base_recipe, grouped, assemble, assemble_rows,
}

module _ {F A : Type 0} where
  -- A call, when nothing is wrong outside the database.
  pub call-clear : (m : Action F A) (s : Session F) → s.faults ≡ [] → call m s ≡ m s
  unfolding call
  call-clear m s h = rw h refl

  pub map_error-clear :
      (f : Error → Error) (m : Action F A) (a : A) (s t : Session F)
      → m s ≡ (ok a, t)
      → map_error f m s ≡ (ok a, t)
  unfolding map_error
  map_error-clear f m a s t h = rw h refl

pub bind-clear :
    {F A B : Type 0} (m : Action F A) (f : A → Action F B) (a : A) (s t : Session F)
    → m s ≡ (ok a, t)
    → (m >>= f) s ≡ f a t
unfolding ◌>>=◌
bind-clear m f a s t h = rw h refl

module _ {F : Type 0} (locale : Locale) where
  -- The recipes of some rows, one after the other.
  unfoldable pub assemble_each : List RecipeRow → Action F (List (Recipe F))
  assemble_each [] = pure []
  assemble_each (row ∷ rows) = do
    recipe ← assemble locale row
    recipes ← assemble_each rows
    pure (recipe ∷ recipes)

  -- The recipe of a row in a store.
  abbrev pub assembled : Store F → RecipeRow → Recipe F
  assembled st row =
      base_recipe row
        (map to_recipe_ingredient (
          map (λ r. r.1)
            (join_rows (joined_line st)
              (sort_by line_le (select (λ l. line_key l == row.id) st.lines)))))
        (map (λ r. r.1)
          (sort_by (name_le locale)
            (join_rows (joined_category st) (select (λ f. filed_key f == row.id) st.filed))))

  list_recipe_ingredients-clear :
      (id : ℕ) (s : Session F)
      → s.faults ≡ []
      → list_recipe_ingredients id s ≡ (
        ok (
            map
              (λ r. r.1)
              (join_rows
                (joined_line (s.store))
                (sort_by line_le (select (λ l. line_key l == id) s.store.lines)))),
        s,
      )
  unfolding list_recipe_ingredients
  list_recipe_ingredients-clear id s h = call-clear _ s h

  list_recipe_categories-clear :
      (id : ℕ) (s : Session F)
      → s.faults ≡ []
      → list_recipe_categories locale id s ≡ (
        ok (
            map
              (λ r. r.1)
              (sort_by (name_le locale) (
                join_rows
                  (joined_category (s.store))
                  (select (λ f. filed_key f == id) s.store.filed)))),
        s,
      )
  unfolding list_recipe_categories
  list_recipe_categories-clear id s h = call-clear _ s h

  pub assemble-clear :
      (row : RecipeRow) (s : Session F)
      → s.faults ≡ []
      → assemble locale row s ≡ (ok (assembled (s.store) row), s)
  unfolding assemble pure
  assemble-clear row s h =
      bind-clear _ _ _ s s (map_error-clear wrap _ _ s s (list_recipe_ingredients-clear row.id s h))
      ∙ bind-clear _ _ _ s s
          (map_error-clear wrap _ _ s s (list_recipe_categories-clear row.id s h))

  pub assemble_each-clear :
      (rows : List RecipeRow) (s : Session F)
      → s.faults ≡ []
      → assemble_each rows s ≡ (ok (map (assembled (s.store)) rows), s)
  unfolding assemble_each pure
  assemble_each-clear [] s h = refl
  assemble_each-clear (row ∷ rows) s h =
      bind-clear _ _ _ s s (assemble-clear row s h)
      ∙ bind-clear _ _ _ s s (assemble_each-clear rows s h)

  list_ingredients_for_recipes-clear :
      (ids : List ℕ) (s : Session F)
      → s.faults ≡ []
      → list_ingredients_for_recipes ids s ≡ (
        ok (
            join_rows (joined_line (s.store)) (
              sort_by
                (keyed line_key line_le)
                (select (λ l. any (λ id. line_key l == id) ids) s.store.lines))),
        s,
      )
  unfolding list_ingredients_for_recipes
  list_ingredients_for_recipes-clear ids s h = call-clear _ s h

  list_categories_for_recipes-clear :
      (ids : List ℕ) (s : Session F)
      → s.faults ≡ []
      → list_categories_for_recipes locale ids s ≡ (
        ok (
            sort_by (keyed category_key (name_le locale)) (
              join_rows
                (joined_category (s.store))
                (select (λ f. any (λ id. filed_key f == id) ids) s.store.filed))),
        s,
      )
  unfolding list_categories_for_recipes
  list_categories_for_recipes-clear ids s h = call-clear _ s h

  -- The recipe of a row, out of the rows that a page's statements answer with.
  abbrev pub out_of_page : List ℕ → Store F → RecipeRow → Recipe F
  out_of_page ids st row =
      base_recipe row
        (grouped to_recipe_ingredient (λ j. [])
          (join_rows (joined_line st) (
            sort_by (keyed line_key line_le)
              (select (λ l. any (λ id. line_key l == id) ids) st.lines)))
          row.id)
        (grouped (λ c. c) (λ j. [])
          (sort_by (keyed category_key (name_le locale)) (
            join_rows (joined_category st)
              (select (λ f. any (λ id. filed_key f == id) ids) st.filed)))
          row.id)

  pub assemble_rows-clear :
      (rows : List RecipeRow) (s : Session F)
      → s.faults ≡ []
      → assemble_rows locale rows s
        ≡ (ok (map (out_of_page (map (λ (r : RecipeRow). r.id) rows) (s.store)) rows), s)
  unfolding assemble_rows pure
  assemble_rows-clear rows s h =
      let ids = map (λ (r : RecipeRow). r.id) rows in
      bind-clear _ _ _ s s
        (map_error-clear wrap _ _ s s (list_ingredients_for_recipes-clear ids s h))
      ∙ bind-clear _ _ _ s s
          (map_error-clear wrap _ _ s s (list_categories_for_recipes-clear ids s h))
