-- ===== src/Repository/Reads/Assembly.antt =====
-- A page of recipes, assembled by two statements, is what its recipes are one by one,
-- internal/repository/recipe_repository.go.
use recipe_reader.Common.{
  ℕ, ◌≡◌, refl, ap, sym, true, List, [], ◌∷◌, map, any, ◌==◌, select, equal_refl, or_true, All,
  All-weaken, sort_by, keyed,
}
use recipe_reader.Domain.{Category}
use recipe_reader.Db.Store.{RecipeRow, Store, Session, pure}
use recipe_reader.Db.Reads.{
  Locale, join_rows, line_key, line_le, filed_key, category_key, name_le, joined_line,
  joined_category,
}
use recipe_reader.Repository.Reads.{to_recipe_ingredient, assemble_page}
use recipe_reader.Repository.Reads.Pages.{LocaleLaws, grouped-select, page-lines, page-categories}
use recipe_reader.Repository.Reads.Clear.{
  assemble_rows-clear, out_of_page, assemble_each-clear, assembled, assemble_each,
}

map-id : {A : Type 0} (xs : List A) → map (λ x. x) xs ≡ xs
map-id [] = refl
map-id (x ∷ xs) = ap (λ ys. x ∷ ys) (map-id xs)

-- The ids of some rows hold that of each of them.
ids-any :
    (rows : List RecipeRow)
    → All
        (λ (r : RecipeRow). any (λ j. r.id == j) (map (λ (r' : RecipeRow). r'.id) rows) ≡ true)
        rows
ids-any [] = tt
ids-any (row ∷ rows) = (
  rw (equal_refl row.id) refl,
  All-weaken rows (λ r h. rw h (or_true (r.id == row.id))) (ids-any rows),
)

module _ {F : Type 0} (locale : Locale) (laws : LocaleLaws locale) where
  out_of_page-assembled :
      (ids : List ℕ) (st : Store F) (row : RecipeRow)
      → any (λ j. row.id == j) ids ≡ true
      → out_of_page locale ids st row ≡ assembled locale st row
  out_of_page-assembled ids st row h =
      rw
        (
          grouped-select to_recipe_ingredient (λ j. [])
              (join_rows (joined_line st) (
                sort_by (keyed line_key line_le)
                  (select (λ l. any (λ id. line_key l == id) ids) st.lines)))
              row.id,
          page-lines st row.id ids h,
          grouped-select (λ (c : Category). c) (λ j. [])
              (sort_by (keyed category_key (name_le locale)) (
                join_rows (joined_category st)
                  (select (λ f. any (λ id. filed_key f == id) ids) st.filed)))
              row.id,
          page-categories locale laws st row.id ids h,
          map-id (
              map (λ r. r.1)
                (sort_by (name_le locale)
                  (join_rows (joined_category st) (select (λ f. filed_key f == row.id) st.filed)))),
        )
        refl

  map-assembled :
      (ids : List ℕ) (st : Store F) (rows : List RecipeRow)
      → All (λ (r : RecipeRow). any (λ j. r.id == j) ids ≡ true) rows
      → map (out_of_page locale ids st) rows ≡ map (assembled locale st) rows
  map-assembled ids st [] h = refl
  map-assembled ids st (row ∷ rows) h =
      rw (out_of_page-assembled ids st row h.0, map-assembled ids st rows h.1) refl

  -- A page of recipes that is assembled by two statements for all of its rows holds what assembling
  -- its rows one by one gives, in their order, whatever the rows and the tables are. The condition
  -- is that no call fails; the order that the database has on texts is taken to be total and
  -- transitive.
  pub assemble_page-assemble_each :
      (rows : List RecipeRow) (s : Session F)
      → s.faults ≡ []
      → assemble_page locale rows s ≡ assemble_each locale rows s
  unfolding assemble_page pure
  assemble_page-assemble_each [] s h = sym (assemble_each-clear locale [] s h)
  assemble_page-assemble_each (row ∷ rows) s h =
      let all_rows = row ∷ rows in
      rw
        (
          assemble_rows-clear locale all_rows s h,
          assemble_each-clear locale all_rows s h,
          map-assembled (map (λ (r : RecipeRow). r.id) all_rows) (s.store) all_rows
              (ids-any all_rows),
        )
        refl
