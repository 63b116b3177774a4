-- ===== src/Repository/Recipes/Lines.antt =====
-- The loop over the ingredient lines of `writeAssociations`,
-- internal/repository/recipe_repository.go.
use recipe_reader.Common.{
  ℕ, ◌+◌, ◌≡◌, refl, ap, sym, ◌∙◌, inl, inr, not, ◌&&◌, List, [], ◌∷◌, ◌++◌, Bool-cases, append-nil,
  append_assoc,
}
use recipe_reader.Errors.{wrap}
use recipe_reader.Domain.{RecipeIngredient}
use recipe_reader.Db.Store.{LineRow, Session, has_id}
use recipe_reader.Db.Store.Post.{
  Post, returns, raises, Post-pure, Post-map_error, Post-call, Post-bind, Post-weaken,
}
use recipe_reader.Db.Statements.{add_recipe_ingredient, has_recipe, has_unit, is_taken}
use recipe_reader.Repository.Recipes.{int32_position, add_lines}

-- The row of a line at a position.
pub record IsLine {F : Type 0} (id i : ℕ) (ing : RecipeIngredient F) (row : LineRow F)
    : Type 0 where
  pub recipe_id : row.recipe_id ≡ id
  pub ingredient_id : row.ingredient_id ≡ ing.ingredient_id
  pub amount : row.amount ≡ ing.amount
  pub unit_id : row.unit_id ≡ ing.unit_id
  pub position : row.position ≡ int32_position i

-- The rows of the lines of a recipe, in order, with consecutive positions.
abbrev pub Numbered : {F : Type 0} → ℕ → ℕ → List (RecipeIngredient F) → List (LineRow F) → Type 0
Numbered id i [] [] = Unit
Numbered id i [] (row ∷ rows) = ⊥
Numbered id i (ing ∷ ings) [] = ⊥
Numbered id i (ing ∷ ings) (row ∷ rows) = IsLine id i ing row × Numbered id (i + 1) ings rows

-- The tables of the recipes and of their categories are the same.
pub record SameFiling {F : Type 0} (s t : Session F) : Type 0 where
  pub recipes : t.store.recipes ≡ s.store.recipes
  pub filed : t.store.filed ≡ s.store.filed

-- What adding lines does to a session.
pub record LinesAdded {F : Type 0} (id i : ℕ) (ings : List (RecipeIngredient F)) (s t : Session F)
    : Type 0 where
  pub rows : List (LineRow F)
  pub numbered : Numbered id i ings rows
  pub lines : t.store.lines ≡ s.store.lines ++ rows
  pub same : SameFiling s t

module _ {F : Type 0} where
  pub SameFiling-trans : (s t v : Session F) → SameFiling s t → SameFiling t v → SameFiling s v
  SameFiling-trans s t v h k = record { recipes = k.recipes ∙ h.recipes; filed = k.filed ∙ h.filed }

  add_recipe_ingredient-returns :
      (id i : ℕ) (ing : RecipeIngredient F) (s : Session F)
      → Post
          (λ row t.
            IsLine id i ing row × ((t.store.lines ≡ s.store.lines ++ (row ∷ [])) × SameFiling s t))
          (add_recipe_ingredient id ing.ingredient_id ing.amount ing.unit_id (int32_position i) s)
  unfolding add_recipe_ingredient
  add_recipe_ingredient-returns id i ing s = Post-call _ s λ t h.
      elim (Bool-cases (
        has_recipe (t.store) id
        && has_id t.store.ingredients ing.ingredient_id
        && has_unit (t.store) ing.unit_id
        && not (is_taken (t.store) id (int32_position i)))) [
          | inr e ↦ rw e raises
          | inl e ↦
              let row : LineRow F = record {
                id = t.next_line;
                recipe_id = id;
                ingredient_id = ing.ingredient_id;
                amount = ing.amount;
                unit_id = ing.unit_id;
                position = int32_position i;
              } in
              rw e (
                returns (
                  record {
                    recipe_id = refl;
                    ingredient_id = refl;
                    amount = refl;
                    unit_id = refl;
                    position = refl;
                  },
                  (
                    ap (λ st. st.lines ++ (row ∷ [])) h.store,
                    record {
                      recipes = ap (λ st. st.recipes) h.store;
                      filed = ap (λ st. st.filed) h.store;
                    },
                  ),
                ))
        ]

  pub add_lines-returns :
      (id i : ℕ) (ings : List (RecipeIngredient F)) (s : Session F)
      → Post (λ done t. LinesAdded id i ings s t) (add_lines id i ings s)
  unfolding add_lines
  add_lines-returns id i [] s = Post-pure tt s (record {
    rows = [];
    numbered = tt;
    lines = sym (append-nil s.store.lines);
    same = record { recipes = refl; filed = refl };
  })
  add_lines-returns id i (ing ∷ ings) s =
      Post-bind _ _ s (Post-map_error wrap _ s (add_recipe_ingredient-returns id i ing s))
        λ row t h. Post-weaken _ (add_lines-returns id (i + 1) ings t) λ done v k. record {
          rows = row ∷ k.rows;
          numbered = (h.0, k.numbered);
          lines =
              k.lines
              ∙ ap (λ ls. ls ++ k.rows) h.1.0
              ∙ append_assoc s.store.lines (row ∷ []) k.rows;
          same = SameFiling-trans s t v h.1.1 k.same;
        }
