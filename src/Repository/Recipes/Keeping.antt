-- ===== src/Repository/Recipes/Keeping.antt =====
-- `writeAssociations` of internal/repository/recipe_repository.go loses no row of the lookup tables.
use recipe_reader.Common.{ℕ, ◌+◌, inl, inr, not, ◌&&◌, List, [], ◌∷◌, Option, Bool-cases}
use recipe_reader.Errors.{wrap}
use recipe_reader.Domain.{Category, RecipeIngredient, Recipe}
use recipe_reader.Db.Store.{Session, Action, ◌>>=◌, has_id, map_error}
use recipe_reader.Db.Store.Post.{
  Post, returns, raises, Post-pure, Post-map_error, Post-call, Post-bind, Post-weaken,
}
use recipe_reader.Db.Statements.{
  add_recipe_ingredient, add_recipe_category, delete_recipe_ingredients, delete_recipe_categories,
  has_recipe, has_unit, is_taken,
}
use recipe_reader.Repository.Recipes.{add_lines, add_categories, write_associations}
use recipe_reader.Repository.Recipes.Names.{
  KeepsNames, KeepsNames-refl, KeepsNames-trans, KeepsNames-Alike,
}
use recipe_reader.Repository.Recipes.Filing.{is_filed}

module _ {F : Type 0} where
  -- An action that loses no name.
  abbrev Keeps : {A : Type 0} → Action F A → Type 0
  Keeps {A} m = (s : Session F) → Post (λ (a : A) t. KeepsNames (s.store) (t.store)) (m s)

  Keeps-bind :
      {A B : Type 0} (m : Action F A) (f : A → Action F B)
      → Keeps m
      → ((a : A) → Keeps (f a))
      → Keeps (m >>= f)
  Keeps-bind m f h k s =
      Post-bind m f s (h s)
        λ a t e. Post-weaken _ (k a t) λ b v l. KeepsNames-trans (s.store) (t.store) (v.store) e l

  Keeps-map_error : {A : Type 0} (m : Action F A) → Keeps m → Keeps (map_error wrap m)
  Keeps-map_error m h s = Post-map_error wrap m s (h s)

  delete_recipe_ingredients-Keeps : (id : ℕ) → Keeps (delete_recipe_ingredients id)
  unfolding delete_recipe_ingredients
  delete_recipe_ingredients-Keeps id s = Post-call _ s λ t h. returns (
      let n = KeepsNames-Alike s t h in
      record { units = n.units; categories = n.categories; ingredients = n.ingredients })

  delete_recipe_categories-Keeps : (id : ℕ) → Keeps (delete_recipe_categories id)
  unfolding delete_recipe_categories
  delete_recipe_categories-Keeps id s = Post-call _ s λ t h. returns (
      let n = KeepsNames-Alike s t h in
      record { units = n.units; categories = n.categories; ingredients = n.ingredients })

  add_recipe_ingredient-Keeps :
      (id ingredient : ℕ) (amount : F) (unit : Option ℕ) (i : ℕ)
      → Keeps (add_recipe_ingredient id ingredient amount unit i)
  unfolding add_recipe_ingredient
  add_recipe_ingredient-Keeps id ingredient amount unit i s = Post-call _ s λ t h.
      elim (Bool-cases (
        has_recipe (t.store) id
        && has_id t.store.ingredients ingredient
        && has_unit (t.store) unit
        && not (is_taken (t.store) id i))) [
          | inr e ↦ rw e raises
          | inl e ↦ rw e (
              returns (
                let n = KeepsNames-Alike s t h in
                record { units = n.units; categories = n.categories; ingredients = n.ingredients }))
        ]

  add_recipe_category-Keeps : (id c : ℕ) → Keeps (add_recipe_category id c)
  unfolding add_recipe_category
  add_recipe_category-Keeps id c s = Post-call _ s λ t h.
      elim (Bool-cases (is_filed id c t.store.filed)) [
        | inl e ↦ rw e (
            returns (
              let n = KeepsNames-Alike s t h in
              record { units = n.units; categories = n.categories; ingredients = n.ingredients }))
        | inr e ↦ elim (Bool-cases (has_recipe (t.store) id && has_id t.store.categories c)) [
          | inl k ↦
              rw (e, k)
                (returns (
                  let n = KeepsNames-Alike s t h in
                  record {
                    units = n.units;
                    categories = n.categories;
                    ingredients = n.ingredients;
                  }))
          | inr k ↦ rw (e, k) raises
        ]
      ]

  add_lines-Keeps : (id i : ℕ) (ings : List (RecipeIngredient F)) → Keeps (add_lines id i ings)
  unfolding add_lines
  add_lines-Keeps id i [] s = Post-pure tt s (KeepsNames-refl (s.store))
  add_lines-Keeps id i (ing ∷ ings) s =
      Keeps-bind _ _
        (Keeps-map_error _
          (add_recipe_ingredient-Keeps id ing.ingredient_id ing.amount ing.unit_id _))
        (λ row. add_lines-Keeps id (i + 1) ings) s

  add_categories-Keeps : (id : ℕ) (cats : List Category) → Keeps (add_categories id cats)
  unfolding add_categories
  add_categories-Keeps id [] s = Post-pure tt s (KeepsNames-refl (s.store))
  add_categories-Keeps id (cat ∷ cats) s =
      Keeps-bind _ _ (Keeps-map_error _ (add_recipe_category-Keeps id cat.id))
        (λ done. add_categories-Keeps id cats) s

  pub write_associations-Keeps : (r : Recipe F) → Keeps (write_associations r)
  unfolding write_associations
  write_associations-Keeps r =
      Keeps-bind _ _ (Keeps-map_error _ (delete_recipe_ingredients-Keeps r.id)) λ cleared.
        Keeps-bind _ _ (add_lines-Keeps r.id 0 r.ingredients) λ added.
          Keeps-bind _ _ (Keeps-map_error _ (delete_recipe_categories-Keeps r.id))
            λ emptied. add_categories-Keeps r.id r.categories
