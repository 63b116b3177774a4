-- ===== src/Repository/Recipes/Lookups.antt =====
-- `resolveLookups` of internal/repository/recipe_repository.go, step by step: what it resolves, and
-- what it leaves as it is.
use recipe_reader.Common.{
  ◌≡◌, refl, ◌⊎◌, inl, inr, ◌∙◌, ℕ, Option, true, false, List, [], ◌∷◌, Each, some, ◌==◌,
  Bool-cases,
}
use recipe_reader.Text.{Text}
use recipe_reader.Errors.{wrap}
use recipe_reader.Domain.{Category, RecipeIngredient, Recipe}
use recipe_reader.Db.Store.{Store, Session}
use recipe_reader.Db.Store.Post.{Post, Post-pure, Post-map_error, Post-bind}
use recipe_reader.Repository.Recipes.{
  resolve_category, resolve_ingredient, resolve_unit, resolve_categories, resolve_ingredients,
  resolve_lookups,
}
use recipe_reader.Repository.Recipes.Resolved.{
  needs_unit, IsResolved, IsResolvedCategory, IsResolvedRecipe, IsResolved-kept,
  IsResolvedCategory-kept, categories-kept,
}
use recipe_reader.Repository.Recipes.Names.{
  has_row, KeepsNames, KeepsNames-refl, SameRecipes, SameRecipes-refl, SameRecipes-trans,
  find_or_create_category-Leaves, find_or_create_ingredient-Leaves, find_or_create_unit-Leaves,
}

module _ {F : Type 0} where
  resolve_category-returns :
      (cat : Category) (s : Session F)
      → Post
          (λ cat' t. SameRecipes s t × IsResolvedCategory (t.store) cat cat')
          (resolve_category cat s)
  unfolding resolve_category
  resolve_category-returns cat s = elim (Bool-cases (cat.id == 0)) [
    | inr e ↦ rw e (Post-pure cat s (SameRecipes-refl s, inr (refl, refl)))
    | inl e ↦ rw e (
        Post-bind _ _ s (Post-map_error wrap _ s (find_or_create_category-Leaves cat.name s))
          λ row t h. Post-pure _ t (h.0, inl (refl, h.1.0, h.1.1)))
  ]

  -- A line of which the ingredient is resolved and the unit is not yet.
  record IsHalf (st : Store F) (ing named : RecipeIngredient F) : Type 0 where
    amount : named.amount ≡ ing.amount
    ingredient_name : named.ingredient_name ≡ ing.ingredient_name
    ingredient_id :
        (((ing.ingredient_id == 0) ≡ true)
          × (has_row st.ingredients named.ingredient_id ing.ingredient_name ≡ true))
        ⊎ (((ing.ingredient_id == 0) ≡ false) × (named.ingredient_id ≡ ing.ingredient_id))
    unit_name : named.unit_name ≡ ing.unit_name
    unit_id : named.unit_id ≡ ing.unit_id

  resolve_ingredient-returns :
      (ing : RecipeIngredient F) (s : Session F)
      → Post (λ named t. SameRecipes s t × IsHalf (t.store) ing named) (resolve_ingredient ing s)
  unfolding resolve_ingredient
  resolve_ingredient-returns ing s = elim (Bool-cases (ing.ingredient_id == 0)) [
    | inr e ↦ rw e (
        Post-pure ing s (
          SameRecipes-refl s,
          record {
            amount = refl;
            ingredient_name = refl;
            ingredient_id = inr (e, refl);
            unit_name = refl;
            unit_id = refl;
          },
        ))
    | inl e ↦ rw e (
        Post-bind _ _ s
          (Post-map_error wrap _ s (find_or_create_ingredient-Leaves ing.ingredient_name s))
          λ row t h. Post-pure _ t (
            h.0,
            record {
              amount = refl;
              ingredient_name = h.1.0;
              ingredient_id = inl (e, h.1.1);
              unit_name = refl;
              unit_id = refl;
            },
          ))
  ]

  -- With the id of the unit.
  IsHalf-IsResolved :
      (s t : Store F) (ing named : RecipeIngredient F) (u : Option ℕ) (name : Text)
      → KeepsNames s t
      → IsHalf s ing named
      → name ≡ named.unit_name
      → (((needs_unit named ≡ true)
            × (v : ℕ) × (u ≡ some v)
            × (has_row t.units v named.unit_name ≡ true))
          ⊎ ((needs_unit named ≡ false) × (u ≡ named.unit_id)))
      → IsResolved t ing (record named { unit_id = u; unit_name = name })
  IsHalf-IsResolved s t ing named u name k h q c = record {
    amount = h.amount;
    ingredient_name = h.ingredient_name;
    ingredient_id = elim h.ingredient_id [
      | inl (e, x) ↦ inl (e, k.ingredients named.ingredient_id ing.ingredient_name x)
      | inr x ↦ inr x
    ];
    unit_name = q ∙ h.unit_name;
    unit_id = elim c [
      | inl (e, v, p, x) ↦ inl (rw (h.unit_id, h.unit_name) at e, v, p, rw h.unit_name at x)
      | inr (e, p) ↦ inr (rw (h.unit_id, h.unit_name) at e, p ∙ h.unit_id)
    ];
  }

  resolve_unit-returns :
      (ing named : RecipeIngredient F) (s : Session F)
      → IsHalf (s.store) ing named
      → Post (λ ing' t. SameRecipes s t × IsResolved (t.store) ing ing') (resolve_unit named s)
  unfolding resolve_unit
  resolve_unit-returns ing named s h = elim (Bool-cases (needs_unit named)) [
    | inr e ↦ rw e (
        Post-pure named s (
          SameRecipes-refl s,
          IsHalf-IsResolved (s.store) (s.store) ing named named.unit_id named.unit_name
              (KeepsNames-refl (s.store)) h refl (inr (e, refl)),
        ))
    | inl e ↦ rw e (
        Post-bind _ _ s (Post-map_error wrap _ s (find_or_create_unit-Leaves named.unit_name s))
          λ row t k. Post-pure _ t (
            k.0,
            IsHalf-IsResolved (s.store) (t.store) ing named (some row.id) row.name k.0.names h k.1.0
                (inl (e, row.id, refl, k.1.1)),
          ))
  ]

  resolve_categories-returns :
      (cats : List Category) (s : Session F)
      → Post
          (λ cats' t. SameRecipes s t × Each (IsResolvedCategory (t.store)) cats cats')
          (resolve_categories cats s)
  unfolding resolve_categories
  resolve_categories-returns [] s = Post-pure [] s (SameRecipes-refl s, tt)
  resolve_categories-returns (cat ∷ cats) s =
      Post-bind _ _ s (resolve_category-returns cat s) λ cat' t h.
        Post-bind _ _ t (resolve_categories-returns cats t) λ cats' v k. Post-pure _ v (
          SameRecipes-trans s t v h.0 k.0,
          (IsResolvedCategory-kept (t.store) (v.store) k.0.names cat cat' h.1, k.1),
        )

  resolve_ingredients-returns :
      (ings : List (RecipeIngredient F)) (s : Session F)
      → Post
          (λ ings' t. SameRecipes s t × Each (IsResolved (t.store)) ings ings')
          (resolve_ingredients ings s)
  unfolding resolve_ingredients
  resolve_ingredients-returns [] s = Post-pure [] s (SameRecipes-refl s, tt)
  resolve_ingredients-returns (ing ∷ ings) s =
      Post-bind _ _ s (resolve_ingredient-returns ing s) λ named t h.
        Post-bind _ _ t (resolve_unit-returns ing named t h.1) λ ing' v k.
          Post-bind _ _ v (resolve_ingredients-returns ings v) λ ings' w l. Post-pure _ w (
            SameRecipes-trans s t w h.0 (SameRecipes-trans t v w k.0 l.0),
            (IsResolved-kept (v.store) (w.store) l.0.names ing ing' k.1, l.1),
          )

  -- The associations are resolved without a change to the tables of the recipes.
  pub resolve_lookups-returns :
      (r : Recipe F) (s : Session F)
      → Post (λ r' t. SameRecipes s t × IsResolvedRecipe (t.store) r r') (resolve_lookups r s)
  unfolding resolve_lookups
  resolve_lookups-returns r s =
      Post-bind _ _ s (resolve_categories-returns r.categories s) λ cats t h.
        Post-bind _ _ t (resolve_ingredients-returns r.ingredients t) λ ings v k. Post-pure _ v (
          SameRecipes-trans s t v h.0 k.0,
          record {
            id = refl;
            name = refl;
            instructions = refl;
            image_url = refl;
            source = refl;
            status = refl;
            created_at = refl;
            updated_at = refl;
            ingredients = k.1;
            categories = categories-kept (t.store) (v.store) k.0.names r.categories cats h.1;
          },
        )
