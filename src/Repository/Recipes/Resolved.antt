-- ===== src/Repository/Recipes/Resolved.antt =====
-- What a recipe is after `resolveLookups` of internal/repository/recipe_repository.go, by the rows of
-- a store.
use recipe_reader.Common.{
  ◌≡◌, ◌⊎◌, inl, inr, ℕ, Bool, true, false, not, ◌&&◌, List, [], ◌∷◌, Each, some, ◌==◌,
}
use recipe_reader.Text.{is_empty}
use recipe_reader.Domain.{Category, RecipeIngredient, Recipe}
use recipe_reader.Db.Store.{Store}
use recipe_reader.Repository.Recipes.{no_unit}
use recipe_reader.Repository.Recipes.Names.{has_row, KeepsNames}

-- A line gets an id for the name of its ingredient if it has none, and an id for the name of its
-- unit if it has that name and no id.
abbrev pub needs_unit : {F : Type 0} → RecipeIngredient F → Bool
needs_unit ing = no_unit ing.unit_id && not (is_empty ing.unit_name)

-- What resolving makes of an ingredient line: its amount and its names stay, and so does an id that
-- was given; an id that was not is that of a row with the name.
pub record IsResolved {F : Type 0} (st : Store F) (ing ing' : RecipeIngredient F) : Type 0 where
  pub amount : ing'.amount ≡ ing.amount
  pub ingredient_name : ing'.ingredient_name ≡ ing.ingredient_name
  pub ingredient_id :
      (((ing.ingredient_id == 0) ≡ true)
        × (has_row st.ingredients ing'.ingredient_id ing.ingredient_name ≡ true))
      ⊎ (((ing.ingredient_id == 0) ≡ false) × (ing'.ingredient_id ≡ ing.ingredient_id))
  pub unit_name : ing'.unit_name ≡ ing.unit_name
  pub unit_id :
      ((needs_unit ing ≡ true)
        × (u : ℕ) × (ing'.unit_id ≡ some u)
        × (has_row st.units u ing.unit_name ≡ true))
      ⊎ ((needs_unit ing ≡ false) × (ing'.unit_id ≡ ing.unit_id))

-- A category that was given by an id stays as it is; one without gets that of a row with its name.
abbrev pub IsResolvedCategory : {F : Type 0} → Store F → Category → Category → Type 0
IsResolvedCategory st cat cat' =
    (((cat.id == 0) ≡ true)
      × (cat'.name ≡ cat.name)
      × (has_row st.categories cat'.id cat.name ≡ true))
    ⊎ (((cat.id == 0) ≡ false) × (cat' ≡ cat))

-- A recipe with its associations resolved by the rows of a store.
pub record IsResolvedRecipe {F : Type 0} (st : Store F) (r r' : Recipe F) : Type 0 where
  pub id : r'.id ≡ r.id
  pub name : r'.name ≡ r.name
  pub instructions : r'.instructions ≡ r.instructions
  pub image_url : r'.image_url ≡ r.image_url
  pub source : r'.source ≡ r.source
  pub status : r'.status ≡ r.status
  pub created_at : r'.created_at ≡ r.created_at
  pub updated_at : r'.updated_at ≡ r.updated_at
  pub ingredients : Each (IsResolved st) r.ingredients r'.ingredients
  pub categories : Each (IsResolvedCategory st) r.categories r'.categories

-- What resolving has found stays true while no name is lost.
module _ {F : Type 0} (s t : Store F) (h : KeepsNames s t) where
  pub IsResolved-kept : (a b : RecipeIngredient F) → IsResolved s a b → IsResolved t a b
  IsResolved-kept a b k = record {
    amount = k.amount;
    ingredient_name = k.ingredient_name;
    ingredient_id = elim k.ingredient_id [
      | inl (e, x) ↦ inl (e, h.ingredients b.ingredient_id a.ingredient_name x)
      | inr x ↦ inr x
    ];
    unit_name = k.unit_name;
    unit_id = elim k.unit_id [
      | inl (e, u, q, x) ↦ inl (e, u, q, h.units u a.unit_name x)
      | inr x ↦ inr x
    ];
  }

  pub IsResolvedCategory-kept :
      (a b : Category) → IsResolvedCategory s a b → IsResolvedCategory t a b
  IsResolvedCategory-kept a b (inl (e, q, x)) = inl (e, q, h.categories b.id a.name x)
  IsResolvedCategory-kept a b (inr x) = inr x

  pub lines-kept :
      (xs ys : List (RecipeIngredient F)) → Each (IsResolved s) xs ys → Each (IsResolved t) xs ys
  lines-kept [] [] k = tt
  lines-kept [] (b ∷ ys) k = k
  lines-kept (a ∷ xs) [] k = k
  lines-kept (a ∷ xs) (b ∷ ys) k = (IsResolved-kept a b k.0, lines-kept xs ys k.1)

  pub categories-kept :
      (xs ys : List Category)
      → Each (IsResolvedCategory s) xs ys
      → Each (IsResolvedCategory t) xs ys
  categories-kept [] [] k = tt
  categories-kept [] (b ∷ ys) k = k
  categories-kept (a ∷ xs) [] k = k
  categories-kept (a ∷ xs) (b ∷ ys) k = (IsResolvedCategory-kept a b k.0, categories-kept xs ys k.1)

  pub IsResolvedRecipe-kept : (r r' : Recipe F) → IsResolvedRecipe s r r' → IsResolvedRecipe t r r'
  IsResolvedRecipe-kept r r' k = record {
    id = k.id;
    name = k.name;
    instructions = k.instructions;
    image_url = k.image_url;
    source = k.source;
    status = k.status;
    created_at = k.created_at;
    updated_at = k.updated_at;
    ingredients = lines-kept r.ingredients r'.ingredients k.ingredients;
    categories = categories-kept r.categories r'.categories k.categories;
  }
