-- ===== src/Api/Handlers/Carrying.antt =====
-- What of a body of internal/api/dto.go is in the recipe that is stored for it, and in the answer.
use recipe_reader.Common.{
  ◌≡◌, refl, ap, inl, inr, List, [], ◌∷◌, map, Each, if◌then◌else◌, Bool-cases, ℕ,
}
use recipe_reader.Text.{Text, is_empty}
use recipe_reader.Domain.{Category, RecipeIngredient, Recipe, status_published}
use recipe_reader.Db.Store.{Store}
use recipe_reader.Repository.Recipes.Writes.{IsStored}
use recipe_reader.Repository.Recipes.Updates.{IsUpdated}
use recipe_reader.Repository.Recipes.Resolved.{IsResolved, IsResolvedCategory, IsResolvedRecipe}
use recipe_reader.Api.Dto.{
  IngredientDto, CategoryDto, RecipeDto, ingredient_dto, dto_ingredient, dto_category,
  to_recipe_dto, dto_to_recipe,
}
use recipe_reader.Api.Handlers.{defaulted}

-- The line has the names and the amount of the body.
abbrev pub IsLineOf : {F : Type 0} → IngredientDto F → RecipeIngredient F → Type 0
IsLineOf d ing = (ing.ingredient_name ≡ d.name) × (ing.amount ≡ d.amount) × (ing.unit_name ≡ d.unit)

abbrev pub IsCategoryOf : CategoryDto → Category → Type 0
IsCategoryOf d cat = cat.name ≡ d.name

-- The recipe has what the body says, and its transfer object says it again.
pub record Carries {F : Type 0} (dto : RecipeDto F) (r : Recipe F) : Type 0 where
  pub name : r.name ≡ dto.name
  pub instructions : r.instructions ≡ dto.instructions
  pub image_url : r.image_url ≡ dto.image_url
  pub ingredients : Each IsLineOf dto.ingredients r.ingredients
  pub categories : Each IsCategoryOf dto.categories r.categories
  pub answered_id : (to_recipe_dto r).id ≡ r.id
  pub answered_name : (to_recipe_dto r).name ≡ dto.name
  pub answered_instructions : (to_recipe_dto r).instructions ≡ dto.instructions
  pub answered_image_url : (to_recipe_dto r).image_url ≡ dto.image_url
  pub answered_source : (to_recipe_dto r).source ≡ r.source
  pub answered_status : (to_recipe_dto r).status ≡ r.status
  pub answered_ingredients : (to_recipe_dto r).ingredients ≡ dto.ingredients

module _ {F : Type 0} where
  lines-carried :
      (st : Store F) (ds : List (IngredientDto F)) (ings : List (RecipeIngredient F))
      → Each (IsResolved st) (map dto_ingredient ds) ings
      → Each IsLineOf ds ings
  lines-carried st [] [] k = tt
  lines-carried st [] (ing ∷ ings) k = k
  lines-carried st (d ∷ ds) [] k = k
  lines-carried st (d ∷ ds) (ing ∷ ings) k =
      ((k.0.ingredient_name, k.0.amount, k.0.unit_name), lines-carried st ds ings k.1)

  category-carried :
      (st : Store F) (d : CategoryDto) (cat : Category)
      → IsResolvedCategory st (dto_category d) cat
      → IsCategoryOf d cat
  category-carried st d cat (inl (e, q, x)) = q
  category-carried st d cat (inr (e, q)) = ap (λ (c : Category). c.name) q

  categories-carried :
      (st : Store F) (ds : List CategoryDto) (cats : List Category)
      → Each (IsResolvedCategory st) (map dto_category ds) cats
      → Each IsCategoryOf ds cats
  categories-carried st [] [] k = tt
  categories-carried st [] (cat ∷ cats) k = k
  categories-carried st (d ∷ ds) [] k = k
  categories-carried st (d ∷ ds) (cat ∷ cats) k =
      (category-carried st d cat k.0, categories-carried st ds cats k.1)

  lines-answered :
      (ds : List (IngredientDto F)) (ings : List (RecipeIngredient F))
      → Each IsLineOf ds ings
      → map ingredient_dto ings ≡ ds
  lines-answered [] [] k = refl
  lines-answered [] (ing ∷ ings) k = absurd k
  lines-answered (d ∷ ds) [] k = absurd k
  lines-answered (d ∷ ds) (ing ∷ ings) k = rw (k.0.0, k.0.1, k.0.2, lines-answered ds ings k.1) refl

  -- A recipe that is resolved from that of a body carries it.
  pub resolved-Carries :
      (st : Store F) (dto : RecipeDto F) (id created_at updated_at : ℕ) (r : Recipe F)
      → IsResolvedRecipe st
          (record (dto_to_recipe dto) { id = id; created_at = created_at; updated_at = updated_at })
          r
      → Carries dto r × (r.source ≡ dto.source) × (r.status ≡ dto.status)
  unfolding dto_to_recipe to_recipe_dto
  resolved-Carries st dto id created_at updated_at r k =
      let lines = lines-carried st dto.ingredients r.ingredients k.ingredients in
      (
        record {
          name = k.name;
          instructions = k.instructions;
          image_url = k.image_url;
          ingredients = lines;
          categories = categories-carried st dto.categories r.categories k.categories;
          answered_id = refl;
          answered_name = k.name;
          answered_instructions = k.instructions;
          answered_image_url = k.image_url;
          answered_source = refl;
          answered_status = refl;
          answered_ingredients = lines-answered dto.ingredients r.ingredients lines;
        },
        k.source,
        k.status,
      )

  -- What the default for the status leaves of a body.
  pub defaulted-eq :
      (dto : RecipeDto F)
      → defaulted dto
        ≡ record dto { status = if is_empty dto.status then status_published else dto.status }
  unfolding defaulted
  defaulted-eq dto = elim (Bool-cases (is_empty dto.status)) [
    | inl e ↦ rw e refl
    | inr e ↦ rw e refl
  ]

  -- The status of a new recipe: that of the body, or published where the body has none.
  abbrev pub given_status : RecipeDto F → Text
  given_status dto = if is_empty dto.status then status_published else dto.status

  pub IsStored-Carries :
      (dto : RecipeDto F) (before : Store F) (next : ℕ) (after : Store F) (r : Recipe F)
      → IsStored (dto_to_recipe (defaulted dto)) before next after r
      → Carries dto r × (r.source ≡ dto.source) × (r.status ≡ given_status dto)
  IsStored-Carries dto before next after r k =
      let h = resolved-Carries after (defaulted dto) next k.created_at k.created_at r k.resolved in
      let c = h.0 in
      let e = defaulted-eq dto in
      (
        record {
          name = rw e at c.name;
          instructions = rw e at c.instructions;
          image_url = rw e at c.image_url;
          ingredients = rw e at c.ingredients;
          categories = rw e at c.categories;
          answered_id = c.answered_id;
          answered_name = rw e at c.answered_name;
          answered_instructions = rw e at c.answered_instructions;
          answered_image_url = rw e at c.answered_image_url;
          answered_source = c.answered_source;
          answered_status = c.answered_status;
          answered_ingredients = rw e at c.answered_ingredients;
        },
        rw e at h.1,
        rw e at h.2,
      )

  pub IsUpdated-Carries :
      (dto : RecipeDto F) (id : ℕ) (before after : Store F) (r : Recipe F)
      → IsUpdated (record (dto_to_recipe dto) { id = id }) before after r
      → Carries dto r × (r.status ≡ dto.status)
  IsUpdated-Carries dto id before after r k =
      let h = resolved-Carries after dto id k.row.created_at k.now r k.resolved in (h.0, h.2)
