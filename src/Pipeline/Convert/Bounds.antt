-- ===== src/Pipeline/Convert/Bounds.antt =====
-- What an import can write into the tables that every user's pickers read.
use recipe_reader.Common.{
  ℕ, ◌≡◌, refl, inl, inr, ◌≤◌, false, List, [], ◌∷◌, map, none, All, arith, Bool-cases,
}
use recipe_reader.Text.{fields_from, Text, Unicode, is_empty, rune_count}
use recipe_reader.Float.{Float}
use recipe_reader.Errors.{ok}
use recipe_reader.Domain.{Recipe, RecipeIngredient, Category}
use recipe_reader.Extraction.Types.{ExtractedRecipe, ExtractedIngredient}
use recipe_reader.Instagram.Types.{SavedPost}
use recipe_reader.Pipeline.Sanitize.{
  sanitize_name, max_recipe_name_runes, max_ingredient_name_runes, max_unit_name_runes,
  rune_count-sanitize_name-le, sanitize_name-IsLabel, IsLabel,
}
use recipe_reader.Pipeline.Vocabulary.{vocabulary_of, IsListed, IsProposed, resolve-IsListed}
use recipe_reader.Pipeline.Convert.{
  Thresholds, recipe_name, category_of, to_ingredients, to_recipe, untitled_recipe,
}

-- A name that a table may get: one line, not empty, of at most `n` runes.
pub record IsName (n : ℕ) (t : Text) : Type 0 where
  pub label : IsLabel t
  pub named : is_empty t ≡ false
  pub bounded : rune_count t ≤ n

untitled-IsName : IsName max_recipe_name_runes untitled_recipe
unfolding sanitize_name fields_from
untitled-IsName = record {
  label = sanitize_name-IsLabel untitled_recipe max_recipe_name_runes;
  named = refl;
  bounded = omega arith;
}

sanitize_name-IsName :
    (name : Text) (n : ℕ)
    → is_empty (sanitize_name name n) ≡ false
    → IsName n (sanitize_name name n)
sanitize_name-IsName name n h = record {
  label = sanitize_name-IsLabel name n;
  named = h;
  bounded = rune_count-sanitize_name-le name n;
}

-- Whatever the extraction called the recipe, its stored name is one line of 1 to 200 runes.
pub recipe_name-IsName : (name : Text) → IsName max_recipe_name_runes (recipe_name name)
unfolding recipe_name
recipe_name-IsName name = elim (Bool-cases (is_empty (sanitize_name name max_recipe_name_runes))) [
  | inl e ↦ rw e untitled-IsName
  | inr e ↦ rw e (sanitize_name-IsName name _ e)
]

-- An ingredient line as it may be stored: resolved by name alone, with bounded names.
pub record IsLine {F : Type 0} (i : RecipeIngredient F) : Type 0 where
  pub name : IsName max_ingredient_name_runes i.ingredient_name
  pub unit_label : IsLabel i.unit_name
  pub unit_bounded : rune_count i.unit_name ≤ max_unit_name_runes
  pub unresolved : (i.ingredient_id ≡ 0) × (i.unit_id ≡ none)

map-category_of-All :
    (P : Text → Type 0) (names : List Text)
    → All P names
    → All (λ (c : Category). P c.name × (c.id ≡ 0)) (map category_of names)
map-category_of-All P [] h = tt
map-category_of-All P (n ∷ names) h = ((h.0, refl), map-category_of-All P names h.1)

module _ {F : Type 0} where
  to_ingredients-IsLine : (ings : List (ExtractedIngredient F)) → All IsLine (to_ingredients ings)
  unfolding to_ingredients
  to_ingredients-IsLine [] = tt
  to_ingredients-IsLine (ing ∷ ings) =
      elim (Bool-cases (is_empty (sanitize_name ing.name max_ingredient_name_runes))) [
        | inl e ↦ rw e (to_ingredients-IsLine ings)
        | inr e ↦ rw e (
          record {
            name = sanitize_name-IsName ing.name _ e;
            unit_label = sanitize_name-IsLabel ing.unit max_unit_name_runes;
            unit_bounded = rune_count-sanitize_name-le ing.unit max_unit_name_runes;
            unresolved = (refl, refl);
          },
          to_ingredients-IsLine ings,
        )
      ]

  -- What `toRecipe` may hand to the repository, when the vocabulary could be read.
  pub record IsBounded (u : Unicode) (rows : List Category) (proposed : List Text) (r : Recipe F)
      : Type 0 where
    pub name : IsName max_recipe_name_runes r.name
    pub lines : All IsLine r.ingredients
    pub known :
        All
          (λ (c : Category). (IsListed rows c.name × IsProposed u proposed c.name) × (c.id ≡ 0))
          r.categories

  -- For every extraction, converted under a list of the categories that was read, the recipe has a
  -- name of one line and 1 to 200 runes, ingredient names of one line and 1 to 120, unit names of at
  -- most 32, and only categories that were listed and that the extraction proposed.
  pub to_recipe-IsBounded :
      (u : Unicode) (fl : Float F) (t : Thresholds F) (post : SavedPost) (ex : ExtractedRecipe F)
      (rows : List Category)
      → IsBounded u rows ex.categories (to_recipe u fl t post ex (vocabulary_of u (ok rows)))
  unfolding to_recipe
  to_recipe-IsBounded u fl t post ex rows = record {
    name = recipe_name-IsName ex.name;
    lines = to_ingredients-IsLine ex.ingredients;
    known =
        map-category_of-All (λ c. IsListed rows c × IsProposed u ex.categories c) _
          (resolve-IsListed u rows ex.categories);
  }
