-- ===== src/Db/Reads.antt =====
-- The statements of internal/db/sqlc that recipes are read with, by their SQL. How the database
-- orders texts and what its `lower` does are parameters.
use recipe_reader.Common.{
  ℕ, ℤ, pos, negsuc, Bool, true, ◌&&◌, ◌||◌, List, [], ◌∷◌, map, Option, none, some, if◌then◌else◌,
  leb, ◌==◌, any, length, take, drop, select, sort_by, keyed,
}
use recipe_reader.Text.{Text, text_eq, has_prefix}
use recipe_reader.Errors.{Sentinel, sentinel, foreign, Result, ok, err}
use recipe_reader.Domain.{Category}
use recipe_reader.Db.Store.{NamedRow, RecipeRow, LineRow, FiledRow, Store, Action, call, find}

pub record Locale : Type 0 where
  pub lower : Text → Text
  pub text_le : Text → Text → Bool

-- `LIMIT` and `OFFSET`, of which neither may be negative.
abbrev pub paged : ℤ → ℤ → List RecipeRow → Result (List RecipeRow)
paged (pos limit) (pos offset) rows = ok (take limit (drop offset rows))
paged (pos limit) (negsuc offset) rows = err (foreign 0)
paged (negsuc limit) offset rows = err (foreign 0)

-- The columns that `ListRecipeIngredients` and `ListIngredientsForRecipes` select.
pub record LineView (F : Type 0) : Type 0 where
  pub ingredient_id : ℕ
  pub ingredient_name : Text
  pub amount : F
  pub unit_id : Option ℕ
  pub unit_name : Text

-- The rows of an inner join: those for which there is a joined one.
unfoldable pub join_rows : {A B : Type 0} → (A → Option B) → List A → List B
join_rows f [] = []
join_rows f (x ∷ xs) = let rest = join_rows f xs in elim (f x) [ none ↦ rest | some y ↦ y ∷ rest ]

abbrev pub named : List NamedRow → ℕ → Option NamedRow
named rows id = find (λ (r : NamedRow). r.id == id) rows

-- `COALESCE(u.name, '')` behind the LEFT JOIN
abbrev pub unit_name : List NamedRow → Option ℕ → Text
unit_name units none = []
unit_name units (some id) = elim (named units id) [ none ↦ [] | some r ↦ r.name ]

module _ {F : Type 0} where
  abbrev pub line_key : LineRow F → ℕ
  line_key l = l.recipe_id

  -- `ORDER BY ri.position, ri.id`
  abbrev pub line_le : LineRow F → LineRow F → Bool
  line_le = keyed (λ l. l.position) (λ l m. leb l.id m.id)

  -- The joins of a line, with the id of its recipe.
  unfoldable pub joined_line : Store F → LineRow F → Option (ℕ × LineView F)
  joined_line st l = elim (named st.ingredients l.ingredient_id) [
    | none ↦ none
    | some i ↦ some (
      l.recipe_id,
      record {
        ingredient_id = l.ingredient_id;
        ingredient_name = i.name;
        amount = l.amount;
        unit_id = l.unit_id;
        unit_name = unit_name st.units l.unit_id;
      },
    )
  ]

  unfoldable pub joined_category : Store F → FiledRow → Option (ℕ × Category)
  joined_category st f = elim (named st.categories f.category_id) [
    | none ↦ none
    | some c ↦ some (f.recipe_id, record { id = c.id; name = c.name })
  ]

  -- `ListRecipeIngredients`
  unfoldable pub list_recipe_ingredients : ℕ → Action F (List (LineView F))
  list_recipe_ingredients id = call λ s.
      let rows = sort_by line_le (select (λ l. line_key l == id) s.store.lines) in
      (ok (map (λ r. r.1) (join_rows (joined_line (s.store)) rows)), s)

  -- `ListIngredientsForRecipes`
  unfoldable pub list_ingredients_for_recipes : List ℕ → Action F (List (ℕ × LineView F))
  list_ingredients_for_recipes ids = call λ s.
      let rows =
        sort_by (keyed line_key line_le)
          (select (λ l. any (λ id. line_key l == id) ids) s.store.lines) in
      (ok (join_rows (joined_line (s.store)) rows), s)

  -- `GetRecipe`
  unfoldable pub get_recipe : ℕ → Action F RecipeRow
  get_recipe id = call λ s. elim (find (λ (r : RecipeRow). r.id == id) s.store.recipes) [
    | none ↦ (err (sentinel Sentinel.no_rows), s)
    | some r ↦ (ok r, s)
  ]

  -- `GetRecipeBySource`
  unfoldable pub get_recipe_by_source : Text → Action F RecipeRow
  get_recipe_by_source source = call λ s.
      elim (find (λ (r : RecipeRow). text_eq r.source source) s.store.recipes) [
        | none ↦ (err (sentinel Sentinel.no_rows), s)
        | some r ↦ (ok r, s)
      ]

abbrev pub filed_key : FiledRow → ℕ
filed_key f = f.recipe_id

-- A text that contains another.
unfoldable pub contains_text : Text → Text → Bool
contains_text part [] = text_eq part []
contains_text part (c ∷ s) = let rest = contains_text part s in has_prefix (c ∷ s) part || rest

-- The parameters of `SearchRecipes` and `CountRecipes`; one that is null filters nothing.
pub record Filter : Type 0 where
  pub text : Option Text
  pub category_id : Option ℕ
  pub status : Option Text

abbrev pub category_key : ℕ × Category → ℕ
category_key x = x.0

abbrev pub has_status : Option Text → RecipeRow → Bool
has_status none r = true
has_status (some t) r = text_eq r.status t

module _ (locale : Locale) where
  abbrev pub name_le : ℕ × Category → ℕ × Category → Bool
  name_le x y = locale.text_le x.1.name y.1.name

  -- `lower(r.name) LIKE '%' || … || '%'`: the pattern is escaped, so it is a search for the text.
  abbrev pub names : Option Text → RecipeRow → Bool
  names none r = true
  names (some t) r = contains_text (locale.lower t) (locale.lower r.name)

  -- `ORDER BY r.name, r.id`
  abbrev pub recipe_le : RecipeRow → RecipeRow → Bool
  recipe_le x y = if text_eq x.name y.name then leb x.id y.id else locale.text_le x.name y.name

module _ {F : Type 0} where
  abbrev pub files : Option ℕ → Store F → RecipeRow → Bool
  files none st r = true
  files (some c) st r =
      any (λ (f : FiledRow). (f.recipe_id == r.id) && (f.category_id == c)) st.filed

module _ {F : Type 0} (locale : Locale) where
  -- `ListRecipeCategories`
  unfoldable pub list_recipe_categories : ℕ → Action F (List Category)
  list_recipe_categories id = call λ s.
      let rows =
        sort_by (name_le locale)
          (join_rows (joined_category (s.store)) (select (λ f. filed_key f == id) s.store.filed)) in
      (ok (map (λ r. r.1) rows), s)

  -- `ListCategoriesForRecipes`
  unfoldable pub list_categories_for_recipes : List ℕ → Action F (List (ℕ × Category))
  list_categories_for_recipes ids = call λ s.
      let rows = sort_by (keyed category_key (name_le locale)) (
        join_rows (joined_category (s.store))
          (select (λ f. any (λ id. filed_key f == id) ids) s.store.filed)) in
      (ok rows, s)

  unfoldable pub matching_recipes : Filter → Store F → List RecipeRow
  matching_recipes q st =
      select
        (λ (r : RecipeRow).
          names locale q.text r && files q.category_id st r && has_status q.status r)
        st.recipes

  -- `CountRecipes`
  unfoldable pub count_recipes : Filter → Action F ℕ
  count_recipes q = call λ s. (ok (length (matching_recipes q (s.store))), s)

  -- `SearchRecipes`
  unfoldable pub search_recipes : Filter → ℤ → ℤ → Action F (List RecipeRow)
  search_recipes q limit offset =
      call λ s. (paged limit offset (sort_by (recipe_le locale) (matching_recipes q (s.store))), s)
