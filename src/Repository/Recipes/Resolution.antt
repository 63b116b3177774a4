-- ===== src/Repository/Recipes/Resolution.antt =====
-- `resolveLookups` of internal/repository/recipe_repository.go for a recipe that carries names, when
-- no call fails: it returns, with ids that the lookup tables have.
use recipe_reader.Common.{
  ℕ, suc, ap, length, ◌≡◌, refl, inl, inr, true, List, [], ◌∷◌, Option, none, some, All, All-weaken,
  Bool-cases,
}
use recipe_reader.Text.{is_empty}
use recipe_reader.Domain.{Category, RecipeIngredient, Recipe}
use recipe_reader.Db.Store.{Store, Session, has_id}
use recipe_reader.Db.Statements.{has_unit}
use recipe_reader.Repository.Recipes.{
  resolve_category, resolve_ingredient, resolve_unit, resolve_categories, resolve_ingredients,
  resolve_lookups,
}
use recipe_reader.Repository.Recipes.Vocabulary.{
  Returns, Returns-pure, Returns-map_error, Returns-bind, Grows, Grows-refl, Grows-trans,
  find_or_create_unit-Returns, find_or_create_category-Returns, find_or_create_ingredient-Returns,
}

abbrev pub CategoryIsNamed : Category → Type 0
CategoryIsNamed cat = cat.id ≡ 0

module _ {F : Type 0} where
  -- A line that carries names and no ids, as those of the API and of an import do.
  abbrev pub IsNamed : RecipeIngredient F → Type 0
  IsNamed ing = (ing.ingredient_id ≡ 0) × (ing.unit_id ≡ none)

  -- The ids of a line are in the tables.
  abbrev pub IsKnown : Store F → RecipeIngredient F → Type 0
  IsKnown st ing =
      (has_id st.ingredients ing.ingredient_id ≡ true) × (has_unit st ing.unit_id ≡ true)

  abbrev pub CategoryIsKnown : Store F → Category → Type 0
  CategoryIsKnown st cat = has_id st.categories cat.id ≡ true

  has_unit-Grows :
      (s t : Session F) (unit : Option ℕ)
      → Grows s t
      → has_unit (s.store) unit ≡ true
      → has_unit (t.store) unit ≡ true
  has_unit-Grows s t none h e = e
  has_unit-Grows s t (some id) h e = h.units id e

  pub IsKnown-Grows :
      (s t : Session F) (ings : List (RecipeIngredient F))
      → Grows s t
      → All (IsKnown (s.store)) ings
      → All (IsKnown (t.store)) ings
  IsKnown-Grows s t ings h k =
      All-weaken ings
        (λ ing e. (h.ingredients ing.ingredient_id e.0, has_unit-Grows s t ing.unit_id h e.1)) k

  resolve_category-Returns :
      (cat : Category) (s : Session F)
      → s.faults ≡ []
      → CategoryIsNamed cat
      → Returns (λ cat' t. Grows s t × CategoryIsKnown (t.store) cat') (resolve_category cat) s
  unfolding resolve_category
  resolve_category-Returns cat s c h = rw h (
      Returns-bind _ _ s (Returns-map_error _ s (find_or_create_category-Returns cat.name s c))
        λ row t d k. Returns-pure _ t d k)

  resolve_ingredient-Returns :
      (ing : RecipeIngredient F) (s : Session F)
      → s.faults ≡ []
      → IsNamed ing
      → Returns
          (λ ing' t.
            Grows s t
            × (has_id t.store.ingredients ing'.ingredient_id ≡ true)
            × (ing'.unit_id ≡ none))
          (resolve_ingredient ing)
          s
  unfolding resolve_ingredient
  resolve_ingredient-Returns ing s c h = rw h.0 (
      Returns-bind _ _ s
        (Returns-map_error _ s (find_or_create_ingredient-Returns ing.ingredient_name s c))
        λ row t d k. Returns-pure _ t d (k.0, k.1, h.1))

  resolve_unit-Returns :
      (ing : RecipeIngredient F) (s : Session F)
      → s.faults ≡ []
      → has_id s.store.ingredients ing.ingredient_id ≡ true
      → ing.unit_id ≡ none
      → Returns (λ ing' t. Grows s t × IsKnown (t.store) ing') (resolve_unit ing) s
  unfolding resolve_unit
  resolve_unit-Returns ing s c i u = elim (Bool-cases (is_empty ing.unit_name)) [
    | inl e ↦ rw (u, e) (Returns-pure _ s c (Grows-refl s, (i, refl)))
    | inr e ↦
        rw (u, e)
          (Returns-bind _ _ s
            (Returns-map_error _ s (find_or_create_unit-Returns ing.unit_name s c))
            λ row t d k. Returns-pure _ t d (k.0, (k.0.ingredients ing.ingredient_id i, k.1)))
  ]

  resolve_categories-Returns :
      (cats : List Category) (s : Session F)
      → s.faults ≡ []
      → All CategoryIsNamed cats
      → Returns
          (λ cats' t. Grows s t × All (CategoryIsKnown (t.store)) cats')
          (resolve_categories cats)
          s
  unfolding resolve_categories
  resolve_categories-Returns [] s c h = Returns-pure _ s c (Grows-refl s, tt)
  resolve_categories-Returns (cat ∷ cats) s c h =
      Returns-bind _ _ s (resolve_category-Returns cat s c h.0) λ cat' t d k.
        Returns-bind _ _ t (resolve_categories-Returns cats t d h.1) λ cats' v e l.
          Returns-pure _ v e (Grows-trans s t v k.0 l.0, (l.0.categories cat'.id k.1, l.1))

  resolve_ingredients-Returns :
      (ings : List (RecipeIngredient F)) (s : Session F)
      → s.faults ≡ []
      → All IsNamed ings
      → Returns
          (λ ings' t. Grows s t × All (IsKnown (t.store)) ings' × (length ings' ≡ length ings))
          (resolve_ingredients ings)
          s
  unfolding resolve_ingredients
  resolve_ingredients-Returns [] s c h = Returns-pure _ s c (Grows-refl s, tt, refl)
  resolve_ingredients-Returns (ing ∷ ings) s c h =
      Returns-bind _ _ s (resolve_ingredient-Returns ing s c h.0) λ named t d k.
        Returns-bind _ _ t (resolve_unit-Returns named t d k.1 k.2) λ ing' v e l.
          Returns-bind _ _ v (resolve_ingredients-Returns ings v e h.1) λ ings' x f m.
            Returns-pure _ x f (
              Grows-trans s v x (Grows-trans s t v k.0 l.0) m.0,
              (
                (
                  m.0.ingredients ing'.ingredient_id l.1.0,
                  has_unit-Grows v x ing'.unit_id m.0 l.1.1,
                ),
                m.1,
              ),
              ap suc m.2,
            )

  -- A recipe that carries names is resolved.
  pub record IsResolved (r : Recipe F) (s : Session F) (r' : Recipe F) (t : Session F)
      : Type 0 where
    pub grows : Grows s t
    pub id : r'.id ≡ r.id
    pub ingredients : All (IsKnown (t.store)) r'.ingredients
    pub categories : All (CategoryIsKnown (t.store)) r'.categories
    pub lines : length r'.ingredients ≡ length r.ingredients

  pub resolve_lookups-Returns :
      (r : Recipe F) (s : Session F)
      → s.faults ≡ []
      → All IsNamed r.ingredients
      → All CategoryIsNamed r.categories
      → Returns (IsResolved r s) (resolve_lookups r) s
  unfolding resolve_lookups
  resolve_lookups-Returns r s c h k =
      Returns-bind _ _ s (resolve_categories-Returns r.categories s c k) λ cats t d l.
        Returns-bind _ _ t (resolve_ingredients-Returns r.ingredients t d h) λ ings v e m.
          Returns-pure _ v e (record {
            grows = Grows-trans s t v l.0 m.0;
            id = refl;
            ingredients = m.1;
            categories = All-weaken cats (λ cat known. m.0.categories cat.id known) l.1;
            lines = m.2;
          })
