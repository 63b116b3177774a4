-- ===== src/Repository/Recipes/Success.antt =====
-- `writeAssociations` of internal/repository/recipe_repository.go when no call fails and the ids of the
-- recipe are in the tables.
use recipe_reader.Common.{
  ℕ, ◌+◌, ◌^◌, ◌≤◌, ◌<◌, ◌≡◌, refl, ap, sym, subst, ◌∙◌, ◌⊎◌, inl, inr, true, false, ◌&&◌, List, [],
  ◌∷◌, ◌++◌, ◌==◌, any, length, All, All-append, All-weaken, Bool-cases, arith,
}
use native.Mathlib.Nat.{mod-eq_of_lt}
use recipe_reader.Domain.{Category, RecipeIngredient, Recipe}
use recipe_reader.Db.Store.{RecipeRow, LineRow, FiledRow, Store, Session, has_id, without}
use recipe_reader.Db.Statements.{
  has_recipe, delete_recipe_ingredients, delete_recipe_categories, add_recipe_ingredient,
  add_recipe_category,
}
use recipe_reader.Repository.Reads.Clear.{call-clear}
use recipe_reader.Repository.Recipes.{int32_position, add_lines, add_categories, write_associations}
use recipe_reader.Repository.Recipes.Filing.{is_filed}
use recipe_reader.Repository.Recipes.Vocabulary.{
  Returns, Returns-weaken, Returns-pure, Returns-map_error, Returns-bind,
}
use recipe_reader.Repository.Recipes.Resolution.{IsKnown, CategoryIsKnown}

module _ {F : Type 0} where
  -- A line of another recipe, or at an earlier position.
  abbrev IsBehind : ℕ → ℕ → LineRow F → Type 0
  IsBehind id i l = ((l.recipe_id == id) ≡ false) ⊎ (l.position < i)

  untaken :
      (id i : ℕ) (lines : List (LineRow F))
      → All (IsBehind id i) lines
      → any (λ (l : LineRow F). (l.recipe_id == id) && (l.position == i)) lines ≡ false
  untaken id i [] h = refl
  untaken id i (l ∷ ls) (inl e, h) = rw (e, untaken id i ls h) refl
  untaken id i (l ∷ ls) (inr e, h) =
      let d : (l.position == i) ≡ false = ground arith in
      elim (Bool-cases (l.recipe_id == id)) [
        | inl b ↦ rw (b, d, untaken id i ls h) refl
        | inr b ↦ rw (b, untaken id i ls h) refl
      ]

  later : (id i : ℕ) (l : LineRow F) → IsBehind id (i + 2 ^ 31) l → IsBehind id (i + 1 + 2 ^ 31) l
  later id i l (inl e) = inl e
  later id i l (inr e) = inr (omega (arith, e))

  behind-without :
      (id : ℕ) (lines : List (LineRow F))
      → All (IsBehind id (2 ^ 31)) (without (λ (l : LineRow F). l.recipe_id == id) lines)
  behind-without id [] = tt
  behind-without id (l ∷ ls) = elim (Bool-cases (l.recipe_id == id)) [
    | inl e ↦ rw e (behind-without id ls)
    | inr e ↦ rw e (inl e, behind-without id ls)
  ]

  -- The tables with one more line.
  abbrev LineAdded : ℕ → ℕ → Session F → LineRow F → Session F → Type 0
  LineAdded id i s row t =
      (row.position ≡ i) × (t.store ≡ record (s.store) { lines = s.store.lines ++ row ∷ [] })

  add_recipe_ingredient-Returns :
      (id i : ℕ) (ing : RecipeIngredient F) (s : Session F)
      → s.faults ≡ []
      → has_recipe (s.store) id ≡ true
      → IsKnown (s.store) ing
      → All (IsBehind id i) s.store.lines
      → Returns
          (λ row t. LineAdded id i s row t)
          (add_recipe_ingredient id ing.ingredient_id ing.amount ing.unit_id i)
          s
  unfolding add_recipe_ingredient
  add_recipe_ingredient-Returns id i ing s c p k h =
      let row : LineRow F = record {
        id = s.next_line;
        recipe_id = id;
        ingredient_id = ing.ingredient_id;
        amount = ing.amount;
        unit_id = ing.unit_id;
        position = i;
      } in
      let after : Session F = record s {
        store = record (s.store) { lines = s.store.lines ++ row ∷ [] };
        next_line = s.next_line + 1;
      } in
      record {
        value = row;
        after = after;
        result = call-clear _ s c ∙ rw (p, k.0, k.1, untaken id i s.store.lines h) refl;
        clear = c;
        holds = (refl, refl);
      }

  -- The tables beside those of the lines and the filings.
  abbrev Same : Session F → Session F → Type 0
  Same s t = (t.store.categories ≡ s.store.categories) × (t.store.recipes ≡ s.store.recipes)

  add_lines-Returns :
      (id i : ℕ) (ings : List (RecipeIngredient F)) (s : Session F)
      → s.faults ≡ []
      → has_recipe (s.store) id ≡ true
      → All (IsKnown (s.store)) ings
      → i + length ings ≤ 2 ^ 31
      → All (IsBehind id (i + 2 ^ 31)) s.store.lines
      → Returns (λ done t. Same s t) (add_lines id i ings) s
  unfolding add_lines
  add_lines-Returns id i [] s c p k n h = Returns-pure _ s c (refl, refl)
  add_lines-Returns id i (ing ∷ ings) s c p k n h =
      let fits : int32_position i ≡ i + 2 ^ 31 = mod-eq_of_lt (omega (arith, n)) in
      rw fits (
        Returns-bind _ _ s
          (Returns-map_error _ s (add_recipe_ingredient-Returns id (i + 2 ^ 31) ing s c p k.0 h))
          λ row t d l.
            let behind : All (IsBehind id (i + 1 + 2 ^ 31)) t.store.lines =
              subst (λ (st : Store F). All (IsBehind id (i + 1 + 2 ^ 31)) st.lines) (sym l.1)
                (All-append (IsBehind id (i + 1 + 2 ^ 31)) s.store.lines (row ∷ [])
                  (All-weaken s.store.lines (λ x b. later id i x b) h)
                  (inr (omega (arith, l.0)), tt)) in
            Returns-weaken
              (λ done v e. (
                e.0 ∙ ap (λ (st : Store F). st.categories) l.1,
                e.1 ∙ ap (λ (st : Store F). st.recipes) l.1,
              ))
              (add_lines-Returns id (i + 1) ings t d
                (subst (λ (st : Store F). has_recipe st id ≡ true) (sym l.1) p)
                (subst (λ (st : Store F). All (IsKnown st) ings) (sym l.1) k.1) (omega (arith, n))
                behind))

  add_recipe_category-Returns :
      (id c : ℕ) (s : Session F)
      → s.faults ≡ []
      → has_recipe (s.store) id ≡ true
      → has_id s.store.categories c ≡ true
      → Returns (λ done t. Same s t) (add_recipe_category id c) s
  unfolding add_recipe_category
  add_recipe_category-Returns id c s clear p k = elim (Bool-cases (is_filed id c s.store.filed)) [
    | inl e ↦ record {
      value = tt;
      after = s;
      result = call-clear _ s clear ∙ rw e refl;
      clear = clear;
      holds = (refl, refl);
    }
    | inr e ↦
        let row : FiledRow = record { recipe_id = id; category_id = c } in
        let after : Session F = record s {
          store = record (s.store) { filed = s.store.filed ++ row ∷ [] };
        } in
        record {
          value = tt;
          after = after;
          result = call-clear _ s clear ∙ rw (e, p, k) refl;
          clear = clear;
          holds = (refl, refl);
        }
  ]

  pub has_recipe-same :
      (s t : Session F) (id : ℕ)
      → t.store.recipes ≡ s.store.recipes
      → has_recipe (s.store) id ≡ true
      → has_recipe (t.store) id ≡ true
  has_recipe-same s t id e h =
      subst (λ rows. any (λ (r : RecipeRow). r.id == id) rows ≡ true) (sym e) h

  categories-same :
      (s t : Session F) (cats : List Category)
      → t.store.categories ≡ s.store.categories
      → All (CategoryIsKnown (s.store)) cats
      → All (CategoryIsKnown (t.store)) cats
  categories-same s t cats e h =
      subst (λ rows. All (λ (c : Category). has_id rows c.id ≡ true) cats) (sym e) h

  add_categories-Returns :
      (id : ℕ) (cats : List Category) (s : Session F)
      → s.faults ≡ []
      → has_recipe (s.store) id ≡ true
      → All (CategoryIsKnown (s.store)) cats
      → Returns (λ done t. Unit {0}) (add_categories id cats) s
  unfolding add_categories
  add_categories-Returns id [] s c p k = Returns-pure _ s c tt
  add_categories-Returns id (cat ∷ cats) s c p k =
      Returns-bind _ _ s (Returns-map_error _ s (add_recipe_category-Returns id cat.id s c p k.0))
        λ done t d l.
          add_categories-Returns id cats t d (has_recipe-same s t id l.1 p)
            (categories-same s t cats l.0 k.1)

  delete_recipe_ingredients-Returns :
      (id : ℕ) (s : Session F)
      → s.faults ≡ []
      → Returns
          (λ done t. t.store ≡ record (s.store) {
            lines = without (λ (l : LineRow F). l.recipe_id == id) s.store.lines;
          })
          (delete_recipe_ingredients id)
          s
  unfolding delete_recipe_ingredients
  delete_recipe_ingredients-Returns id s c = record {
    value = tt;
    after = record s {
      store = record (s.store) {
        lines = without (λ (l : LineRow F). l.recipe_id == id) s.store.lines;
      };
    };
    result = call-clear _ s c;
    clear = c;
    holds = refl;
  }

  delete_recipe_categories-Returns :
      (id : ℕ) (s : Session F)
      → s.faults ≡ []
      → Returns (λ done t. Same s t) (delete_recipe_categories id) s
  unfolding delete_recipe_categories
  delete_recipe_categories-Returns id s c = record {
    value = tt;
    after = record s {
      store = record (s.store) {
        filed = without (λ (f : FiledRow). f.recipe_id == id) s.store.filed;
      };
    };
    result = call-clear _ s c;
    clear = c;
    holds = (refl, refl);
  }

  pub write_associations-Returns :
      (r : Recipe F) (s : Session F)
      → s.faults ≡ []
      → has_recipe (s.store) r.id ≡ true
      → All (IsKnown (s.store)) r.ingredients
      → All (CategoryIsKnown (s.store)) r.categories
      → length r.ingredients ≤ 2 ^ 31
      → Returns (λ done t. Unit {0}) (write_associations r) s
  unfolding write_associations
  write_associations-Returns r s c p k l n =
      Returns-bind _ _ s (Returns-map_error _ s (delete_recipe_ingredients-Returns r.id s c))
        λ _ t d e.
          Returns-bind _ _ t
            (add_lines-Returns r.id 0 r.ingredients t d
              (subst (λ (st : Store F). has_recipe st r.id ≡ true) (sym e) p)
              (subst (λ (st : Store F). All (IsKnown st) r.ingredients) (sym e) k)
              (omega (arith, n))
              (subst (λ (st : Store F). All (IsBehind r.id (2 ^ 31)) st.lines) (sym e)
                (behind-without r.id s.store.lines)))
            λ _ v f q.
              Returns-bind _ _ v (Returns-map_error _ v (delete_recipe_categories-Returns r.id v f))
                λ _ w g x.
                  let recipes : w.store.recipes ≡ s.store.recipes =
                    x.1 ∙ q.1 ∙ ap (λ (st : Store F). st.recipes) e in
                  let categories : w.store.categories ≡ s.store.categories =
                    x.0 ∙ q.0 ∙ ap (λ (st : Store F). st.categories) e in
                  add_categories-Returns r.id r.categories w g (has_recipe-same s w r.id recipes p)
                    (categories-same s w r.categories categories l)
