-- ===== src/Repository/Recipes/Filing.antt =====
-- The loop over the categories of `writeAssociations`,
-- internal/repository/recipe_repository.go.
use recipe_reader.Common.{
  ℕ, ◌≡◌, refl, ap, sym, subst, ◌∙◌, inl, inr, Bool, true, ◌&&◌, List, [], ◌∷◌, ◌++◌, All,
  All-append, ◌==◌, any, Bool-cases, append-nil, append_assoc, equal_refl, any-append-left,
  any-append-right, All-weaken, or_true,
}
use recipe_reader.Errors.{wrap}
use recipe_reader.Domain.{Category}
use recipe_reader.Db.Store.{FiledRow, Session, has_id}
use recipe_reader.Db.Store.Post.{
  Post, returns, raises, Post-pure, Post-map_error, Post-call, Post-bind, Post-weaken,
}
use recipe_reader.Db.Statements.{add_recipe_category, has_recipe}
use recipe_reader.Repository.Recipes.{add_categories}

-- The recipe is in the category.
abbrev pub is_filed : ℕ → ℕ → List FiledRow → Bool
is_filed id c rows = any (λ (f : FiledRow). (f.recipe_id == id) && (f.category_id == c)) rows

-- What adding categories does to a session: there are rows behind the old ones, all of the recipe
-- and of the categories, and the recipe is in each of them.
pub record CategoriesAdded {F : Type 0} (id : ℕ) (cats : List Category) (s t : Session F)
    : Type 0 where
  pub rows : List FiledRow
  pub filed : t.store.filed ≡ s.store.filed ++ rows
  pub only :
      All
        (λ (f : FiledRow).
          (f.recipe_id ≡ id) × (any (λ (c : Category). c.id == f.category_id) cats ≡ true))
        rows
  pub each : All (λ (c : Category). is_filed id c.id t.store.filed ≡ true) cats
  pub recipes : t.store.recipes ≡ s.store.recipes
  pub lines : t.store.lines ≡ s.store.lines

pub record CategoryAdded {F : Type 0} (id c : ℕ) (s t : Session F) : Type 0 where
  pub rows : List FiledRow
  pub filed : t.store.filed ≡ s.store.filed ++ rows
  pub only : All (λ (f : FiledRow). (f.recipe_id ≡ id) × ((c == f.category_id) ≡ true)) rows
  pub there : is_filed id c t.store.filed ≡ true
  pub recipes : t.store.recipes ≡ s.store.recipes
  pub lines : t.store.lines ≡ s.store.lines

module _ {F : Type 0} where
  add_recipe_category-returns :
      (id c : ℕ) (s : Session F)
      → Post (λ done t. CategoryAdded id c s t) (add_recipe_category id c s)
  unfolding add_recipe_category
  add_recipe_category-returns id c s = Post-call _ s λ t h.
      elim (Bool-cases (is_filed id c t.store.filed)) [
        | inl e ↦ rw e (
            returns (record {
              rows = [];
              filed = ap (λ st. st.filed) h.store ∙ sym (append-nil s.store.filed);
              only = tt;
              there = e;
              recipes = ap (λ st. st.recipes) h.store;
              lines = ap (λ st. st.lines) h.store;
            }))
        | inr e ↦ elim (Bool-cases (has_recipe (t.store) id && has_id t.store.categories c)) [
          | inr n ↦ rw (e, n) raises
          | inl n ↦
              let row : FiledRow = record { recipe_id = id; category_id = c } in
              rw (e, n)
                (returns (record {
                  rows = row ∷ [];
                  filed = ap (λ st. st.filed ++ (row ∷ [])) h.store;
                  only = ((refl, equal_refl c), tt);
                  there =
                      any-append-right _ t.store.filed (row ∷ [])
                        (rw (equal_refl id, equal_refl c) refl);
                  recipes = ap (λ st. st.recipes) h.store;
                  lines = ap (λ st. st.lines) h.store;
                }))
        ]
      ]

  added-first :
      (id : ℕ) (cat : Category) (cats : List Category) (s t v : Session F)
      → CategoryAdded id cat.id s t
      → CategoriesAdded id cats t v
      → CategoriesAdded id (cat ∷ cats) s v
  added-first id cat cats s t v h k = record {
    rows = h.rows ++ k.rows;
    filed = k.filed ∙ ap (λ fs. fs ++ k.rows) h.filed ∙ append_assoc s.store.filed h.rows k.rows;
    only =
        All-append _ h.rows k.rows (All-weaken h.rows (λ f q. (q.0, rw q.1 refl)) h.only)
          (All-weaken k.rows (λ f q. (q.0, rw q.1 (or_true (cat.id == f.category_id)))) k.only);
    each = (
      subst (λ fs. is_filed id cat.id fs ≡ true) (sym k.filed)
          (any-append-left _ t.store.filed k.rows h.there),
      k.each,
    );
    recipes = k.recipes ∙ h.recipes;
    lines = k.lines ∙ h.lines;
  }

  pub add_categories-returns :
      (id : ℕ) (cats : List Category) (s : Session F)
      → Post (λ done t. CategoriesAdded id cats s t) (add_categories id cats s)
  unfolding add_categories
  add_categories-returns id [] s = Post-pure tt s (record {
    rows = [];
    filed = sym (append-nil s.store.filed);
    only = tt;
    each = tt;
    recipes = refl;
    lines = refl;
  })
  add_categories-returns id (cat ∷ cats) s =
      Post-bind _ _ s (Post-map_error wrap _ s (add_recipe_category-returns id cat.id s))
        λ done t h.
          Post-weaken _ (add_categories-returns id cats t)
            λ done' v k. added-first id cat cats s t v h k
