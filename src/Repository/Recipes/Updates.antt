-- ===== src/Repository/Recipes/Updates.antt =====
-- What the work of `Update`, internal/repository/recipe_repository.go, stores.
use recipe_reader.Common.{
  ℕ, ◌≡◌, refl, ap, subst, ◌∙◌, inl, inr, Bool, true, map, some, ◌==◌, Bool-cases, Option-cases,
}
use recipe_reader.Domain.{valid, Recipe}
use recipe_reader.Db.Store.{RecipeRow, Store, Session, find}
use recipe_reader.Db.Store.Post.{
  Post, returns, raises, Post-map_error, Post-call, Post-bind, Post-weaken,
}
use recipe_reader.Db.Statements.{update_recipe, rewritten}
use recipe_reader.Repository.Recipes.{updated}
use recipe_reader.Repository.Recipes.Resolved.{IsResolvedRecipe}
use recipe_reader.Repository.Recipes.Names.{find-holds}
use recipe_reader.Repository.Recipes.Associations.{IsAssociated, from_before, associated-returns}

abbrev pub with_id : ℕ → RecipeRow → Bool
with_id id x = x.id == id

-- A recipe that `Update` has stored: its row is rewritten but for its source and the time of its
-- creation, which the caller's recipe gets.
pub record IsUpdated {F : Type 0} (r : Recipe F) (before after : Store F) (r' : Recipe F)
    : Type 0 where
  pub row : RecipeRow
  pub found : find (with_id r.id) before.recipes ≡ some row
  pub status_valid : valid r.status ≡ true
  pub now : ℕ
  pub resolved :
      IsResolvedRecipe after (record r { created_at = row.created_at; updated_at = now }) r'
  pub recipes :
      after.recipes
      ≡ map (rewritten r.id r.name r.instructions r.image_url r.status now) before.recipes
  pub associations : IsAssociated r' before after

module _ {F : Type 0} where
  abbrev rewrite_for : Recipe F → ℕ → RecipeRow → RecipeRow
  rewrite_for r now = rewritten r.id r.name r.instructions r.image_url r.status now

  -- What `UpdateRecipe` answers.
  record Answered (r : Recipe F) (s : Session F) (row : RecipeRow) (t : Session F) : Type 0 where
    old : RecipeRow
    found : find (with_id r.id) s.store.recipes ≡ some old
    status_valid : valid r.status ≡ true
    created_at : row.created_at ≡ old.created_at
    store :
        t.store ≡ record (s.store) { recipes = map (rewrite_for r row.updated_at) s.store.recipes }

  update_recipe-returns :
      (r : Recipe F) (s : Session F)
      → Post (Answered r s) (update_recipe r.id r.name r.instructions r.image_url r.status s)
  unfolding update_recipe
  update_recipe-returns r s = Post-call _ s λ t h.
      elim (Option-cases (find (with_id r.id) t.store.recipes)) [
        | inl e ↦ rw e raises
        | inr (old, e) ↦ elim (Bool-cases (valid r.status)) [
          | inr v ↦ rw (e, v) raises
          | inl v ↦
              rw (e, v, find-holds (with_id r.id) t.store.recipes old e)
                (returns (record {
                  old = old;
                  found =
                      subst (λ (st : Store F). find (with_id r.id) st.recipes ≡ some old) h.store e;
                  status_valid = v;
                  created_at = refl;
                  store =
                      ap
                        (λ (st : Store F). record st {
                          recipes = map (rewrite_for r t.now) st.recipes;
                        })
                        h.store;
                }))
        ]
      ]

  Answered-IsUpdated :
      (r r' : Recipe F) (s t v : Session F) (row : RecipeRow)
      → Answered r s row t
      → IsResolvedRecipe
          (v.store)
          (record r { created_at = row.created_at; updated_at = row.updated_at })
          r'
      → IsAssociated r' t.store v.store
      → v.store.recipes ≡ t.store.recipes
      → IsUpdated r (s.store) (v.store) r'
  Answered-IsUpdated r r' s t v row h k a q = record {
    row = h.old;
    found = h.found;
    status_valid = h.status_valid;
    now = row.updated_at;
    resolved = record {
      id = k.id;
      name = k.name;
      instructions = k.instructions;
      image_url = k.image_url;
      source = k.source;
      status = k.status;
      created_at = k.created_at ∙ h.created_at;
      updated_at = k.updated_at;
      ingredients = k.ingredients;
      categories = k.categories;
    };
    recipes = q ∙ ap (λ (st : Store F). st.recipes) h.store;
    associations =
        from_before r' (s.store) (t.store) (v.store) (ap (λ (st : Store F). st.lines) h.store)
          (ap (λ (st : Store F). st.filed) h.store) a;
  }

  pub updated-returns :
      (r : Recipe F) (s : Session F)
      → Post (λ r' t. IsUpdated r (s.store) (t.store) r') (updated r s)
  unfolding updated
  updated-returns r s =
      Post-bind _ _ s (Post-map_error _ _ s (update_recipe-returns r s)) λ row t h.
        Post-weaken _ (associated-returns _ t)
          λ r' v k. Answered-IsUpdated r r' s t v row h k.0 k.1.0 k.1.1
