-- ===== src/Repository/Recipes/Writes.antt =====
-- What the work of `Create`, internal/repository/recipe_repository.go, stores.
use recipe_reader.Common.{
  ℕ, ◌≡◌, refl, ap, sym, subst, ◌∙◌, inl, inr, Bool, true, false, List, [], ◌∷◌, ◌++◌, any,
  Bool-cases,
}
use recipe_reader.Text.{Text, text_eq}
use recipe_reader.Domain.{valid, Recipe}
use recipe_reader.Db.Store.{RecipeRow, Store, Session}
use recipe_reader.Db.Store.Post.{
  Post, returns, raises, Post-map_error, Post-call, Post-bind, Post-weaken,
}
use recipe_reader.Db.Statements.{create_recipe}
use recipe_reader.Repository.Recipes.{created}
use recipe_reader.Repository.Recipes.Resolved.{IsResolvedRecipe}
use recipe_reader.Repository.Recipes.Associations.{IsAssociated, from_before, associated-returns}

-- The row of a recipe.
abbrev pub row_of : {F : Type 0} → Recipe F → RecipeRow
row_of r = record {
  id = r.id;
  name = r.name;
  instructions = r.instructions;
  image_url = r.image_url;
  source = r.source;
  status = r.status;
  created_at = r.created_at;
  updated_at = r.updated_at;
}

abbrev pub has_source : Text → List RecipeRow → Bool
has_source source rows = any (λ (row : RecipeRow). text_eq row.source source) rows

-- A recipe that `Create` has stored: the given one with the next id, with its associations
-- resolved by the rows that are stored. Its source is new, and its row is behind those from before.
pub record IsStored {F : Type 0} (r : Recipe F) (before : Store F) (next : ℕ) (after : Store F)
    (r' : Recipe F) : Type 0 where
  pub created_at : ℕ
  pub resolved :
      IsResolvedRecipe after
        (record r { id = next; created_at = created_at; updated_at = created_at })
        r'
  pub fresh : has_source r.source before.recipes ≡ false
  pub status_valid : valid r.status ≡ true
  pub recipes : after.recipes ≡ before.recipes ++ row_of r' ∷ []
  pub associations : IsAssociated r' before after

module _ {F : Type 0} where
  row_of-resolved :
      (st : Store F) (r r' : Recipe F) → IsResolvedRecipe st r r' → row_of r' ≡ row_of r
  row_of-resolved st r r' h =
      rw (h.id, h.name, h.instructions, h.image_url, h.source, h.status, h.created_at, h.updated_at)
        refl

  -- The recipe as `Create` stages it.
  abbrev staged : Recipe F → ℕ → ℕ → Recipe F
  staged r id time = record r { id = id; created_at = time; updated_at = time }

  -- What `CreateRecipe` answers.
  abbrev Inserted : Recipe F → Session F → RecipeRow → Session F → Type 0
  Inserted r s row t =
      (row ≡ row_of (staged r s.next_recipe row.created_at))
      × ((has_source r.source s.store.recipes ≡ false)
          × ((valid r.status ≡ true)
              × (t.store ≡ record (s.store) { recipes = s.store.recipes ++ row ∷ [] })))

  create_recipe-returns :
      (r : Recipe F) (s : Session F)
      → Post (Inserted r s) (create_recipe r.name r.instructions r.image_url r.source r.status s)
  unfolding create_recipe
  create_recipe-returns r s = Post-call _ s λ t h. elim (Bool-cases (valid r.status)) [
    | inr v ↦ rw v raises
    | inl v ↦ elim (Bool-cases (has_source r.source t.store.recipes)) [
      | inl e ↦ rw (v, e) raises
      | inr e ↦
          let row : RecipeRow = row_of (staged r t.next_recipe t.now) in
          rw (v, e)
            (returns (
              ap (λ n. row_of (staged r n t.now)) h.next_recipe,
              (
                subst (λ (st : Store F). has_source r.source st.recipes ≡ false) h.store e,
                (v, ap (λ (st : Store F). record st { recipes = st.recipes ++ row ∷ [] }) h.store),
              ),
            ))
    ]
  ]

  Inserted-IsStored :
      (r r' : Recipe F) (s t v : Session F) (row : RecipeRow)
      → Inserted r s row t
      → IsResolvedRecipe
          (v.store)
          (record r { id = row.id; created_at = row.created_at; updated_at = row.updated_at })
          r'
      → IsAssociated r' t.store v.store
      → v.store.recipes ≡ t.store.recipes
      → IsStored r (s.store) s.next_recipe (v.store) r'
  Inserted-IsStored r r' s t v row h k a q =
      let resolved : IsResolvedRecipe (v.store) (staged r s.next_recipe row.created_at) r' =
        record {
          id = k.id ∙ ap (λ (x : RecipeRow). x.id) h.0;
          name = k.name;
          instructions = k.instructions;
          image_url = k.image_url;
          source = k.source;
          status = k.status;
          created_at = k.created_at;
          updated_at = k.updated_at ∙ ap (λ (x : RecipeRow). x.updated_at) h.0;
          ingredients = k.ingredients;
          categories = k.categories;
        } in
      record {
        created_at = row.created_at;
        resolved = resolved;
        fresh = h.1.0;
        status_valid = h.1.1.0;
        recipes =
            q
            ∙ ap (λ (st : Store F). st.recipes) h.1.1.1
            ∙ ap (λ (x : RecipeRow). s.store.recipes ++ x ∷ [])
                (h.0 ∙ sym (row_of-resolved (v.store) _ r' resolved));
        associations =
            from_before r' (s.store) (t.store) (v.store) (ap (λ (st : Store F). st.lines) h.1.1.1)
              (ap (λ (st : Store F). st.filed) h.1.1.1) a;
      }

  pub created-returns :
      (r : Recipe F) (s : Session F)
      → Post (λ r' t. IsStored r (s.store) s.next_recipe (t.store) r') (created r s)
  unfolding created
  created-returns r s =
      Post-bind _ _ s (Post-map_error _ _ s (create_recipe-returns r s)) λ row t h.
        Post-weaken _ (associated-returns _ t)
          λ r' v k. Inserted-IsStored r r' s t v row h k.0 k.1.0 k.1.1
