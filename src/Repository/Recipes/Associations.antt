-- ===== src/Repository/Recipes/Associations.antt =====
-- What `resolveLookups` and `writeAssociations`, internal/repository/recipe_repository.go, store
-- for a recipe.
use recipe_reader.Common.{ℕ, ◌≡◌, ap, ◌∙◌, Bool, true, List, ◌++◌, All, ◌==◌, any}
use recipe_reader.Errors.{wrap}
use recipe_reader.Domain.{Category, Recipe}
use recipe_reader.Db.Store.{LineRow, FiledRow, Store, Session, without}
use recipe_reader.Db.Store.Post.{
  Post, returns, Post-pure, Post-map_error, Post-call, Post-bind, Post-weaken, Post-both,
}
use recipe_reader.Db.Statements.{delete_recipe_ingredients, delete_recipe_categories}
use recipe_reader.Repository.Recipes.{write_associations, associated}
use recipe_reader.Repository.Recipes.Resolved.{IsResolvedRecipe, IsResolvedRecipe-kept}
use recipe_reader.Repository.Recipes.Lookups.{resolve_lookups-returns}
use recipe_reader.Repository.Recipes.Keeping.{write_associations-Keeps}
use recipe_reader.Repository.Recipes.Lines.{Numbered, add_lines-returns}
use recipe_reader.Repository.Recipes.Filing.{is_filed, add_categories-returns}

abbrev of_line : {F : Type 0} → ℕ → LineRow F → Bool
of_line id l = l.recipe_id == id

abbrev of_filed : ℕ → FiledRow → Bool
of_filed id f = f.recipe_id == id

-- The associations of a recipe in the tables: its lines are those of the recipe, in order and with
-- consecutive positions, and its categories are those of the recipe; the rows of other recipes are
-- those from before.
pub record IsAssociated {F : Type 0} (r : Recipe F) (before after : Store F) : Type 0 where
  pub rows : List (LineRow F)
  pub numbered : Numbered r.id 0 r.ingredients rows
  pub lines : after.lines ≡ without (of_line r.id) before.lines ++ rows
  pub pairs : List FiledRow
  pub filed : after.filed ≡ without (of_filed r.id) before.filed ++ pairs
  pub only :
      All
        (λ (f : FiledRow).
          (f.recipe_id ≡ r.id)
          × (any (λ (c : Category). c.id == f.category_id) r.categories ≡ true))
        pairs
  pub each : All (λ (c : Category). is_filed r.id c.id after.filed ≡ true) r.categories

module _ {F : Type 0} where
  delete_recipe_ingredients-returns :
      (id : ℕ) (s : Session F)
      → Post
          (λ done t.
            (t.store.lines ≡ without (of_line id) s.store.lines)
            × ((t.store.recipes ≡ s.store.recipes) × (t.store.filed ≡ s.store.filed)))
          (delete_recipe_ingredients id s)
  unfolding delete_recipe_ingredients
  delete_recipe_ingredients-returns id s = Post-call _ s λ t h. returns (
    ap (λ st. without (of_line id) st.lines) h.store,
    (ap (λ st. st.recipes) h.store, ap (λ st. st.filed) h.store),
  )

  delete_recipe_categories-returns :
      (id : ℕ) (s : Session F)
      → Post
          (λ done t.
            (t.store.filed ≡ without (of_filed id) s.store.filed)
            × ((t.store.recipes ≡ s.store.recipes) × (t.store.lines ≡ s.store.lines)))
          (delete_recipe_categories id s)
  unfolding delete_recipe_categories
  delete_recipe_categories-returns id s = Post-call _ s λ t h. returns (
    ap (λ st. without (of_filed id) st.filed) h.store,
    (ap (λ st. st.recipes) h.store, ap (λ st. st.lines) h.store),
  )

  write_associations-returns :
      (r : Recipe F) (s : Session F)
      → Post
          (λ done t. IsAssociated r s.store t.store × (t.store.recipes ≡ s.store.recipes))
          (write_associations r s)
  unfolding write_associations
  write_associations-returns r s =
      Post-bind _ _ s (Post-map_error wrap _ s (delete_recipe_ingredients-returns r.id s)) λ _ t h.
        Post-bind _ _ t (add_lines-returns r.id 0 r.ingredients t) λ _ v k.
          Post-bind _ _ v (Post-map_error wrap _ v (delete_recipe_categories-returns r.id v))
            λ _ w l. Post-weaken _ (add_categories-returns r.id r.categories w) λ _ x m. (
              record {
                rows = k.rows;
                numbered = k.numbered;
                lines = m.lines ∙ l.1.1 ∙ k.lines ∙ ap (λ ls. ls ++ k.rows) h.0;
                pairs = m.rows;
                filed =
                    m.filed
                    ∙ ap (λ fs. fs ++ m.rows)
                        (l.0 ∙ ap (λ fs. without (of_filed r.id) fs) (k.same.filed ∙ h.1.1));
                only = m.only;
                each = m.each;
              },
              m.recipes ∙ l.1.0 ∙ k.same.recipes ∙ h.1.0,
            )

  pub from_before :
      (r : Recipe F) (before between after : Store F)
      → between.lines ≡ before.lines
      → between.filed ≡ before.filed
      → IsAssociated r between after
      → IsAssociated r before after
  from_before r before between after hl hf k = record {
    rows = k.rows;
    numbered = k.numbered;
    lines = k.lines ∙ ap (λ ls. without (of_line r.id) ls ++ k.rows) hl;
    pairs = k.pairs;
    filed = k.filed ∙ ap (λ fs. without (of_filed r.id) fs ++ k.pairs) hf;
    only = k.only;
    each = k.each;
  }

  pub associated-returns :
      (r : Recipe F) (s : Session F)
      → Post
          (λ r' t.
            IsResolvedRecipe (t.store) r r'
            × (IsAssociated r' s.store t.store × (t.store.recipes ≡ s.store.recipes)))
          (associated r s)
  unfolding associated
  associated-returns r s = Post-bind _ _ s (resolve_lookups-returns r s) λ r' t h.
      Post-bind _ _ t
        (Post-both _ (write_associations-returns r' t) (write_associations-Keeps r' t))
        λ _ v k. Post-pure r' v (
          IsResolvedRecipe-kept (t.store) (v.store) k.1 r r' h.1,
          (
            from_before r' (s.store) (t.store) (v.store) h.0.lines h.0.filed k.0.0,
            k.0.1 ∙ h.0.recipes,
          ),
        )
