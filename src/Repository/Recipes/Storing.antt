-- ===== src/Repository/Recipes/Storing.antt =====
-- `Create` of internal/repository/recipe_repository.go when no call fails.
use recipe_reader.Common.{
  ◌+◌, ◌^◌, ◌≤◌, ◌≡◌, refl, ap, sym, subst, ◌∙◌, inl, inr, true, false, [], ◌∷◌, ◌++◌, Option, none,
  ◌==◌, length, All, any-append-right, equal_refl,
}
use recipe_reader.Errors.{Error, Sentinel, Result, ok}
use recipe_reader.Domain.{Recipe, valid}
use recipe_reader.Db.Store.{RecipeRow, Store, Session, Action, pure, map_error}
use recipe_reader.Db.Statements.{has_recipe, create_recipe}
use recipe_reader.Repository.Reads.Clear.{call-clear, map_error-clear}
use recipe_reader.Repository.Recipes.{
  associated, created, worked, committed, create, or_sentinel, handed,
}
use recipe_reader.Repository.Recipes.Duplicates.{transact-clear}
use recipe_reader.Repository.Recipes.Writes.{IsStored, has_source, row_of}
use recipe_reader.Repository.Recipes.Atomicity.{Ended, create-Ended}
use recipe_reader.Repository.Recipes.Vocabulary.{Returns, Returns-pure, Returns-bind}
use recipe_reader.Repository.Recipes.Resolution.{IsNamed, CategoryIsNamed, resolve_lookups-Returns}
use recipe_reader.Repository.Recipes.Success.{has_recipe-same, write_associations-Returns}

module _ {F : Type 0} where
  -- A recipe as the API and an import pass it: its lines and categories carry names and no ids, and
  -- the positions of the lines fit 32 bits.
  pub record IsByName (r : Recipe F) : Type 0 where
    pub ingredients : All IsNamed r.ingredients
    pub categories : All CategoryIsNamed r.categories
    pub lines : length r.ingredients ≤ 2 ^ 31

  associated-Returns :
      (r : Recipe F) (s : Session F)
      → s.faults ≡ []
      → has_recipe (s.store) r.id ≡ true
      → IsByName r
      → Returns (λ r' t. Unit {0}) (associated r) s
  unfolding associated
  associated-Returns r s c p h =
      Returns-bind _ _ s (resolve_lookups-Returns r s c h.ingredients h.categories) λ r' t d k.
        let there : has_recipe (t.store) r'.id ≡ true =
          subst (λ id. has_recipe (t.store) id ≡ true) (sym k.id)
            (has_recipe-same s t r.id k.grows.recipes p) in
        let few : length r'.ingredients ≤ 2 ^ 31 = subst (λ n. n ≤ 2 ^ 31) (sym k.lines) h.lines in
        Returns-bind _ _ t (write_associations-Returns r' t d there k.ingredients k.categories few)
          λ done v e l. Returns-pure _ v e tt

  -- The row that `CreateRecipe` inserts.
  abbrev inserted : Recipe F → Session F → RecipeRow
  inserted r s = row_of (record r { id = s.next_recipe; created_at = s.now; updated_at = s.now })

  create_recipe-Returns :
      (r : Recipe F) (s : Session F)
      → s.faults ≡ []
      → valid r.status ≡ true
      → has_source r.source s.store.recipes ≡ false
      → Returns
          (λ row t. has_recipe (t.store) row.id ≡ true)
          (map_error
            (or_sentinel Sentinel.duplicate_source)
            (create_recipe r.name r.instructions r.image_url r.source r.status))
          s
  unfolding create_recipe
  create_recipe-Returns r s c v e =
      let after : Session F = record s {
        store = record (s.store) { recipes = s.store.recipes ++ inserted r s ∷ [] };
        next_recipe = s.next_recipe + 1;
      } in
      record {
        value = inserted r s;
        after = after;
        result = map_error-clear _ _ (inserted r s) s after (call-clear _ s c ∙ rw (v, e) refl);
        clear = c;
        holds =
            any-append-right (λ (x : RecipeRow). x.id == s.next_recipe) s.store.recipes
              (inserted r s ∷ []) (rw (equal_refl s.next_recipe) refl);
      }

  created-Returns :
      (r : Recipe F) (s : Session F)
      → s.faults ≡ []
      → valid r.status ≡ true
      → has_source r.source s.store.recipes ≡ false
      → IsByName r
      → Returns (λ r' t. Unit {0}) (created r) s
  unfolding created
  created-Returns r s c v e h = Returns-bind _ _ s (create_recipe-Returns r s c v e) λ row t d k.
      associated-Returns _ t d k
        (record { ingredients = h.ingredients; categories = h.categories; lines = h.lines })

  worked-ok :
      {A : Type 0} (work : Action F A) (a : A) (s t : Session F)
      → work s ≡ (ok a, t)
      → t.faults ≡ []
      → worked work s ≡ (ok a, t)
  unfolding worked committed pure
  worked-ok work a s t h c = rw (h, call-clear (pure a) t c) refl

  create-returned :
      (r : Recipe F) (s : Session F)
      → s.faults ≡ []
      → Returns (λ r' t. Unit {0}) (created r) s
      → (r' : Recipe F) × ((create r s).0 ≡ (none, r'))
  unfolding create
  create-returned r s c h = (
    h.value,
    ap (λ (p : Result (Recipe F) × Session F). handed r p.0)
        (transact-clear (created r) s c ∙ worked-ok (created r) h.value s h.after h.result h.clear),
  )

  settled-stored :
      (r r' : Recipe F) (Q : Recipe F → Store F → Type 0) (before : Store F)
      (p : (Option Error × Recipe F) × Session F)
      → p.0 ≡ (none, r')
      → Ended Q r before p
      → Q r' (p.1.store)
  unfolding Ended
  settled-stored r r' Q before p e (inl (x, q, k)) =
      subst (λ y. Q y (p.1.store)) (ap (λ (y : Option Error × Recipe F). y.1) (sym q ∙ e)) k
  settled-stored r r' Q before p e (inr (x, q, k)) = cc (e, q)

  -- A valid recipe with a new source, of which the lines and the categories carry names, is stored:
  -- `Create` returns no error, and what it has stored is the whole recipe. The condition is that no
  -- call of the database fails.
  pub create-IsStored :
      (r : Recipe F) (s : Session F)
      → s.faults ≡ []
      → valid r.status ≡ true
      → has_source r.source s.store.recipes ≡ false
      → IsByName r
      → (r' : Recipe F) × ((create r s).0 ≡ (none, r'))
        × IsStored r (s.store) s.next_recipe ((create r s).1.store) r'
  create-IsStored r s c v e h =
      let (r', q) = create-returned r s c (created-Returns r s c v e h) in
      (r', q, settled-stored r r' _ (s.store) (create r s) q (create-Ended r s))
