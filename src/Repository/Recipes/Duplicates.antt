-- ===== src/Repository/Recipes/Duplicates.antt =====
-- The dedupe of `Create`, internal/repository/recipe_repository.go.
use recipe_reader.Common.{◌+◌, ◌≡◌, refl, ap, ◌∙◌, true, [], some}
use recipe_reader.Errors.{Error, Sentinel, sentinel, errors_is, Result, ok, err}
use recipe_reader.Domain.{valid, Recipe}
use recipe_reader.Db.Store.{Session, Action, ◌>>=◌, pure, call, map_error}
use recipe_reader.Db.Statements.{create_recipe}
use recipe_reader.Repository.Recipes.{transact, worked, created, handed, create}
use recipe_reader.Repository.Recipes.Writes.{has_source}

pub bind-err :
    {F A B : Type 0} (m : Action F A) (f : A → Action F B) (e : Error) (s t : Session F)
    → m s ≡ (err e, t)
    → (m >>= f) s ≡ (err e, t)
unfolding ◌>>=◌
bind-err m f e s t h = rw h refl

pub map_error-err :
    {F A : Type 0} (f : Error → Error) (m : Action F A) (e : Error) (s t : Session F)
    → m s ≡ (err e, t)
    → map_error f m s ≡ (err (f e), t)
unfolding map_error
map_error-err f m e s t h = rw h refl

begun-clear : {F : Type 0} (s : Session F) → s.faults ≡ [] → call (pure tt) s ≡ (ok tt, s)
unfolding call pure
begun-clear s h = rw h refl

module _ {F A : Type 0} where
  pub transact-clear :
      (work : Action F A) (s : Session F) → s.faults ≡ [] → transact work s ≡ worked work s
  unfolding transact ◌>>=◌ map_error
  transact-clear work s h = rw (begun-clear s h) refl

  worked-err :
      (work : Action F A) (e : Error) (s t : Session F)
      → work s ≡ (err e, t)
      → worked work s ≡ (err e, record t { store = s.store })
  unfolding worked
  worked-err work e s t h = rw h refl

module _ {F : Type 0} where
  create_recipe-duplicate :
      (r : Recipe F) (s : Session F)
      → s.faults ≡ []
      → valid r.status ≡ true
      → has_source r.source s.store.recipes ≡ true
      → create_recipe r.name r.instructions r.image_url r.source r.status s
        ≡ (err (sentinel Sentinel.no_rows), record s { next_recipe = s.next_recipe + 1 })
  unfolding create_recipe call
  create_recipe-duplicate r s h v e = rw (h, v, e) refl

  created-duplicate :
      (r : Recipe F) (s : Session F)
      → s.faults ≡ []
      → valid r.status ≡ true
      → has_source r.source s.store.recipes ≡ true
      → created r s
        ≡ (err (sentinel Sentinel.duplicate_source), record s { next_recipe = s.next_recipe + 1 })
  unfolding created errors_is
  created-duplicate r s h v e =
      bind-err _ _ _ s _ (map_error-err _ _ _ s _ (create_recipe-duplicate r s h v e))

  -- A recipe whose source is stored is refused as a duplicate, and nothing but a number of the
  -- sequence is spent. The condition is that its status is valid and that no call fails.
  pub create-duplicate :
      (r : Recipe F) (s : Session F)
      → s.faults ≡ []
      → valid r.status ≡ true
      → has_source r.source s.store.recipes ≡ true
      → create r s ≡ (
        (some (sentinel Sentinel.duplicate_source), r),
        record s { next_recipe = s.next_recipe + 1 },
      )
  unfolding create
  create-duplicate r s h v e =
      ap (λ (p : Result (Recipe F) × Session F). (handed r p.0, p.1))
        (transact-clear (created r) s h
          ∙ worked-err (created r) _ s _ (created-duplicate r s h v e))
