-- ===== src/Api/Handlers/Deletion.antt =====
-- What `handleGetRecipe` answers after `handleDeleteRecipe`, internal/api/handlers_recipes.go.
use recipe_reader.Common.{
  ℕ, ◌≡◌, ◌≢◌, refl, inl, inr, [], Option, none, some, if◌then◌else◌, ◌==◌, ==_iff, Bool-cases,
}
use recipe_reader.Text.{codes}
use recipe_reader.Errors.{Error, Sentinel, errors_is, Result}
use recipe_reader.Domain.{Recipe}
use recipe_reader.Db.Store.{RecipeRow, Session}
use recipe_reader.Db.Reads.{Locale}
use recipe_reader.Repository.Reads.Removal.{
  removed, removal, row_of_id, recipe_at, delete-clear, get_by_id-clear, recipe_at-removed,
  find-without_self,
}
use recipe_reader.Repository.Postgres.{recipe_repository}
use recipe_reader.Api.Http.{Request, ResponseWriter}
use recipe_reader.Api.Middleware.{write_error}
use recipe_reader.Api.Dto.{Reply, error_reply}
use recipe_reader.Api.Handlers.{
  Reader, write_internal_error, parse_id_param, got, deleted, handle_get_recipe,
  handle_delete_recipe,
}

module _ {F S : Type 0} (out : ResponseWriter (Reply F) S)
    (log : Request → Error → Session F → Session F) (reader : Reader F) (locale : Locale) where
  got-answer :
      (r : Request) (found : Result (Recipe F)) (s : S) (w w' : Session F)
      → (got out log r found s w).0 ≡ (got out log r found s w').0
  unfolding write_internal_error
  got-answer r (Result.ok recipe) s w w' = refl
  got-answer r (Result.err e) s w w' = elim (Bool-cases (errors_is e Sentinel.not_found)) [
    | inl m ↦ rw m refl
    | inr m ↦ rw m refl
  ]

  deleted-world :
      (r : Request) (row : Option RecipeRow) (s : S) (w : Session F)
      → (deleted out log r (removal row) s w).1 ≡ w
  unfolding errors_is
  deleted-world r none s w = refl
  deleted-world r (some row) s w = refl

  handle_get_recipe-clear :
      (r : Request) (s : S) (w : Session F) (id : ℕ)
      → w.faults ≡ []
      → parse_id_param reader r ≡ some id
      → handle_get_recipe out log reader (recipe_repository locale) r s w
        ≡ got out log r (recipe_at locale (w.store) (row_of_id id w.store.recipes)) s w
  unfolding handle_get_recipe
  handle_get_recipe-clear r s w id h e = rw (e, get_by_id-clear locale id w h) refl

  handle_delete_recipe-world :
      (r : Request) (s : S) (w : Session F) (id : ℕ)
      → w.faults ≡ []
      → parse_id_param reader r ≡ some id
      → (handle_delete_recipe out log reader (recipe_repository locale) r s w).1
        ≡ record w { store = removed id (w.store) }
  unfolding handle_delete_recipe
  handle_delete_recipe-world r s w id h e =
      rw (e, delete-clear id w h) (deleted-world r (row_of_id id w.store.recipes) s _)

  -- After a DELETE of a recipe, whether it was there or not, a GET of it is answered with 404, and
  -- a GET of any other recipe is answered as it was before. The condition is that the two paths
  -- hold ids and that no call of the database fails.
  pub handle_delete_recipe-isolated :
      (r r' : Request) (s s' : S) (w : Session F) (id j : ℕ)
      → w.faults ≡ []
      → parse_id_param reader r ≡ some id
      → parse_id_param reader r' ≡ some j
      → let get = handle_get_recipe out log reader (recipe_repository locale) in
        (get r' s' (handle_delete_recipe out log reader (recipe_repository locale) r s w).1).0 ≡ (
          if j == id
          then (none, write_error out error_reply 404 (codes "recipe not found") s')
          else (get r' s' w).0)
  unfolding errors_is
  handle_delete_recipe-isolated r r' s s' w id j h e e' =
      let after : Session F = record w { store = removed id (w.store) } in
      rw
        (
          handle_delete_recipe-world r s w id h e,
          handle_get_recipe-clear r' s' after j h e',
          handle_get_recipe-clear r' s' w j h e',
        )
        (elim (Bool-cases (j == id)) [
          | inl q ↦
              let same : j ≡ id = (==_iff j id).0 q in
              rw (q, same, find-without_self (λ (x : RecipeRow). x.id == id) w.store.recipes) refl
          | inr q ↦
              let other : j ≢ id = λ p. cc ((==_iff j id).1 p, q) in
              rw (q, recipe_at-removed locale id j (w.store) other)
                (got-answer r' (recipe_at locale (w.store) (row_of_id j w.store.recipes)) s' after
                  w)
        ])
