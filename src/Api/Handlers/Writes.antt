-- ===== src/Api/Handlers/Writes.antt =====
-- The writes of internal/api/handlers_recipes.go over the repository of
-- internal/repository/recipe_repository.go: what an answer says of the tables.
use recipe_reader.Common.{◌+◌, [], ◌≡◌, refl, true, false, ◌||◌}
use recipe_reader.Text.{codes, is_empty}
use recipe_reader.Errors.{errors_is, Error}
use recipe_reader.Domain.{valid}
use recipe_reader.Db.Store.{Session}
use recipe_reader.Db.Reads.{Locale}
use recipe_reader.Repository.Postgres.{recipe_repository}
use recipe_reader.Api.Http.{Request, ResponseWriter}
use recipe_reader.Api.Dto.{RecipeDto, Reply, dto_to_recipe}
use recipe_reader.Api.Handlers.{
  decoded, Reader, max_recipe_body_bytes, defaulted, refuse, create_from, handle_create_recipe,
}
use recipe_reader.Repository.Recipes.Writes.{has_source}
use recipe_reader.Repository.Recipes.Duplicates.{create-duplicate}

module _ {F S : Type 0} (out : ResponseWriter (Reply F) S)
    (log : Request → Error → Session F → Session F) (reader : Reader F) (locale : Locale) where
  -- A POST with the source of a stored recipe is answered with 409, and nothing but a number of the
  -- sequence is spent. The condition is that its body has a name, a source and no invalid status,
  -- and that no call of the database fails.
  pub handle_create_recipe-conflict :
      (r : Request) (dto : RecipeDto F) (s : S) (w : Session F)
      → w.faults ≡ []
      → reader.decode max_recipe_body_bytes r ≡ decoded dto
      → (is_empty dto.name || is_empty dto.source) ≡ false
      → valid (defaulted dto).status ≡ true
      → has_source (defaulted dto).source w.store.recipes ≡ true
      → handle_create_recipe out log reader (recipe_repository locale) r s w
        ≡ refuse out log 409
            (codes "a recipe with this source already exists")
            s
            (record w { next_recipe = w.next_recipe + 1 })
  unfolding handle_create_recipe create_from dto_to_recipe defaulted errors_is
  handle_create_recipe-conflict r dto s w clear body named v dup =
      rw (body, named, v, create-duplicate (dto_to_recipe (defaulted dto)) w clear v dup) refl
