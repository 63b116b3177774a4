-- ===== src/Api/Routes.antt =====
-- internal/api/router.go: the routes of `NewRouter` and the health check. The mux of net/http, which
-- picks a handler by the patterns, is a parameter.
use recipe_reader.Common.{Bool, ℕ, List, [], ◌∷◌, Option, none, some, if◌then◌else◌, ◌++◌}
use recipe_reader.Text.{Text, codes, is_empty}
use recipe_reader.Errors.{Error}
use recipe_reader.Repository.Interfaces.{RecipeRepository, LookupRepository}
use recipe_reader.Api.Http.{Request, ResponseWriter, Writer, server_writer, Handler}
use recipe_reader.Api.Middleware.{
  Security, StatusRecorder, recorder, write_json, health_path, new_router,
}
use recipe_reader.Api.Dto.{Reply, error_reply, health_reply}
use recipe_reader.Api.Handlers.{
  Reader, handle_list_recipes, handle_get_recipe, handle_create_recipe, handle_update_recipe,
  handle_delete_recipe,
}
use recipe_reader.Api.Handlers.Lookups.{
  handle_list_categories, handle_list_units, handle_list_ingredients,
}
use recipe_reader.Api.Handlers.Import.{ImportWorker, handle_import_run, handle_import_status}

pub record Deps (F W : Type 0) : Type 0 where
  pub recipes : RecipeRepository F W
  pub lookups : LookupRepository W
  pub worker : Option (ImportWorker W)
  pub version : Text

pub record Route (S W : Type 0) : Type 0 where
  pub pattern : Text
  pub handler : Handler S W

-- What the handlers and the router use of net/http, encoding/json, mime, time and log/slog.
pub record Platform (F W : Type 0) : Type 0 where
  pub reader : Reader F
  pub rfc3339 : ℕ → Text
  pub log_failure : Request → Error → W → W
  pub log_request : Bool → Request → ℕ → W → W
  pub parse_media_type : Text → Option Text
  pub serve_mux :
      List (Route (StatusRecorder (Writer (Reply F))) W)
      → Handler (StatusRecorder (Writer (Reply F))) W

-- `handleHealth`
unfoldable pub handle_health : {F S W : Type 0} → ResponseWriter (Reply F) S → Text → Handler S W
handle_health out version r s w = (
  (none, write_json out 200 (health_reply (if is_empty version then none else some version)) s),
  w,
)

module _ {F W : Type 0} (platform : Platform F W) (deps : Deps F W) where
  abbrev route : {S : Type 0} → Text → Handler S W → Route S W
  route pattern handler = record { pattern = pattern; handler = handler }

  -- The patterns that `NewRouter` registers, with their handlers.
  unfoldable pub routes : List (Route (StatusRecorder (Writer (Reply F))) W)
  routes =
      let out = recorder server_writer in
      let log = platform.log_failure in
      let reader = platform.reader in
      route (codes "GET " ++ health_path) (handle_health out deps.version)
      ∷ route (codes "GET /api/recipes") (handle_list_recipes out log reader deps.recipes)
      ∷ route (codes "POST /api/recipes") (handle_create_recipe out log reader deps.recipes)
      ∷ route (codes "GET /api/recipes/{id}") (handle_get_recipe out log reader deps.recipes)
      ∷ route (codes "PUT /api/recipes/{id}") (handle_update_recipe out log reader deps.recipes)
      ∷ route (codes "DELETE /api/recipes/{id}") (handle_delete_recipe out log reader deps.recipes)
      ∷ route (codes "GET /api/categories") (handle_list_categories out log deps.lookups)
      ∷ route (codes "GET /api/units") (handle_list_units out log deps.lookups)
      ∷ route (codes "GET /api/ingredients") (handle_list_ingredients out log deps.lookups)
      ∷ route (codes "POST /api/import/run") (handle_import_run out deps.worker)
      ∷ route (codes "GET /api/import/status")
          (handle_import_status out platform.rfc3339 deps.worker)
      ∷ []

  -- `NewRouter`
  unfoldable pub new_api : Security → Handler (Writer (Reply F)) W
  new_api sec =
      new_router error_reply platform.parse_media_type platform.log_request sec
        (platform.serve_mux routes)
