-- ===== src/Api/Handlers.antt =====
-- internal/api/handlers_recipes.go. What the mux, net/url and encoding/json make of a request, its
-- query, its wildcards and its body, and the log are parameters.
pub mod Import
pub mod Lookups
pub mod Cooling
pub mod Creation
pub mod Deletion
pub mod Carrying
pub mod Outcomes
pub mod Writes
use recipe_reader.Common.{
  ℕ, ◌*◌, ℤ, pos, negsuc, ◌||◌, not, List, map, Option, none, some, if◌then◌else◌,
}
use recipe_reader.Text.{Text, codes, is_empty}
use recipe_reader.Text.Decimal.{parse_int}
use recipe_reader.Errors.{Error, Sentinel, errors_is, Result, ok, err}
use recipe_reader.Domain.{Recipe, valid, status_published}
use recipe_reader.Repository.Reads.{SearchQuery}
use recipe_reader.Repository.Interfaces.{RecipeRepository}
use recipe_reader.Api.Http.{Request, ResponseWriter, Panic, Handler}
use recipe_reader.Api.Middleware.{write_json, write_error}
use recipe_reader.Api.Dto.{
  RecipeDto, Reply, error_reply, recipe_reply, page_reply, to_recipe_dto, dto_to_recipe,
}

-- What reading a body gives: a value, an *http.MaxBytesError or another error.
pub data Decoded (F : Type 0) : Type 0 where
  decoded : RecipeDto F → Decoded F
  too_long malformed : Decoded F

-- The readers of a request: `r.URL.Query().Get`, `r.PathValue`, and the JSON value in at most as
-- many bytes of the body.
pub record Reader (F : Type 0) : Type 0 where
  pub query : Request → Text → Text
  pub path_value : Request → Text → Text
  pub decode : ℕ → Request → Decoded F

abbrev pub max_recipe_body_bytes : ℕ
max_recipe_body_bytes = 1024 * 1024

-- No row has an id below 1, and none has the id 0.
abbrev pub row_id : ℤ → ℕ
row_id (pos n) = n
row_id (negsuc n) = 0

-- `v != ""` and a number, or nothing.
abbrev pub id_of : Option ℤ → Option ℕ
id_of none = none
id_of (some z) = some (row_id z)

-- A parameter that is no number leaves the zero value.
abbrev pub number_or_zero : Option ℤ → ℤ
number_or_zero none = pos 0
number_or_zero (some z) = z

abbrev pub invalid_status : Text
invalid_status = codes "status must be \"needs_review\" or \"published\""

module _ {F : Type 0} (reader : Reader F) where
  -- `parseIDParam`
  unfoldable pub parse_id_param : Request → Option ℕ
  parse_id_param r = id_of (parse_int (reader.path_value r (codes "id")))

  -- The query of `handleListRecipes`; an empty parameter is no number.
  unfoldable pub query_of : Request → SearchQuery
  query_of r =
      let status = reader.query r (codes "status") in
      record {
        text = reader.query r (codes "q");
        category_id = id_of (parse_int (reader.query r (codes "category_id")));
        status = if is_empty status then none else some status;
        page = number_or_zero (parse_int (reader.query r (codes "page")));
        page_size = number_or_zero (parse_int (reader.query r (codes "page_size")));
      }

-- The status that `handleCreateRecipe` gives a recipe without one.
unfoldable pub defaulted : {F : Type 0} → RecipeDto F → RecipeDto F
defaulted dto = if is_empty dto.status then record dto { status = status_published } else dto

module _ {F S W : Type 0} (out : ResponseWriter (Reply F) S)
    (log_failure : Request → Error → W → W) where
  abbrev pub answer : ℕ → Reply F → S → W → (Option Panic × S) × W
  answer status body s w = ((none, write_json out status body s), w)

  abbrev pub refuse : ℕ → Text → S → W → (Option Panic × S) × W
  refuse status message s w = ((none, write_error out error_reply status message s), w)

  -- `writeInternalError`
  unfoldable pub write_internal_error : Request → Text → Error → S → W → (Option Panic × S) × W
  write_internal_error r message e s w =
      ((none, write_error out error_reply 500 message s), log_failure r e w)

  -- A row that is missing is 404, any other error 500.
  abbrev pub missing_or_failed : Request → Text → Error → S → W → (Option Panic × S) × W
  missing_or_failed r message e s w =
      if errors_is e Sentinel.not_found
      then refuse 404 (codes "recipe not found") s w
      else write_internal_error r message e s w

  abbrev pub listed : Request → Result (List (Recipe F) × ℕ) → S → W → (Option Panic × S) × W
  listed r (ok (recipes, total)) s w = answer 200 (page_reply (map to_recipe_dto recipes) total) s w
  listed r (err e) s w = write_internal_error r (codes "search failed") e s w

  abbrev pub got : Request → Result (Recipe F) → S → W → (Option Panic × S) × W
  got r (ok recipe) s w = answer 200 (recipe_reply (to_recipe_dto recipe)) s w
  got r (err e) s w = missing_or_failed r (codes "get failed") e s w

  abbrev pub posted : Request → Option Error × Recipe F → S → W → (Option Panic × S) × W
  posted r (none, recipe) s w = answer 201 (recipe_reply (to_recipe_dto recipe)) s w
  posted r (some e, recipe) s w =
      if errors_is e Sentinel.duplicate_source
      then refuse 409 (codes "a recipe with this source already exists") s w
      else write_internal_error r (codes "create failed") e s w

  abbrev pub put : Request → Option Error × Recipe F → S → W → (Option Panic × S) × W
  put r (none, recipe) s w = answer 200 (recipe_reply (to_recipe_dto recipe)) s w
  put r (some e, recipe) s w = missing_or_failed r (codes "update failed") e s w

  abbrev pub deleted : Request → Result {0} Unit → S → W → (Option Panic × S) × W
  deleted r (ok u) s w = ((none, out.write_header 204 s), w)
  deleted r (err e) s w = missing_or_failed r (codes "delete failed") e s w

  -- What `decodeRecipeBody` writes when it fails, and what follows when it does not.
  abbrev pub decode_recipe_body :
      Decoded F → (RecipeDto F → S → W → (Option Panic × S) × W) → S → W → (Option Panic × S) × W
  decode_recipe_body (decoded dto) next s w = next dto s w
  decode_recipe_body too_long next s w =
      refuse 413 (codes "request body exceeds the 1 MiB limit") s w
  decode_recipe_body malformed next s w = refuse 400 (codes "invalid JSON body") s w

  abbrev pub with_id :
      Option ℕ → (ℕ → S → W → (Option Panic × S) × W) → S → W → (Option Panic × S) × W
  with_id none next s w = refuse 400 (codes "invalid id") s w
  with_id (some id) next s w = next id s w

  module _ (reader : Reader F) (recipes : RecipeRepository F W) where
    -- `handleListRecipes`
    unfoldable pub handle_list_recipes : Handler S W
    handle_list_recipes r s w =
        let (res, w') = recipes.search (query_of reader r) w in listed r res s w'

    -- `handleGetRecipe`
    unfoldable pub handle_get_recipe : Handler S W
    handle_get_recipe r s w =
        with_id (parse_id_param reader r)
          (λ id s w. let (res, w') = recipes.get_by_id id w in got r res s w') s w

    -- `handleCreateRecipe` behind the decoding.
    unfoldable pub create_from : Request → RecipeDto F → S → W → (Option Panic × S) × W
    create_from r dto s w =
        if is_empty dto.name || is_empty dto.source
        then refuse 400 (codes "name and source are required") s w
        else if not (valid (defaulted dto).status)
        then refuse 400 invalid_status s w
        else (let (res, w') = recipes.create (dto_to_recipe (defaulted dto)) w in posted r res s w')

    -- `handleCreateRecipe`
    unfoldable pub handle_create_recipe : Handler S W
    handle_create_recipe r s w =
        decode_recipe_body (reader.decode max_recipe_body_bytes r) (create_from r) s w

    -- `handleUpdateRecipe` behind the decoding; the id of the path wins.
    unfoldable pub update_from : Request → ℕ → RecipeDto F → S → W → (Option Panic × S) × W
    update_from r id dto s w =
        if is_empty dto.name
        then refuse 400 (codes "name is required") s w
        else if not (valid dto.status)
        then refuse 400 invalid_status s w
        else (let (res, w') = recipes.update (record (dto_to_recipe dto) { id = id }) w in
            put r res s w')

    -- `handleUpdateRecipe`
    unfoldable pub handle_update_recipe : Handler S W
    handle_update_recipe r s w =
        with_id (parse_id_param reader r)
          (λ id. decode_recipe_body (reader.decode max_recipe_body_bytes r) (update_from r id)) s w

    -- `handleDeleteRecipe`
    unfoldable pub handle_delete_recipe : Handler S W
    handle_delete_recipe r s w =
        with_id (parse_id_param reader r)
          (λ id s w. let (res, w') = recipes.delete id w in deleted r res s w') s w
