-- ===== src/Tests/Handlers.antt =====
-- The handlers of internal/api at concrete requests, over the store of Tests/Repository.
use recipe_reader.Common.{
  ℕ, ◌+◌, ◌*◌, ◌<◌, ◌≡◌, refl, ◌⊎◌, true, [], ◌∷◌, none, some, if◌then◌else◌, ◌==◌,
}
use recipe_reader.Text.{Text, codes, text_eq}
use recipe_reader.Text.Decimal.{parse_int, digits_from}
use recipe_reader.Errors.{Error}
use recipe_reader.Db.Store.{Session}
use recipe_reader.Repository.Postgres.{recipe_repository}
use recipe_reader.Pipeline.Worker.{new_worker, cooldown, begin}
use recipe_reader.Pipeline.Worker.Goroutines.{Service, new_service, trigger}
use recipe_reader.Api.Http.{Request, Writer, server_writer}
use recipe_reader.Api.Middleware.{write_error, write_json}
use recipe_reader.Api.Dto.{RecipeDto, Reply, error_reply, started_reply}
use recipe_reader.Api.Handlers.{
  decoded, Reader, parse_id_param, handle_get_recipe, handle_delete_recipe,
}
use recipe_reader.Api.Handlers.Deletion.{handle_delete_recipe-isolated}
use recipe_reader.Api.Handlers.Import.{second, handle_import_run}
use recipe_reader.Text.Decimal.{itoa}
use recipe_reader.Api.Handlers.Cooling.{import_worker, handle_import_run-keeps}
use recipe_reader.Tests.Api.{deletion}
use recipe_reader.Tests.Repository.{session, by_length}

abbrev unsent : Writer (Reply ℕ)
unsent = record { headers = []; status = 0; body = [] }

abbrev drop_log : Request → Error → Session ℕ → Session ℕ
drop_log r e w = w

-- The body of a new recipe without a status, and a path with an id.
abbrev cake_dto : RecipeDto ℕ
cake_dto = record {
  id = 9;
  name = codes "Kuchen";
  instructions = codes "Backen.";
  image_url = [];
  source = codes "b";
  status = [];
  ingredients = record { name = codes "Zucker"; amount = 200; unit = codes "g" } ∷ [];
  categories = record { id = 4; name = codes "Backen" } ∷ [];
}

abbrev cake_reader : Text → Reader ℕ
cake_reader id = record {
  query = λ r key. [];
  path_value = λ r key. id;
  decode = λ n r. decoded cake_dto;
}

-- A reader that takes the id from the end of the path.
abbrev path_reader : Reader ℕ
path_reader = record {
  query = λ r key. [];
  path_value = λ r key. if text_eq r.path (codes "/api/recipes/1") then codes "1" else codes "12";
  decode = λ n r. decoded cake_dto;
}

abbrev get_twelve : Request
get_twelve = record deletion { method = codes "GET"; path = codes "/api/recipes/12" }

path_one : parse_id_param path_reader deletion ≡ some 1
unfolding parse_id_param parse_int digits_from
path_one = refl

path_twelve : parse_id_param path_reader get_twelve ≡ some 12
unfolding parse_id_param parse_int digits_from
path_twelve = refl

handle_delete_recipe-isolated_example :
    let get = handle_get_recipe server_writer drop_log path_reader (recipe_repository by_length) in
    (get get_twelve unsent
      (handle_delete_recipe server_writer drop_log path_reader
        (recipe_repository by_length)
        deletion
        unsent
        session).1).0
    ≡ (if 12 == 1
        then (none, write_error server_writer error_reply 404 (codes "recipe not found") unsent)
        else (get get_twelve unsent session).0)
handle_delete_recipe-isolated_example =
    handle_delete_recipe-isolated server_writer drop_log path_reader by_length deletion get_twelve
      unsent unsent session 1 12 refl path_one path_twelve

-- Half a second of a cooldown is left.
abbrev cooling : Service
cooling = record new_service {
  worker = record new_worker { cooldown_until = 2_000_000_000 };
  now = 1_500_000_000;
}

handle_import_run-keeps_example :
    let left = cooldown cooling.worker cooling.now in
    let p = handle_import_run {F = ℕ} server_writer (some import_worker) deletion unsent cooling in
    ((0 < left)
      × (seconds : ℕ) × (message : Text) × (p ≡ (
        (
          none,
          write_error server_writer error_reply 429 message
              (server_writer.set_header (codes "Retry-After") (itoa seconds) unsent),
        ),
        cooling,
      ))
      × (cooldown cooling.worker (cooling.now + seconds * second) ≡ 0)
      × (seconds * second < left + second))
    ⊎ ((p ≡ ((none, write_json server_writer 202 started_reply unsent), trigger cooling))
        × ((cooling.worker.running ≡ true)
            ⊎ (begin cooling.now cooling.worker
                ≡ some (record (cooling.worker) { running = true }))))
handle_import_run-keeps_example = handle_import_run-keeps server_writer deletion unsent cooling
