-- ===== src/Tests/Client.antt =====
-- internal/instagram/client.go, fetcher_adapter.go and the collections at concrete inputs.
use recipe_reader.Common.{ℕ, ◌+◌, ◌*◌, ◌≡◌, refl, arith, true, List, [], ◌∷◌, Option, none, some}
use recipe_reader.Text.{codes}
use recipe_reader.Errors.{Error, ApiError, ok, err, Sentinel, sentinel, errors_as, api}
use recipe_reader.Instagram.Types.{Collection}
use recipe_reader.Instagram.Client.{
  Client, Api, perform, min_relogin_interval, run_bounded, request, log_in_and_save, login,
  reauthenticate, send_request, first_answer, renew_and_retry, retried, second_answer,
  is_rate_limited, is_session_expired, is_terminal_auth_error, is_ok,
}
use recipe_reader.Instagram.Client.Spacing.{LoginLaws, Spaced, perform-Spaced}
use recipe_reader.Instagram.Collections.{CollectionApi, resolve_name}
use recipe_reader.Instagram.Fetcher.{
  PipelineFetcher, Source, fetch_new_posts, resolve_collection_id, look_up, remember,
  fetch_resolved, keep_or_forget,
}
use recipe_reader.Instagram.Fetcher.Cache.{NonEmpty, fetch_new_posts-reuses}

-- The time and the number of logins.
record ClientSim : Type 0 where
  now : ℕ
  logins : ℕ

abbrev sim_start : ClientSim
sim_start = record { now = 10 * min_relogin_interval; logins = 0 }

-- Every request is answered with login_required; a login succeeds.
abbrev expired_api : Api ClientSim Unit Unit
expired_api = record {
  private_request = λ o w. (err (api ApiError.login_required), w);
  raw_login = λ u p w. (none, record w { logins = w.logins + 1 });
  dump_settings = λ p w. (none, w);
  load_settings = λ p w. (none, w);
  await_slot = λ w. (none, w);
  await_call = λ w. (none, w);
  clock = λ w. (w.now, w);
}

abbrev some_client : Client
some_client = record {
  username = codes "anna";
  password = codes "x";
  session_path = [];
  last_login = 0;
  has_session = true;
}

expired-LoginLaws : LoginLaws (λ (w : ClientSim). w.logins) expired_api
expired-LoginLaws = record {
  at_request = λ o w. refl;
  at_login = λ u p w. refl;
  at_dump = λ p w. refl;
  at_slot = λ w. refl;
  at_call = λ w. refl;
  at_clock = λ w. refl;
  forward = λ w. omega arith;
}

-- A stale session costs one login, and the second refusal asks for a person.
perform_runs : (perform expired_api tt some_client sim_start).1.logins ≡ 1
unfolding perform send_request first_answer request run_bounded renew_and_retry reauthenticate login
    log_in_and_save retried is_rate_limited is_session_expired is_terminal_auth_error errors_as
    is_ok second_answer
perform_runs = refl

perform-Spaced_example :
    Spaced
      (λ w. (expired_api.clock w).0)
      (λ (w : ClientSim). w.logins)
      some_client
      sim_start
      (perform expired_api tt some_client sim_start).0.1
      (perform expired_api tt some_client sim_start).1
perform-Spaced_example =
    perform-Spaced (λ (w : ClientSim). w.logins) expired_api expired-LoginLaws tt some_client
      sim_start

abbrev listed : List (Option Collection)
listed = none ∷ some (record { id = codes "17"; name = codes "Rezepte" }) ∷ []

abbrev list_api : CollectionApi Unit (List (Option Collection))
list_api = record { list_request = λ w. (ok listed, w); items = λ body. body }

resolve_name_runs : (resolve_name list_api (codes "Rezepte") tt).0 ≡ ok (codes "17")
unfolding resolve_name
resolve_name_runs = refl

-- A collection whose id is 17, with what its fetch answers; the world is the time.
abbrev collection_source : Option Error → Source ℕ
collection_source e = record {
  fetch_saved = λ w. (([], none), w);
  fetch_collection = λ id w. (([], e), w);
  resolve = λ name w. (ok (codes "17"), w);
  clock = λ w. (w, w);
}

collection_source-NonEmpty : (e : Option Error) → NonEmpty (collection_source e)
collection_source-NonEmpty e = λ name w id h. let same : codes "17" ≡ id = cc h in rw (← same) refl

abbrev new_fetcher : PipelineFetcher
new_fetcher = record { collection_name = codes "Rezepte"; collection_id = []; resolved_at = 0 }

fetch_new_posts-reuses_example :
    resolve_collection_id
      (collection_source none)
      (fetch_new_posts (collection_source none) new_fetcher 5).0.1
      9
    ≡ ((ok (codes "17"), (fetch_new_posts (collection_source none) new_fetcher 5).0.1), 9)
unfolding resolve_collection_id fetch_new_posts look_up remember fetch_resolved keep_or_forget
fetch_new_posts-reuses_example =
    fetch_new_posts-reuses (collection_source none) (collection_source-NonEmpty none) new_fetcher 5
      5 (codes "17") refl refl refl refl 9 (omega arith)

abbrev gone : Option Error
gone = some (sentinel Sentinel.schema_drift)
