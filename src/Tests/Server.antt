-- ===== src/Tests/Server.antt =====
-- internal/config, internal/server, internal/db and the goroutines of internal/pipeline/worker.go
-- at concrete inputs.
use recipe_reader.Common.{
  ℕ, ◌+◌, ◌-◌, ◌*◌, ◌≤◌, ◌≡◌, refl, ◌⊎◌, Bool, true, false, [], Option, none, some, pos, arith,
}
use recipe_reader.Text.{Text, codes}
use recipe_reader.Errors.{Error, ok, foreign}
use recipe_reader.Db.Store.{Session}
use recipe_reader.Db.Seed.{seed}
use recipe_reader.World.{background}
use recipe_reader.Db.Connect.{Pgx, Goose, open_db, connect, migrate_with_context, with_migrator}
use recipe_reader.Db.Connect.Pools.{given, open_db-live}
use recipe_reader.Db.Lock.{Connections}
use recipe_reader.Repository.Lookups.Seeding.{IsSeeded, seed-idempotent}
use recipe_reader.Repository.Recipes.Writes.{has_source}
use recipe_reader.Repository.Postgres.{recipe_repository}
use recipe_reader.Pipeline.Run.{zero_result}
use recipe_reader.Pipeline.Worker.{begin, new_worker}
use recipe_reader.Pipeline.Worker.Goroutines.{
  Service, new_service, counter, settles, Move, enters, absent, stops, triggers, Reach, here, then_,
  happens, moves, trigger, selecting,
}
use recipe_reader.Pipeline.Worker.Shutdown.{Reach-settled}
use recipe_reader.Pipeline.Worker.Drain.{Moves, still, further, Moves-drain}
use recipe_reader.Config.{Http, validate_http}
use recipe_reader.Config.Addresses.{is_loopback_addr, split_host, cut_last}
use recipe_reader.Config.Guard.{security_of, validate_http-guards}
use recipe_reader.Api.Middleware.{new_router, is_mutating, bearer_token}
use recipe_reader.Server.Imports.{Parts, import_once}
use recipe_reader.Server.Imports.Sessions.{import_once-live}
use recipe_reader.Server.Fetchers.{already_imported}
use recipe_reader.Server.Fetchers.Known.{already_imported-has_source}
use recipe_reader.Tests.Repository.{session, small, by_length}
use recipe_reader.Tests.Api.{fresh, deletion, counting_mux, silent_mux, read_media_type, no_log}

-- A server on all interfaces, with a token.
abbrev exposed : Http
exposed = record { addr = codes ":8080"; cors_origins = []; api_token = codes "geheim" }

abbrev no_ip : Text → Bool
no_ip host = false

exposed_validates : validate_http no_ip exposed ≡ none
unfolding validate_http
exposed_validates = refl

exposed_is_exposed : is_loopback_addr no_ip exposed.addr ≡ false
unfolding is_loopback_addr split_host cut_last
exposed_is_exposed = refl

localhost_is_loopback : is_loopback_addr no_ip (codes "localhost:8080") ≡ true
unfolding is_loopback_addr split_host cut_last
localhost_is_loopback = refl

validate_http-guards_example :
    (new_router (λ m. m) read_media_type no_log (security_of exposed) counting_mux deletion fresh 0
      ≡ new_router
          (λ m. m)
          read_media_type
          no_log
          (security_of exposed)
          silent_mux
          deletion
          fresh
          0)
    × ((new_router
          (λ m. m)
          read_media_type
          no_log
          (security_of exposed)
          counting_mux
          deletion
          fresh
          0).0.1.status
        ≡ 401)
unfolding is_mutating bearer_token
validate_http-guards_example =
    validate_http-guards (λ m. m) read_media_type no_log no_ip exposed counting_mux silent_mux
      deletion fresh 0 exposed_validates exposed_is_exposed refl refl refl

-- One triggered run, which has begun.
abbrev begun : Service
begun = record new_service { worker = record new_worker { running = true }; running = 1 }

triggered : Reach new_service (record new_service { ready = 1 })
unfolding trigger
triggered = then_ here (happens triggers)

begun_reached : Reach new_service begun
unfolding begin
begun_reached =
    then_ triggered (moves (enters (record new_worker { running = true }) (omega arith) refl))

Reach-settled_example :
    (new_service.worker.running ≡ false) × ((t : Service) → ¬ Move new_service t)
unfolding counter
Reach-settled_example = Reach-settled here (settles refl)

-- The schedule in its select, one run triggered and one in flight, behind the cancellation.
abbrev stopping : Service
stopping = record begun { base = some true; schedule = selecting; ready = 1 }

abbrev stopped_schedule : Service
stopped_schedule = record stopping { schedule = absent }

stopping-Moves : Moves stopping 1 stopped_schedule
stopping-Moves = further still (stops refl refl)

Moves-drain_example :
    (1 ≤ 3 + 2 * stopping.ready + stopping.running)
    × ((counter stopped_schedule ≡ 0) ⊎ ((v : Service) × Move stopped_schedule v))
Moves-drain_example = Moves-drain refl stopping-Moves

seed-idempotent_example :
    (t : Session ℕ) × (seed session ≡ (ok tt, t)) × IsSeeded (t.store) × (seed t ≡ (ok tt, t))
seed-idempotent_example = seed-idempotent session refl

already_imported-has_source_example :
    already_imported (recipe_repository by_length) (λ t e w. w) (codes "a") session
    ≡ (has_source (codes "a") small.recipes, session)
already_imported-has_source_example =
    already_imported-has_source by_length (λ t e w. w) (codes "a") session refl

-- The world is the number of what is open; the database answers no ping.
abbrev silent_pgx : Pgx ℕ ℕ
silent_pgx = record {
  parse_config =
      λ dsn. ok (record { max_conns = pos 4; min_conns = pos 0; connect_timeout = pos 0 });
  query_keys = λ dsn. none;
  new_with_config = λ cfg w. (ok w, w + 1);
  ping = λ pool w. (some (foreign 3), w);
  close = λ pool w. w - 1;
}

-- Its migrations go through.
abbrev quiet_goose : Goose ℕ ℕ ℕ
quiet_goose = record {
  parse_and_open = λ dsn. ok 0;
  sub = none;
  new_locker = none;
  new_provider = λ db w. (ok db, w);
  up = λ p w. (none, w);
  down_to = λ n p w. (none, w);
  close = λ db w. (none, w);
}

abbrev no_error : ℕ → ℕ → Option Error × ℕ
no_error pool w = (none, w)

open_db-live_example :
    (open_db silent_pgx quiet_goose background no_error (codes "dsn") 0).1
    ≡ 0 + given (open_db silent_pgx quiet_goose background no_error (codes "dsn") 0).0
open_db-live_example =
    open_db-live silent_pgx quiet_goose background no_error (λ w. w)
      (record { new_pool = λ cfg w. refl; ping = λ pool w. refl; close = λ pool w. refl })
      (record {
        ctx_err = λ w. refl;
        new_provider = λ db w. refl;
        up = λ p w. refl;
        close = λ db w. refl;
      })
      (λ pool w. refl) (codes "dsn") 0

-- The lock is free, and the login fails. The world is the number of open pools and sessions; the
-- pool is opened as `Open` does it, with a database that answers.
abbrev free_lock : Connections Unit (ℕ × ℕ)
free_lock = record {
  parse_config =
      λ dsn. ok (record { max_conns = pos 4; min_conns = pos 0; connect_timeout = pos 0 });
  query_keys = λ dsn. none;
  connect_config = λ cfg w. (ok tt, (w.0, w.1 + 1));
  try_advisory_lock = λ key conn w. (ok true, w);
  close = λ conn w. (w.0, w.1 - 1);
}

abbrev answering_pgx : Pgx Unit (ℕ × ℕ)
answering_pgx = record {
  parse_config =
      λ dsn. ok (record { max_conns = pos 4; min_conns = pos 0; connect_timeout = pos 0 });
  query_keys = λ dsn. none;
  new_with_config = λ cfg w. (ok tt, (w.0 + 1, w.1));
  ping = λ pool w. (none, w);
  close = λ pool w. (w.0 - 1, w.1);
}

abbrev still_goose : Goose Unit Unit (ℕ × ℕ)
still_goose = record {
  parse_and_open = λ dsn. ok tt;
  sub = none;
  new_locker = none;
  new_provider = λ db w. (ok tt, w);
  up = λ p w. (none, w);
  down_to = λ n p w. (none, w);
  close = λ db w. (none, w);
}

abbrev failing_login : Parts Unit (ℕ × ℕ)
failing_login = record {
  open_db = open_db answering_pgx still_goose background (λ pool w. (none, w));
  close_pool = answering_pgx.close;
  login_or_restore = λ pool w. (some (foreign 4), w);
  run = λ pool w. ((zero_result, none), w);
}

import_once-live_example :
    let w = (import_once failing_login free_lock (codes "koch") (codes "dsn") none (0, 0)).1 in
    (w.0 ≡ 0) × (w.1 ≡ 0)
unfolding open_db connect migrate_with_context with_migrator
import_once-live_example =
    import_once-live free_lock failing_login (λ w. w.0) (λ w. w.1)
      (record {
        connects = λ cfg w. omega arith;
        tries = λ key conn w. refl;
        closes = λ conn w. omega arith;
      })
      (record { connects = λ cfg w. refl; tries = λ key conn w. refl; closes = λ conn w. refl })
      (record {
        opens = λ dsn w. refl;
        closes = λ pool w. refl;
        logs_in = λ pool w. refl;
        runs = λ pool w. refl;
      })
      (record {
        opens = λ dsn w. omega arith;
        closes = λ pool w. omega arith;
        logs_in = λ pool w. refl;
        runs = λ pool w. refl;
      })
      (codes "koch") (codes "dsn") none (0, 0)
