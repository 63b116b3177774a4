-- ===== src/Db/Connect.antt =====
-- `Connect`, `Open`, `Migrate` and their helpers, internal/db/connect.go. The pool and its
-- configuration are pgxpool's, the migrations run in goose: their calls are parameters over a world
-- `W`, as is the reading of a DSN by net/url.
pub mod Pools
use recipe_reader.Common.{
  ℕ, ◌*◌, ℤ, pos, negsuc, Bool, true, false, List, [], Option, none, some, if◌then◌else◌, ltb, any,
}
use recipe_reader.Text.{Text, codes, text_eq}
use recipe_reader.World.{Context, background}
use recipe_reader.Errors.{Error, wrap, wrap2, Result, ok, err}

-- The fields of `pgxpool.Config` that are set; a duration is in nanoseconds.
pub record PoolConfig : Type 0 where
  pub max_conns : ℤ
  pub min_conns : ℤ
  pub connect_timeout : ℤ

abbrev pub default_max_conns : ℤ
default_max_conns = pos 10

abbrev pub default_min_conns : ℤ
default_min_conns = pos 2

abbrev pub default_connect_timeout : ℤ
default_connect_timeout = pos (5 * 1_000_000_000)

-- `m < n`
abbrev pub lt_int : ℤ → ℤ → Bool
lt_int (pos m) (pos n) = ltb m n
lt_int (pos m) (negsuc n) = false
lt_int (negsuc m) (pos n) = true
lt_int (negsuc m) (negsuc n) = ltb n m

abbrev pub names_setting : List Text → Text → Bool
names_setting params key = any (λ p. text_eq p key) params

-- `dsnParams`: the keys of the query of a URL, or none where there is no URL.
abbrev pub dsn_params : (Text → Option (List Text)) → Text → List Text
dsn_params query_keys dsn = elim (query_keys dsn) [ none ↦ [] | some keys ↦ keys ]

-- `applyPoolDefaults`, with the settings that the DSN names.
unfoldable pub apply_pool_defaults : List Text → PoolConfig → PoolConfig
apply_pool_defaults params cfg =
    let most =
      if names_setting params (codes "pool_max_conns") then cfg.max_conns else default_max_conns in
    let least =
      if names_setting params (codes "pool_min_conns") then cfg.min_conns else default_min_conns in
    record {
      max_conns = most;
      min_conns = if lt_int most least then most else least;
      connect_timeout =
          if names_setting params (codes "connect_timeout")
          then cfg.connect_timeout
          else default_connect_timeout;
    }

-- The calls of pgxpool, and the keys of `Query` behind `url.Parse`.
pub record Pgx (Pool W : Type 0) : Type 0 where
  pub parse_config : Text → Result PoolConfig
  pub query_keys : Text → Option (List Text)
  pub new_with_config : PoolConfig → W → Result Pool × W
  pub ping : Pool → W → Option Error × W
  pub close : Pool → W → W

module _ {Pool W : Type 0} (pgx : Pgx Pool W) where
  -- What follows the ping.
  abbrev pub pinged : Pool → Option Error → W → Result Pool × W
  pinged pool none w = (ok pool, w)
  pinged pool (some e) w = (err (wrap e), pgx.close pool w)

  abbrev pub opened : Result Pool → W → Result Pool × W
  opened (err e) w = (err (wrap e), w)
  opened (ok pool) w = let (e, w') = pgx.ping pool w in pinged pool e w'

  abbrev pub configured : Text → Result PoolConfig → W → Result Pool × W
  configured dsn (err e) w = (err (wrap e), w)
  configured dsn (ok cfg) w =
      let (pool, w') =
        pgx.new_with_config (apply_pool_defaults (dsn_params pgx.query_keys dsn) cfg) w in
      opened pool w'

  -- `Connect`
  unfoldable pub connect : Text → W → Result Pool × W
  connect dsn w = configured dsn (pgx.parse_config dsn) w

  -- What follows the seeding.
  abbrev pub seeded : Pool → Option Error → W → Result Pool × W
  seeded pool none w = (ok pool, w)
  seeded pool (some e) w = (err e, pgx.close pool w)

  module _ (seed : Pool → W → Option Error × W) where
    abbrev pub connected : Result Pool → W → Result Pool × W
    connected (err e) w = (err e, w)
    connected (ok pool) w = let (e, w') = seed pool w in seeded pool e w'

    abbrev pub migrated : Text → Option Error → W → Result Pool × W
    migrated dsn (some e) w = (err e, w)
    migrated dsn none w = let (pool, w') = connect dsn w in connected pool w'

-- `errors.Join` of two errors that may be nil.
abbrev pub join_errors : Option Error → Option Error → Option Error
join_errors none e = e
join_errors (some e) none = some e
join_errors (some e) (some e') = some (wrap2 e e')

-- The calls of goose and database/sql: a handle on the database that the DSN is parsed for, with
-- its limit of one connection, the provider over the embedded migrations under a session lock, and
-- what is done with it.
pub record Goose (Sql Provider W : Type 0) : Type 0 where
  pub parse_and_open : Text → Result Sql
  pub sub : Option Error
  pub new_locker : Option Error
  pub new_provider : Sql → W → Result Provider × W
  pub up : Provider → W → Option Error × W
  pub down_to : ℕ → Provider → W → Option Error × W
  pub close : Sql → W → Option Error × W

-- `openSQL`
abbrev pub open_sql : {Sql : Type 0} → Result Sql → Result Sql
open_sql (ok db) = ok db
open_sql (err e) = err (wrap e)

module _ {Sql Provider W : Type 0} (goose : Goose Sql Provider W) (ctx : Context W)
    (run : Provider → W → Option Error × W) where
  -- What `run` returned, wrapped: by `cancelledMigration` if the context has ended it.
  abbrev pub migration_error : Option Error → Option Error
  migration_error none = none
  migration_error (some e) = some (wrap e)

  abbrev pub provided : Result Provider → W → Option Error × W
  provided (err e) w = (some (wrap e), w)
  provided (ok provider) w = let (e, w') = run provider w in (migration_error e, w')

  abbrev pub locked : Sql → Option Error → W → Option Error × W
  locked db (some e) w = (some (wrap e), w)
  locked db none w = let (provider, w') = goose.new_provider db w in provided provider w'

  abbrev pub sourced : Sql → Option Error → W → Option Error × W
  sourced db (some e) w = (some (wrap e), w)
  sourced db none w = locked db goose.new_locker w

  -- The deferred close.
  abbrev pub closing : Sql → Option Error × W → Option Error × W
  closing db (e, w) = let (e', w') = goose.close db w in (join_errors e e', w')

  abbrev pub sql_opened : Result Sql → W → Option Error × W
  sql_opened (err e) w = (some e, w)
  sql_opened (ok db) w = closing db (sourced db goose.sub w)

  abbrev pub not_done : Text → Option Error → W → Option Error × W
  not_done dsn (some e) w = (some (wrap e), w)
  not_done dsn none w = sql_opened (open_sql (goose.parse_and_open dsn)) w

  -- `withMigrator`
  unfoldable pub with_migrator : Text → W → Option Error × W
  with_migrator dsn w = let (e, w') = ctx.err w in not_done dsn e w'

module _ {Sql Provider W : Type 0} (goose : Goose Sql Provider W) where
  -- `MigrateWithContext`
  unfoldable pub migrate_with_context : Context W → Text → W → Option Error × W
  migrate_with_context ctx dsn w = with_migrator goose ctx goose.up dsn w

  -- `Migrate`
  unfoldable pub migrate : Text → W → Option Error × W
  migrate dsn w = migrate_with_context background dsn w

  -- `MigrateDown`
  unfoldable pub migrate_down : Text → W → Option Error × W
  migrate_down dsn w = with_migrator goose background (goose.down_to 0) dsn w

module _ {Pool Sql Provider W : Type 0} (pgx : Pgx Pool W) (goose : Goose Sql Provider W)
    (ctx : Context W) (seed : Pool → W → Option Error × W) where
  -- `Open`, with `Seed` on the new pool.
  unfoldable pub open_db : Text → W → Result Pool × W
  open_db dsn w = let (e, w') = migrate_with_context goose ctx dsn w in migrated pgx seed dsn e w'
