-- ===== src/Db/Connect/Pools.antt =====
-- The pool of internal/db/connect.go: its bounds, and that none is left open behind an error.
use recipe_reader.Common.{
  ℕ, ◌+◌, ◌-◌, ◌≡◌, refl, ◌∙◌, inl, inr, ℤ, pos, negsuc, false, List, Option, none, some,
  if◌then◌else◌, Bool-cases, arith,
}
use recipe_reader.Text.{Text, codes}
use recipe_reader.World.{Context}
use recipe_reader.Errors.{Error, Result, ok, err}
use recipe_reader.Db.Connect.{
  dsn_params, PoolConfig, Pgx, lt_int, names_setting, default_max_conns, default_min_conns,
  apply_pool_defaults, pinged, opened, configured, connect, seeded, connected, migrated, open_db,
  Goose, provided, locked, sourced, sql_opened, not_done, open_sql, with_migrator,
  migrate_with_context,
}

lt_int_irrefl : (z : ℤ) → lt_int z z ≡ false
lt_int_irrefl (pos n) = ground arith
lt_int_irrefl (negsuc n) = ground arith

-- The smaller of two bounds, as the last lines pick it.
capped : (most least : ℤ) → lt_int most (if lt_int most least then most else least) ≡ false
capped most least = elim (Bool-cases (lt_int most least)) [
  | inl e ↦ rw e (lt_int_irrefl most)
  | inr e ↦ rw e e
]

-- Whatever the DSN names, a pool is never configured with more connections at least than at most,
-- which pgxpool refuses; and at most it has as many as the DSN names, or the default of ten.
pub apply_pool_defaults-capped :
    (params : List Text) (cfg : PoolConfig)
    → let c = apply_pool_defaults params cfg in
      (lt_int c.max_conns c.min_conns ≡ false)
      × (c.max_conns ≡ (
          if names_setting params (codes "pool_max_conns")
          then cfg.max_conns
          else default_max_conns))
unfolding apply_pool_defaults
apply_pool_defaults-capped params cfg = (
  capped
      (if names_setting params (codes "pool_max_conns") then cfg.max_conns else default_max_conns)
      (if names_setting params (codes "pool_min_conns") then cfg.min_conns else default_min_conns),
  refl,
)

-- How many things an answer has opened.
abbrev pub given : {A : Type 0} → Result A → ℕ
given (ok a) = 1
given (err e) = 0

-- A count of what is open, that the calls of pgxpool keep: a pool is opened by its constructor, if
-- there is no error, and closed by its method.
pub record CountsPools {Pool W : Type 0} (pgx : Pgx Pool W) (live : W → ℕ) : Type 0 where
  pub new_pool :
      (cfg : PoolConfig) (w : W)
      → live (pgx.new_with_config cfg w).1 ≡ live w + given (pgx.new_with_config cfg w).0
  pub ping : (pool : Pool) (w : W) → live (pgx.ping pool w).1 ≡ live w
  pub close : (pool : Pool) (w : W) → live (pgx.close pool w) ≡ live w - 1

module _ {Pool W : Type 0} (pgx : Pgx Pool W) (live : W → ℕ) (counts : CountsPools pgx live) where
  pinged-live :
      (pool : Pool) (e : Option Error) (w : W) (n : ℕ)
      → live w ≡ n + 1
      → live (pinged pgx pool e w).1 ≡ n + given (pinged pgx pool e w).0
  pinged-live pool none w n h = h
  pinged-live pool (some e) w n h = omega (arith, counts.close pool w, h)

  opened-live :
      (r : Result Pool) (w : W) (n : ℕ)
      → live w ≡ n + given r
      → live (opened pgx r w).1 ≡ n + given (opened pgx r w).0
  opened-live (err e) w n h = h
  opened-live (ok pool) w n h =
      pinged-live pool (pgx.ping pool w).0 (pgx.ping pool w).1 n (counts.ping pool w ∙ h)

  configured-live :
      (dsn : Text) (r : Result PoolConfig) (w : W)
      → live (configured pgx dsn r w).1 ≡ live w + given (configured pgx dsn r w).0
  configured-live dsn (err e) w = omega arith
  configured-live dsn (ok cfg) w =
      let c = apply_pool_defaults (dsn_params pgx.query_keys dsn) cfg in
      opened-live (pgx.new_with_config c w).0 (pgx.new_with_config c w).1 (live w)
        (counts.new_pool c w)

  connect-live :
      (dsn : Text) (w : W) → live (connect pgx dsn w).1 ≡ live w + given (connect pgx dsn w).0
  unfolding connect
  connect-live dsn w = configured-live dsn (pgx.parse_config dsn) w

  module _ (seed : Pool → W → Option Error × W)
      (seed-live : (pool : Pool) (w : W) → live (seed pool w).1 ≡ live w) where
    seeded-live :
        (pool : Pool) (e : Option Error) (w : W) (n : ℕ)
        → live w ≡ n + 1
        → live (seeded pgx pool e w).1 ≡ n + given (seeded pgx pool e w).0
    seeded-live pool none w n h = h
    seeded-live pool (some e) w n h = omega (arith, counts.close pool w, h)

    connected-live :
        (r : Result Pool) (w : W) (n : ℕ)
        → live w ≡ n + given r
        → live (connected pgx seed r w).1 ≡ n + given (connected pgx seed r w).0
    connected-live (err e) w n h = h
    connected-live (ok pool) w n h =
        seeded-live pool (seed pool w).0 (seed pool w).1 n (seed-live pool w ∙ h)

    migrated-live :
        (dsn : Text) (e : Option Error) (w : W)
        → live (migrated pgx seed dsn e w).1 ≡ live w + given (migrated pgx seed dsn e w).0
    migrated-live dsn (some e) w = omega arith
    migrated-live dsn none w =
        connected-live (connect pgx dsn w).0 (connect pgx dsn w).1 (live w) (connect-live dsn w)

-- The calls of goose and the context leave something as it is.
pub record LeavesAlone {Sql Provider W : Type 0} {A : Type 0} (goose : Goose Sql Provider W)
    (ctx : Context W) (view : W → A) : Type 0 where
  pub ctx_err : (w : W) → view (ctx.err w).1 ≡ view w
  pub new_provider : (db : Sql) (w : W) → view (goose.new_provider db w).1 ≡ view w
  pub up : (p : Provider) (w : W) → view (goose.up p w).1 ≡ view w
  pub close : (db : Sql) (w : W) → view (goose.close db w).1 ≡ view w

module _ {Sql Provider W : Type 0} {A : Type 0} (goose : Goose Sql Provider W) (ctx : Context W)
    (view : W → A) (alone : LeavesAlone goose ctx view) where
  provided-view : (r : Result Provider) (w : W) → view (provided goose ctx goose.up r w).1 ≡ view w
  provided-view (err e) w = refl
  provided-view (ok p) w = alone.up p w

  locked-view :
      (db : Sql) (e : Option Error) (w : W) → view (locked goose ctx goose.up db e w).1 ≡ view w
  locked-view db (some e) w = refl
  locked-view db none w =
      provided-view (goose.new_provider db w).0 (goose.new_provider db w).1
      ∙ alone.new_provider db w

  sourced-view :
      (db : Sql) (e : Option Error) (w : W) → view (sourced goose ctx goose.up db e w).1 ≡ view w
  sourced-view db (some e) w = refl
  sourced-view db none w = locked-view db goose.new_locker w

  sql_opened-view : (r : Result Sql) (w : W) → view (sql_opened goose ctx goose.up r w).1 ≡ view w
  sql_opened-view (err e) w = refl
  sql_opened-view (ok db) w =
      alone.close db (sourced goose ctx goose.up db goose.sub w).1 ∙ sourced-view db goose.sub w

  not_done-view :
      (dsn : Text) (e : Option Error) (w : W)
      → view (not_done goose ctx goose.up dsn e w).1 ≡ view w
  not_done-view dsn (some e) w = refl
  not_done-view dsn none w = sql_opened-view (open_sql (goose.parse_and_open dsn)) w

  -- A migration leaves alone what the calls of goose and the context do.
  migrate_with_context-view :
      (dsn : Text) (w : W) → view (migrate_with_context goose ctx dsn w).1 ≡ view w
  unfolding migrate_with_context with_migrator
  migrate_with_context-view dsn w = not_done-view dsn (ctx.err w).0 (ctx.err w).1 ∙ alone.ctx_err w

module _ {Pool Sql Provider W : Type 0} (pgx : Pgx Pool W) (goose : Goose Sql Provider W)
    (ctx : Context W) (seed : Pool → W → Option Error × W) (live : W → ℕ)
    (counts : CountsPools pgx live) (alone : LeavesAlone goose ctx live)
    (seed-live : (pool : Pool) (w : W) → live (seed pool w).1 ≡ live w) where
  -- `Open` leaves one pool open if it returns one, and none if it returns an error, whichever of
  -- its steps has failed, those of the migration included. The conditions are that pgxpool opens
  -- and closes as it says and that goose, the context and the seeding open and close no pool.
  pub open_db-live :
      (dsn : Text) (w : W)
      → live (open_db pgx goose ctx seed dsn w).1
        ≡ live w + given (open_db pgx goose ctx seed dsn w).0
  unfolding open_db
  open_db-live dsn w =
      let m = migrate_with_context goose ctx dsn w in
      let r = migrated-live pgx live counts seed seed-live dsn m.0 m.1 in
      omega (arith, r, migrate_with_context-view goose ctx live alone dsn w)
