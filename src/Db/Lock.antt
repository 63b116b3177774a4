-- ===== src/Db/Lock.antt =====
-- internal/db/lock.go: the advisory lock on a connection of its own. The calls of pgx are
-- parameters.
use recipe_reader.Common.{ℕ, Bool, true, false, List, Option}
use recipe_reader.Text.{Text}
use recipe_reader.Errors.{Error, wrap, Result, ok, err}
use recipe_reader.Db.Connect.{PoolConfig, dsn_params, apply_pool_defaults}

abbrev pub import_lock_key : ℕ
import_lock_key = 8_233_071_001

-- The calls: `pg_try_advisory_lock` runs in the session of the connection, and the end of the
-- session releases the lock.
pub record Connections (Conn W : Type 0) : Type 0 where
  pub parse_config : Text → Result PoolConfig
  pub query_keys : Text → Option (List Text)
  pub connect_config : PoolConfig → W → Result Conn × W
  pub try_advisory_lock : ℕ → Conn → W → Result Bool × W
  pub close : Conn → W → W

-- What `TryAcquire` returns: a release, which closes the connection; no lock; or an error.
pub data Acquisition (Conn : Type 0) : Type 0 where
  acquired : Conn → Acquisition Conn
  occupied : Acquisition Conn
  failed : Error → Acquisition Conn

module _ {Conn W : Type 0} (pgx : Connections Conn W) where
  abbrev pub tried : Conn → Result Bool → W → Acquisition Conn × W
  tried conn (err e) w = (failed (wrap e), pgx.close conn w)
  tried conn (ok false) w = (occupied, pgx.close conn w)
  tried conn (ok true) w = (acquired conn, w)

  abbrev pub lock_connected : Result Conn → W → Acquisition Conn × W
  lock_connected (err e) w = (failed (wrap e), w)
  lock_connected (ok conn) w =
      let (got, w') = pgx.try_advisory_lock import_lock_key conn w in tried conn got w'

  abbrev pub lock_configured : Text → Result PoolConfig → W → Acquisition Conn × W
  lock_configured dsn (err e) w = (failed (wrap e), w)
  lock_configured dsn (ok cfg) w =
      let (conn, w') =
        pgx.connect_config (apply_pool_defaults (dsn_params pgx.query_keys dsn) cfg) w in
      lock_connected conn w'

  -- `ImportLock.TryAcquire`
  unfoldable pub try_acquire : Text → W → Acquisition Conn × W
  try_acquire dsn w = lock_configured dsn (pgx.parse_config dsn) w
