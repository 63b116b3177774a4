-- ===== src/Server/Imports/Sessions.antt =====
-- What `ImportOnce`, internal/server/import.go, and `TryAcquire`, internal/db/lock.go, leave open.
use recipe_reader.Common.{
  ℕ, ◌+◌, ◌-◌, ◌*◌, ◌≡◌, refl, ◌∙◌, inl, inr, Bool, true, false, Option, none, some, Bool-cases,
  arith,
}
use recipe_reader.Text.{Text, is_empty}
use recipe_reader.Errors.{Error, Result, ok, err}
use recipe_reader.Db.Connect.{dsn_params, PoolConfig, apply_pool_defaults}
use recipe_reader.Db.Connect.Pools.{given}
use recipe_reader.Db.Lock.{
  Connections, Acquisition, acquired, occupied, failed, import_lock_key, tried, lock_connected,
  lock_configured, try_acquire,
}
use recipe_reader.Server.Imports.{
  Parts, logged_in, locked_import, pooled_import, extracting_import, import_once,
}

-- The sessions that hold the lock behind an answer of `TryAcquire`.
abbrev pub holding : {Conn : Type 0} → Acquisition Conn → ℕ
holding (acquired conn) = 1
holding occupied = 0
holding (failed e) = 0

-- A count of what is open, in which each session that pgx opens counts `k`: 1 in a count of the
-- sessions, 0 in one of the pools.
pub record CountsConnections {Conn W : Type 0} (k : ℕ) (pgx : Connections Conn W) (live : W → ℕ)
    : Type 0 where
  pub connects :
      (cfg : PoolConfig) (w : W)
      → live (pgx.connect_config cfg w).1 ≡ live w + k * given (pgx.connect_config cfg w).0
  pub tries : (key : ℕ) (conn : Conn) (w : W) → live (pgx.try_advisory_lock key conn w).1 ≡ live w
  pub closes : (conn : Conn) (w : W) → live (pgx.close conn w) ≡ live w - k

-- The same for the parts of an import, of which a pool counts `j`: it is opened and closed, and the
-- login and the run leave nothing open.
pub record CountsParts {Pool W : Type 0} (j : ℕ) (parts : Parts Pool W) (live : W → ℕ)
    : Type 0 where
  pub opens :
      (dsn : Text) (w : W)
      → live (parts.open_db dsn w).1 ≡ live w + j * given (parts.open_db dsn w).0
  pub closes : (pool : Pool) (w : W) → live (parts.close_pool pool w) ≡ live w - j
  pub logs_in : (pool : Pool) (w : W) → live (parts.login_or_restore pool w).1 ≡ live w
  pub runs : (pool : Pool) (w : W) → live (parts.run pool w).1 ≡ live w

module _ {Conn W : Type 0} (k : ℕ) (pgx : Connections Conn W) (live : W → ℕ)
    (counts : CountsConnections k pgx live) where
  tried-live :
      (conn : Conn) (got : Result Bool) (w : W) (n : ℕ)
      → live w ≡ n + k * 1
      → live (tried pgx conn got w).1 ≡ n + k * holding (tried pgx conn got w).0
  tried-live conn (err e) w n h = omega (arith, counts.closes conn w, h)
  tried-live conn (ok false) w n h = omega (arith, counts.closes conn w, h)
  tried-live conn (ok true) w n h = h

  lock_connected-live :
      (r : Result Conn) (w : W) (n : ℕ)
      → live w ≡ n + k * given r
      → live (lock_connected pgx r w).1 ≡ n + k * holding (lock_connected pgx r w).0
  lock_connected-live (err e) w n h = h
  lock_connected-live (ok conn) w n h =
      tried-live conn (pgx.try_advisory_lock import_lock_key conn w).0
        (pgx.try_advisory_lock import_lock_key conn w).1 n (counts.tries import_lock_key conn w ∙ h)

  lock_configured-live :
      (dsn : Text) (r : Result PoolConfig) (w : W)
      → live (lock_configured pgx dsn r w).1 ≡ live w + k * holding (lock_configured pgx dsn r w).0
  lock_configured-live dsn (err e) w = omega arith
  lock_configured-live dsn (ok cfg) w =
      let c = apply_pool_defaults (dsn_params pgx.query_keys dsn) cfg in
      lock_connected-live (pgx.connect_config c w).0 (pgx.connect_config c w).1 (live w)
        (counts.connects c w)

  try_acquire-live :
      (dsn : Text) (w : W)
      → live (try_acquire pgx dsn w).1 ≡ live w + k * holding (try_acquire pgx dsn w).0
  unfolding try_acquire
  try_acquire-live dsn w = lock_configured-live dsn (pgx.parse_config dsn) w

  module _ {Pool : Type 0} (j : ℕ) (parts : Parts Pool W) (whole : CountsParts j parts live) where
    logged_in-live :
        (pool : Pool) (e : Option Error) (w : W) → live (logged_in parts pgx pool e w).1 ≡ live w
    logged_in-live pool none w = whole.runs pool w
    logged_in-live pool (some e) w = refl

    locked_import-live :
        (pool : Pool) (lock : Acquisition Conn) (w : W) (n : ℕ)
        → live w ≡ n + k * holding lock
        → live (locked_import parts pgx pool lock w).1 ≡ n
    locked_import-live pool (failed e) w n h = omega (arith, h)
    locked_import-live pool occupied w n h = omega (arith, h)
    locked_import-live pool (acquired conn) w n h =
        let (e, w') = parts.login_or_restore pool w in
        omega (
          arith,
          counts.closes conn (logged_in parts pgx pool e w').1,
          logged_in-live pool e w',
          whole.logs_in pool w,
          h,
        )

    pooled_import-live :
        (dsn : Text) (r : Result Pool) (w : W) (n : ℕ)
        → live w ≡ n + j * given r
        → live (pooled_import parts pgx dsn r w).1 ≡ n
    pooled_import-live dsn (err e) w n h = omega (arith, h)
    pooled_import-live dsn (ok pool) w n h =
        let (lock, w') = try_acquire pgx dsn w in
        omega (
          arith,
          whole.closes pool (locked_import parts pgx pool lock w').1,
          locked_import-live pool lock w' (live w) (try_acquire-live dsn w),
          h,
        )

    extracting_import-live :
        (dsn : Text) (e : Option Error) (w : W)
        → live (extracting_import parts pgx dsn e w).1 ≡ live w
    extracting_import-live dsn (some e) w = refl
    extracting_import-live dsn none w =
        pooled_import-live dsn (parts.open_db dsn w).0 (parts.open_db dsn w).1 (live w)
          (whole.opens dsn w)

    import_once-kept :
        (username dsn : Text) (extractor : Option Error) (w : W)
        → live (import_once parts pgx username dsn extractor w).1 ≡ live w
    unfolding import_once
    import_once-kept username dsn extractor w = elim (Bool-cases (is_empty username)) [
      | inl e ↦ rw e refl
      | inr e ↦ rw e (extracting_import-live dsn extractor w)
    ]

-- Whichever step of `ImportOnce` fails, and if none does, it leaves as many pools open as before,
-- and as many sessions of the import lock. The conditions are that pgx opens and closes a session
-- as it says, and no pool with it; that opening and closing the pool does, and no session with it;
-- and that the login and the run open and close neither.
pub import_once-live :
    {Conn Pool W : Type 0} (pgx : Connections Conn W) (parts : Parts Pool W)
    (pools sessions : W → ℕ)
    → CountsConnections 0 pgx pools
    → CountsConnections 1 pgx sessions
    → CountsParts 1 parts pools
    → CountsParts 0 parts sessions
    → (username dsn : Text) (extractor : Option Error) (w : W)
    → (pools (import_once parts pgx username dsn extractor w).1 ≡ pools w)
      × (sessions (import_once parts pgx username dsn extractor w).1 ≡ sessions w)
import_once-live pgx parts pools sessions c d p q username dsn extractor w = (
  import_once-kept 0 pgx pools c 1 parts p username dsn extractor w,
  import_once-kept 1 pgx sessions d 0 parts q username dsn extractor w,
)
