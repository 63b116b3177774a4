-- ===== src/Server/Imports.antt =====
-- `ImportOnce`, internal/server/import.go: the order of what it takes and gives back. Its parts,
-- the extractor that is selected, the pool, the login and the run, are parameters.
pub mod Sessions
use recipe_reader.Common.{Option, none, some, if◌then◌else◌}
use recipe_reader.Text.{Text, is_empty}
use recipe_reader.Errors.{Error, Sentinel, sentinel, foreign, wrap, Result, ok, err}
use recipe_reader.Pipeline.Run.{zero_result, Outcome}
use recipe_reader.Db.Lock.{Connections, Acquisition, acquired, occupied, failed, try_acquire}

pub record Parts (Pool W : Type 0) : Type 0 where
  pub open_db : Text → W → Result Pool × W
  pub close_pool : Pool → W → W
  pub login_or_restore : Pool → W → Option Error × W
  pub run : Pool → W → Outcome × W

module _ {Pool Conn W : Type 0} (parts : Parts Pool W) (pgx : Connections Conn W) where
  abbrev pub logged_in : Pool → Option Error → W → Outcome × W
  logged_in pool (some e) w = ((zero_result, some e), w)
  logged_in pool none w = parts.run pool w

  -- Behind the lock; the deferred release runs last.
  abbrev pub locked_import : Pool → Acquisition Conn → W → Outcome × W
  locked_import pool (failed e) w = ((zero_result, some (wrap e)), w)
  locked_import pool occupied w = ((zero_result, some (sentinel Sentinel.import_in_progress)), w)
  locked_import pool (acquired conn) w =
      let (e, w') = parts.login_or_restore pool w in
      let (outcome, w'') = logged_in pool e w' in (outcome, pgx.close conn w'')

  -- Behind the pool, with its deferred close.
  abbrev pub pooled_import : Text → Result Pool → W → Outcome × W
  pooled_import dsn (err e) w = ((zero_result, some e), w)
  pooled_import dsn (ok pool) w =
      let (lock, w') = try_acquire pgx dsn w in
      let (outcome, w'') = locked_import pool lock w' in (outcome, parts.close_pool pool w'')

  -- What follows the selection of the extractor.
  abbrev pub extracting_import : Text → Option Error → W → Outcome × W
  extracting_import dsn (some e) w = ((zero_result, some e), w)
  extracting_import dsn none w = let (pool, w') = parts.open_db dsn w in pooled_import dsn pool w'

  -- `ImportOnce`, with a username, a DSN and the error of `newExtractor`.
  unfoldable pub import_once : Text → Text → Option Error → W → Outcome × W
  import_once username dsn extractor w =
      if is_empty username
      then ((zero_result, some (foreign 0)), w)
      else extracting_import dsn extractor w
