-- ===== src/Pipeline/Worker.antt =====
-- internal/pipeline/worker.go. The worker's fields under its mutex are a record, and each section
-- that holds the mutex is one function. Times are nanoseconds since Go's zero time, which is 0.
-- The goroutines and the ticker are the steps of Worker/Interleaving.
pub mod Outcomes
pub mod Interleaving
pub mod Goroutines
pub mod Shutdown
pub mod Drain
use recipe_reader.Common.{
  ℕ, ◌+◌, ◌-◌, ◌*◌, Bool, true, false, Option, none, some, if◌then◌else◌, ltb,
}
use recipe_reader.Errors.{Error, Sentinel, errors_is}
use recipe_reader.Pipeline.Run.{ImportResult, zero_result, Outcome}

-- 30 minutes
abbrev pub rate_limit_cooldown : ℕ
rate_limit_cooldown = 30 * 60 * 1_000_000_000

pub record Worker : Type 0 where
  pub running : Bool
  pub last_run : ℕ
  pub last_result : ImportResult
  pub last_err : Option Error
  pub cooldown_until : ℕ

-- `NewWorker`
abbrev pub new_worker : Worker
new_worker = record {
  running = false;
  last_run = 0;
  last_result = zero_result;
  last_err = none;
  cooldown_until = 0;
}

pub record Status : Type 0 where
  pub last_run : ℕ
  pub last_result : ImportResult
  pub last_err : Option Error
  pub running : Bool
  pub cooldown_until : ℕ

-- `Worker.Status`
unfoldable pub status : Worker → Status
status k = record {
  last_run = k.last_run;
  last_result = k.last_result;
  last_err = k.last_err;
  running = k.running;
  cooldown_until = k.cooldown_until;
}

-- `Worker.Cooldown`, at a time: what is left of the cooldown.
unfoldable pub cooldown : Worker → ℕ → ℕ
cooldown k now = if ltb now k.cooldown_until then k.cooldown_until - now else 0

-- `Worker.RecordFailure`
unfoldable pub record_failure : Option Error → Worker → Worker
record_failure e k = record k { last_err = e }

-- The first section of RunOnce: `none` when the run is refused.
unfoldable pub begin : ℕ → Worker → Option Worker
begin now k =
    if k.running
    then none
    else if ltb now k.cooldown_until
    then none
    else some (record k { running = true })

-- Whether the error is one of the two that the last section of RunOnce looks for.
unfoldable pub is_error : Option Error → Sentinel → Bool
is_error none s = false
is_error (some e) s = errors_is e s

-- The last section of RunOnce, at the time that it records and at the time that it counts the
-- cooldown from; with what RunOnce returns.
unfoldable pub finish : ℕ → ℕ → Outcome → Worker → (ImportResult × Bool) × Worker
unfolding is_error
finish ended limited o k =
    if is_error o.1 Sentinel.import_in_progress
    then ((zero_result, false), record k { running = false })
    else (
      (o.0, true),
      record k {
        running = false;
        last_run = ended;
        last_result = o.0;
        last_err = o.1;
        cooldown_until =
            if is_error o.1 Sentinel.rate_limited
            then limited + rate_limit_cooldown
            else k.cooldown_until;
      },
    )

module _ {W : Type 0} (clock : W → ℕ × W) (run : W → Outcome × W) where
  -- What RunOnce does once `begin` has let it through.
  unfoldable pub run_begun : Worker → W → ((ImportResult × Bool) × Worker) × W
  unfolding finish
  run_begun k w =
      let done = run w in
      let ended = clock done.1 in
      let limited = clock ended.1 in (finish ended.0 limited.0 done.0 k, limited.1)

  -- `RunOnce`
  unfoldable pub run_once : Worker → W → ((ImportResult × Bool) × Worker) × W
  unfolding begin run_begun
  run_once k w =
      let now = clock w in
      elim (begin now.0 k) [
        | none ↦ (((zero_result, false), k), now.1)
        | some k' ↦ run_begun k' now.1
      ]
