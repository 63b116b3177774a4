-- ===== src/Pipeline/Worker/Outcomes.antt =====
-- What RunOnce reports, and what Status shows afterwards.
use recipe_reader.Common.{
  ℕ, ◌≡◌, refl, inl, inr, Bool, true, false, some, arith, Bool-cases, Option-cases,
}
use recipe_reader.Errors.{Sentinel}
use recipe_reader.Pipeline.Run.{ImportResult, zero_result, Outcome}
use recipe_reader.Pipeline.Worker.{Worker, status, begin, finish, run_begun, run_once, is_error}

-- What RunOnce says when nothing was recorded: a zero tally, and the worker that it found.
abbrev pub Unrecorded : (before after : Worker) → ImportResult → Type 0
Unrecorded before after r = (r ≡ zero_result) × (after ≡ before)

-- What RunOnce says when the run was recorded: Status shows its tally and no run in flight.
pub record Recorded (after : Worker) (r : ImportResult) : Type 0 where
  pub shown : (status after).last_result ≡ r
  pub idle : (status after).running ≡ false

abbrev pub Reports : (before after : Worker) → ImportResult → Bool → Type 0
Reports before after r true = Recorded after r
Reports before after r false = Unrecorded before after r

finish-Reports :
    (ended limited now : ℕ) (o : Outcome) (k k' : Worker)
    → begin now k ≡ some k'
    → let done = finish ended limited o k' in Reports k done.1 done.0.0 done.0.1
unfolding finish begin status
finish-Reports ended limited now o k k' b =
    elim (Bool-cases (is_error o.1 Sentinel.import_in_progress)) [
      | inl e ↦ rw e (refl, ground arith)
      | inr e ↦ rw e (record { shown = refl; idle = refl })
    ]

module _ {W : Type 0} (clock : W → ℕ × W) (run : W → Outcome × W) where
  -- RunOnce reports `ran` exactly when it recorded the run: with `ran` false the tally is zero and
  -- the worker is as it was, so that Status still shows the last real run; with `ran` true Status
  -- shows the returned tally.
  pub run_once-Reports :
      (k : Worker) (w : W)
      → let done = (run_once clock run k w).0 in Reports k done.1 done.0.0 done.0.1
  unfolding run_once run_begun
  run_once-Reports k w = elim (Option-cases (begin (clock w).0 k)) [
    | inl e ↦ rw (e, run_once) (refl, refl)
    | inr (k', e) ↦ rw (e, run_once) (finish-Reports _ _ (clock w).0 (run (clock w).1).0 k k' e)
  ]
