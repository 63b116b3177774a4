-- ===== src/Pipeline/Worker/Interleaving.antt =====
-- The goroutines that share a worker: the schedule, the triggered runs and the callers of its
-- methods take the mutex in any order, and a run stays in flight between its two sections.
use recipe_reader.Common.{
  ℕ, ◌+◌, ◌-◌, ◌≤◌, ◌<◌, ◌≡◌, refl, Bool, true, false, Option, none, some, if◌then◌else◌, arith,
}
use recipe_reader.Errors.{Error, Sentinel}
use recipe_reader.Pipeline.Run.{Outcome}
use recipe_reader.Pipeline.Worker.{
  Worker, new_worker, begin, finish, record_failure, is_error, rate_limit_cooldown,
}

-- The worker, how many runs have begun and not finished, the time, and when the last throttled
-- run ended.
pub record System : Type 0 where
  pub worker : Worker
  pub in_flight : ℕ
  pub now : ℕ
  pub throttled : Option ℕ

abbrev pub start : System
start = record { worker = new_worker; in_flight = 0; now = 0; throttled = none }

abbrev pub throttle : ℕ → Outcome → Option ℕ → Option ℕ
throttle t o old =
    if is_error o.1 Sentinel.import_in_progress
    then old
    else if is_error o.1 Sentinel.rate_limited
    then some t
    else old

pub data Step (s : System) : System → Type 0 where
  pass : (t : ℕ) → s.now ≤ t → Step s (record s { now = t })
  begins :
      (k : Worker)
      → begin s.now s.worker ≡ some k
      → Step s (record s { worker = k; in_flight = s.in_flight + 1 })
  is_refused : begin s.now s.worker ≡ none → Step s s
  finishes :
      (o : Outcome) (t : ℕ)
      → 0 < s.in_flight
      → s.now ≤ t
      → Step s (record s {
        worker = (finish s.now t o s.worker).1;
        in_flight = s.in_flight - 1;
        now = t;
        throttled = throttle t o s.throttled;
      })
  fails : (e : Option Error) → Step s (record s { worker = record_failure e s.worker })

pub data Reach (s : System) : System → Type 0 where
  here : Reach s s
  then_ : {t v : System} → Reach s t → Step t v → Reach s v

-- As many runs are in flight as the flag says.
abbrev pub flag : Bool → ℕ
flag true = 1
flag false = 0

-- The cooldown covers 30 minutes after the last throttled run.
abbrev pub Covers : Option ℕ → ℕ → Type 0
Covers none until = Unit
Covers (some t) until = until ≡ t + rate_limit_cooldown

pub record IsSound (s : System) : Type 0 where
  pub single : s.in_flight ≡ flag s.worker.running
  pub cooled : Covers s.throttled s.worker.cooldown_until

start-IsSound : IsSound start
start-IsSound = record { single = refl; cooled = tt }

begins-IsSound :
    (s : System) (k : Worker)
    → begin s.now s.worker ≡ some k
    → IsSound s
    → IsSound (record s { worker = k; in_flight = s.in_flight + 1 })
unfolding begin
begins-IsSound s k b h = ground arith

finishes-IsSound :
    (s : System) (o : Outcome) (t : ℕ)
    → 0 < s.in_flight
    → IsSound s
    → IsSound (record s {
      worker = (finish s.now t o s.worker).1;
      in_flight = s.in_flight - 1;
      now = t;
      throttled = throttle t o s.throttled;
    })
unfolding finish
finishes-IsSound s o t p h = ground arith

Step-IsSound : {s t : System} → Step s t → IsSound s → IsSound t
unfolding record_failure
Step-IsSound {s} (pass t le) h = record { single = h.single; cooled = h.cooled }
Step-IsSound {s} (begins k b) h = begins-IsSound s k b h
Step-IsSound {s} (is_refused b) h = h
Step-IsSound {s} (finishes o t p le) h = finishes-IsSound s o t p h
Step-IsSound {s} (fails e) h = record { single = h.single; cooled = h.cooled }

-- In every interleaving, as many runs are in flight as the worker's flag says, so never two, and
-- the cooldown lasts for 30 minutes after the end of the last throttled run.
pub Reach-IsSound : {s : System} → Reach start s → IsSound s
Reach-IsSound here = start-IsSound
Reach-IsSound (then_ r st) = Step-IsSound st (Reach-IsSound r)

-- 30 minutes have passed since the last throttled run.
abbrev pub IsCool : Option ℕ → ℕ → Type 0
IsCool none now = Unit
IsCool (some t) now = t + rate_limit_cooldown ≤ now

begins-IsCool :
    (s : System) (k : Worker) (o : Option ℕ)
    → s.throttled ≡ o
    → IsSound s
    → begin s.now s.worker ≡ some k
    → IsCool o s.now
unfolding begin
begins-IsCool s k none e h b = tt
begins-IsCool s k (some t) e h b =
    let covered = h.cooled in
    let c : Covers (some t) s.worker.cooldown_until = rw e at covered in ground arith

begins_alone :
    (s : System) (k : Worker) → IsSound s → begin s.now s.worker ≡ some k → s.in_flight ≡ 0
unfolding begin
begins_alone s k h b = ground arith

-- In every interleaving, a run that begins finds no other run in flight, and begins no sooner than
-- 30 minutes after the end of the last throttled run, if there was one.
pub Reach-begins :
    {s : System} {k : Worker}
    → Reach start s
    → begin s.now s.worker ≡ some k
    → (s.in_flight ≡ 0) × IsCool s.throttled s.now
Reach-begins {s} {k} r b =
    (begins_alone s k (Reach-IsSound r) b, begins-IsCool s k s.throttled refl (Reach-IsSound r) b)
