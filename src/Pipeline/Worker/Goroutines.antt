-- ===== src/Pipeline/Worker/Goroutines.antt =====
-- `Start`, `Trigger` and `Wait` of internal/pipeline/worker.go: the goroutines that the worker
-- starts, each of which is counted in its WaitGroup, as steps on what they share. A run that has
-- begun ends when the pipeline returns, with whatever outcome.
use recipe_reader.Common.{
  ℕ, zero, suc, ◌+◌, ◌-◌, ◌≤◌, ◌<◌, ◌≡◌, ℤ, pos, negsuc, Bool, true, false, Option, none, some,
}
use recipe_reader.Errors.{Error}
use recipe_reader.Pipeline.Run.{Outcome}
use recipe_reader.Pipeline.Worker.{Worker, new_worker, begin, finish, record_failure}
use recipe_reader.Pipeline.Worker.Interleaving.{System, throttle}

-- The goroutine of the schedule: not there, in its select, before RunOnce, and between the two
-- sections of RunOnce.
pub data Schedule : Type 0 where
  absent selecting due busy : Schedule

-- The worker; whether the context of Start is done, once there is one; the goroutines of Trigger
-- before RunOnce and between its two sections; the time, and when the last throttled run ended.
pub record Service : Type 0 where
  pub worker : Worker
  pub base : Option Bool
  pub schedule : Schedule
  pub ready : ℕ
  pub running : ℕ
  pub now : ℕ
  pub throttled : Option ℕ

abbrev pub new_service : Service
new_service = record {
  worker = new_worker;
  base = none;
  schedule = absent;
  ready = 0;
  running = 0;
  now = 0;
  throttled = none;
}

-- `w.interval <= 0`, or the goroutine of the schedule.
unfoldable pub scheduled : ℤ → Schedule → Schedule
scheduled (pos zero) old = old
scheduled (pos (suc n)) old = selecting
scheduled (negsuc n) old = old

-- `Worker.Start`
unfoldable pub start : ℤ → Service → Service
start interval s = record s { base = some false; schedule = scheduled interval s.schedule }

-- `Worker.Trigger`
unfoldable pub trigger : Service → Service
trigger s = record s { ready = s.ready + 1 }

abbrev pub present : Schedule → ℕ
present absent = 0
present selecting = 1
present due = 1
present busy = 1

-- The counter of the WaitGroup
unfoldable pub counter : Service → ℕ
counter s = present s.schedule + s.ready + s.running

-- How `Worker.Wait` may return: without an error once the counter is 0, or with the error of its
-- context.
pub data Waits (s : Service) : Option Error → Type 0 where
  settles : counter s ≡ 0 → Waits s none
  gives_up : (e : Error) → Waits s (some e)

-- What the goroutines do.
pub data Move (s : Service) : Service → Type 0 where
  enters :
      (k : Worker)
      → 0 < s.ready
      → begin s.now s.worker ≡ some k
      → Move s (record s { worker = k; ready = s.ready - 1; running = s.running + 1 })
  skips : 0 < s.ready → begin s.now s.worker ≡ none → Move s (record s { ready = s.ready - 1 })
  leaves :
      (o : Outcome) (t : ℕ)
      → 0 < s.running
      → s.now ≤ t
      → Move s (record s {
        worker = (finish s.now t o s.worker).1;
        running = s.running - 1;
        now = t;
        throttled = throttle t o s.throttled;
      })
  schedule_enters :
      (k : Worker)
      → s.schedule ≡ due
      → begin s.now s.worker ≡ some k
      → Move s (record s { worker = k; schedule = busy })
  schedule_skips :
      s.schedule ≡ due → begin s.now s.worker ≡ none → Move s (record s { schedule = selecting })
  schedule_leaves :
      (o : Outcome) (t : ℕ)
      → s.schedule ≡ busy
      → s.now ≤ t
      → Move s (record s {
        worker = (finish s.now t o s.worker).1;
        schedule = selecting;
        now = t;
        throttled = throttle t o s.throttled;
      })
  stops : s.schedule ≡ selecting → s.base ≡ some true → Move s (record s { schedule = absent })

-- What happens to them from outside.
pub data Event (s : Service) : Service → Type 0 where
  passes : (t : ℕ) → s.now ≤ t → Event s (record s { now = t })
  starts : (interval : ℤ) → s.base ≡ none → s.schedule ≡ absent → Event s (start interval s)
  triggers : Event s (trigger s)
  ticks : s.schedule ≡ selecting → Event s (record s { schedule = due })
  cancels : (done : Bool) → s.base ≡ some done → Event s (record s { base = some true })
  fails : (e : Option Error) → Event s (record s { worker = record_failure e s.worker })

pub data Step (s t : Service) : Type 0 where
  moves : Move s t → Step s t
  happens : Event s t → Step s t

pub data Reach (s : Service) : Service → Type 0 where
  here : Reach s s
  then_ : {t v : Service} → Reach s t → Step t v → Reach s v

abbrev pub held : Schedule → ℕ
held absent = 0
held selecting = 0
held due = 0
held busy = 1

-- The runs that have begun and not ended, whoever started them.
abbrev pub view : Service → System
view s = record {
  worker = s.worker;
  in_flight = s.running + held s.schedule;
  now = s.now;
  throttled = s.throttled;
}
