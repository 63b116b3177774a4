-- ===== src/Pipeline/Worker/Shutdown.antt =====
-- The goroutines of the worker behave as the interleavings of its sections, and a shutdown waits
-- for all of them, internal/pipeline/worker.go.
use recipe_reader.Common.{
  ℕ, zero, suc, ◌≤◌, ◌≡◌, refl, ap, subst, Bool, true, false, Option, none, ℤ, pos, negsuc, arith,
}
use recipe_reader.Pipeline.Worker.{Worker}
use recipe_reader.Pipeline.Worker.Interleaving
use recipe_reader.Pipeline.Worker.Interleaving.{
  System, begins, is_refused, finishes, pass, flag, IsSound, Reach-IsSound,
}
use recipe_reader.Pipeline.Worker.Goroutines.{
  Schedule, absent, selecting, due, busy, Service, new_service, start, scheduled, trigger, present,
  counter, Move, enters, skips, leaves, schedule_enters, schedule_skips, schedule_leaves, stops,
  Event, passes, starts, triggers, ticks, cancels, fails, Step, moves, happens, Reach, here, then_,
  held, view, Waits, settles,
}

-- A step of the goroutines that is one of the sections.
section :
    (s : System) (w : Worker) (n n' now : ℕ) (o : Option ℕ)
    → n ≡ n'
    → Interleaving.Step s (record { worker = w; in_flight = n; now = now; throttled = o })
    → Interleaving.Reach s (record { worker = w; in_flight = n'; now = now; throttled = o })
section s w n n' now o e st = Interleaving.then_ Interleaving.here (
    subst
      (λ m. Interleaving.Step s (record { worker = w; in_flight = m; now = now; throttled = o })) e
      st)

-- Nothing that the sections see has changed.
silent : (s : System) (n : ℕ) → s.in_flight ≡ n → Interleaving.Reach s (record s { in_flight = n })
silent s n e = subst (λ m. Interleaving.Reach s (record s { in_flight = m })) e Interleaving.here

Move-sections : {s t : Service} → Move s t → Interleaving.Reach (view s) (view t)
Move-sections {s} (enters k p b) =
    section (view s) k _ _ s.now s.throttled (omega arith) (begins k b)
Move-sections {s} (skips p b) = Interleaving.here
Move-sections {s} (leaves o t p le) =
    section (view s) _ _ _ t _ (omega (arith, p)) (finishes o t (omega (arith, p)) le)
Move-sections {s} (schedule_enters k e b) =
    section (view s) k _ _ s.now s.throttled (omega (arith, ap held e)) (begins k b)
Move-sections {s} (schedule_skips e b) = silent (view s) _ (omega (arith, ap held e))
Move-sections {s} (schedule_leaves o t e le) =
    section (view s) _ _ _ t _ (omega (arith, ap held e))
      (finishes o t (omega (arith, ap held e)) le)
Move-sections {s} (stops e b) = silent (view s) _ (omega (arith, ap held e))

scheduled-idle : (interval : ℤ) → held (scheduled interval absent) ≡ 0
unfolding scheduled
scheduled-idle (pos zero) = refl
scheduled-idle (pos (suc n)) = refl
scheduled-idle (negsuc n) = refl

Event-sections : {s t : Service} → Event s t → Interleaving.Reach (view s) (view t)
unfolding start trigger
Event-sections {s} (passes t le) = Interleaving.then_ Interleaving.here (pass t le)
Event-sections {s} (starts interval e a) =
    silent (view s) _
      (omega (arith, ap held a, ap (λ c. held (scheduled interval c)) a, scheduled-idle interval))
Event-sections {s} triggers = Interleaving.here
Event-sections {s} (ticks e) = silent (view s) _ (omega (arith, ap held e))
Event-sections {s} (cancels d e) = Interleaving.here
Event-sections {s} (fails e) = Interleaving.then_ Interleaving.here (Interleaving.fails e)

Step-sections : {s t : Service} → Step s t → Interleaving.Reach (view s) (view t)
Step-sections (moves m) = Move-sections m
Step-sections (happens e) = Event-sections e

reach_behind :
    {a b c : System} → Interleaving.Reach a b → Interleaving.Reach b c → Interleaving.Reach a c
reach_behind r Interleaving.here = r
reach_behind r (Interleaving.then_ q st) = Interleaving.then_ (reach_behind r q) st

-- Whatever the goroutines of the worker do and whatever happens to them, the sections of RunOnce
-- and of the other methods run as one of the interleavings of the sections, from the same start,
-- where the runs in flight are those of the schedule and of the triggered goroutines.
pub Reach-sections :
    {s : Service} → Reach new_service s → Interleaving.Reach Interleaving.start (view s)
Reach-sections here = Interleaving.here
Reach-sections (then_ r st) = reach_behind (Reach-sections r) (Step-sections st)

-- No goroutine is there that could move.
settled-still : (s t : Service) → counter s ≡ 0 → Move s t → ⊥
unfolding counter
settled-still s t z (enters k p b) = omega (arith, z, p)
settled-still s t z (skips p b) = omega (arith, z, p)
settled-still s t z (leaves o v p le) = omega (arith, z, p)
settled-still s t z (schedule_enters k e b) = omega (arith, z, ap present e)
settled-still s t z (schedule_skips e b) = omega (arith, z, ap present e)
settled-still s t z (schedule_leaves o v e le) = omega (arith, z, ap present e)
settled-still s t z (stops e b) = omega (arith, z, ap present e)

held-le-present : (c : Schedule) → held c ≤ present c
held-le-present absent = omega arith
held-le-present selecting = omega arith
held-le-present due = omega arith
held-le-present busy = omega arith

flag-false : (b : Bool) → flag b ≡ 0 → b ≡ false
flag-false true h = absurd (omega (arith, h))
flag-false false h = refl

-- In every interleaving of the goroutines, when `Wait` returns without an error no run is in flight,
-- and no goroutine of the worker is left that could move.
pub Reach-settled :
    {s : Service}
    → Reach new_service s
    → Waits s none
    → (s.worker.running ≡ false) × ((t : Service) → ¬ Move s t)
unfolding counter
Reach-settled {s} r (settles z) = (
  flag-false s.worker.running
      (omega (arith, (Reach-IsSound (Reach-sections r)).single, held-le-present s.schedule, z)),
  λ t m. settled-still s t z m,
)
