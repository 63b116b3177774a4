-- ===== src/Pipeline/Worker/Drain.antt =====
-- The shutdown of the worker comes to an end, internal/pipeline/worker.go: `Wait` behind the
-- cancellation of the context of `Start`, when nobody calls `Trigger` and the ticker does not tick.
use recipe_reader.Common.{
  ℕ, zero, suc, ◌+◌, ◌*◌, ◌≤◌, ◌<◌, ◌≡◌, refl, ap, ◌∙◌, ◌⊎◌, inl, inr, true, none, some,
  Option-cases, arith,
}
use recipe_reader.Pipeline.Run.{zero_result}
use recipe_reader.Pipeline.Worker.{begin}
use recipe_reader.Pipeline.Worker.Goroutines.{
  Schedule, absent, selecting, due, busy, Service, present, counter, Move, enters, skips, leaves,
  schedule_enters, schedule_skips, schedule_leaves, stops,
}

-- So many moves, one after the other.
pub data Moves (s : Service) : ℕ → Service → Type 0 where
  still : Moves s 0 s
  further : {n : ℕ} {t v : Service} → Moves s n t → Move t v → Moves s (suc n) v

-- How many moves a goroutine has left at most.
abbrev pub remaining : Schedule → ℕ
remaining absent = 0
remaining selecting = 1
remaining due = 3
remaining busy = 2

abbrev pub effort : Service → ℕ
effort s = remaining s.schedule + 2 * s.ready + s.running

Move-effort : {s t : Service} → Move s t → effort t < effort s
Move-effort (enters k p b) = omega (arith, p)
Move-effort (skips p b) = omega (arith, p)
Move-effort (leaves o v p le) = omega (arith, p)
Move-effort (schedule_enters k e b) = omega (arith, ap remaining e)
Move-effort (schedule_skips e b) = omega (arith, ap remaining e)
Move-effort (schedule_leaves o v e le) = omega (arith, ap remaining e)
Move-effort (stops e b) = omega (arith, ap remaining e)

Moves-effort : {s t : Service} {n : ℕ} → Moves s n t → n + effort t ≤ effort s
Moves-effort still = omega arith
Moves-effort (further m st) = omega (arith, Moves-effort m, Move-effort st)

Move-base : {s t : Service} → Move s t → t.base ≡ s.base
Move-base (enters k p b) = refl
Move-base (skips p b) = refl
Move-base (leaves o v p le) = refl
Move-base (schedule_enters k e b) = refl
Move-base (schedule_skips e b) = refl
Move-base (schedule_leaves o v e le) = refl
Move-base (stops e b) = refl

Moves-base : {s t : Service} {n : ℕ} → Moves s n t → t.base ≡ s.base
Moves-base still = refl
Moves-base (further m st) = Move-base st ∙ Moves-base m

-- A goroutine that can move.
abbrev CanMove : Service → Type 0
CanMove s = (t : Service) × Move s t

ready-CanMove : (s : Service) → 0 < s.ready → CanMove s
ready-CanMove s p = elim (Option-cases (begin s.now s.worker)) [
  | inl b ↦ (_, skips p b)
  | inr (k, b) ↦ (_, enters k p b)
]

due-CanMove : (s : Service) → s.schedule ≡ due → CanMove s
due-CanMove s e = elim (Option-cases (begin s.now s.worker)) [
  | inl b ↦ (_, schedule_skips e b)
  | inr (k, b) ↦ (_, schedule_enters k e b)
]

schedule-CanMove :
    (s : Service) (c : Schedule) → s.schedule ≡ c → s.base ≡ some true → (c ≡ absent) ⊎ CanMove s
schedule-CanMove s absent e b = inl refl
schedule-CanMove s selecting e b = inr (_, stops e b)
schedule-CanMove s due e b = inr (due-CanMove s e)
schedule-CanMove s busy e b = inr (_, schedule_leaves (zero_result, none) s.now e (omega arith))

positive : (n : ℕ) → (n ≡ 0) ⊎ (0 < n)
positive zero = inl refl
positive (suc n) = inr (omega arith)

-- Behind the cancellation, a goroutine can move as long as one is there.
settled_or_moves : (s : Service) → s.base ≡ some true → (counter s ≡ 0) ⊎ CanMove s
unfolding counter
settled_or_moves s b = elim (positive s.ready) [
  | inr p ↦ inr (ready-CanMove s p)
  | inl z ↦ elim (positive s.running) [
    | inr p ↦ inr (_, leaves (zero_result, none) s.now p (omega arith))
    | inl y ↦ elim (schedule-CanMove s s.schedule refl b) [
      | inr m ↦ inr m
      | inl e ↦ inl (omega (arith, z, y, ap present e))
    ]
  ]
]

remaining-le : (c : Schedule) → remaining c ≤ 3
remaining-le absent = omega arith
remaining-le selecting = omega arith
remaining-le due = omega arith
remaining-le busy = omega arith

-- Behind the cancellation of its context, the worker's goroutines end, in whatever order they move
-- and whether or not their runs are refused: they make at most three moves for the schedule, two
-- for each triggered run and one for each run in flight, and as long as the WaitGroup is not empty
-- one of them can move. The conditions are that nobody triggers another run, that the ticker does
-- not tick again and that a run in flight returns.
pub Moves-drain :
    {s t : Service} {n : ℕ}
    → s.base ≡ some true
    → Moves s n t
    → (n ≤ 3 + 2 * s.ready + s.running) × ((counter t ≡ 0) ⊎ ((v : Service) × Move t v))
Moves-drain {s} {t} b m =
    (omega (arith, Moves-effort m, remaining-le s.schedule), settled_or_moves t (Moves-base m ∙ b))
