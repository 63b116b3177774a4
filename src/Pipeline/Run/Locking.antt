-- ===== src/Pipeline/Run/Locking.antt =====
-- The import lock over a run: what is taken is given back.
use recipe_reader.Common.{
  ℕ, ◌+◌, ◌-◌, ◌≡◌, refl, inl, inr, List, [], ◌∷◌, some, arith, Option-cases,
}
use recipe_reader.Text.{Text, Unicode}
use recipe_reader.Float.{Float}
use recipe_reader.Errors.{Error}
use recipe_reader.World.{Context}
use recipe_reader.Instagram.Types.{SavedPost}
use recipe_reader.Pipeline.Run.{
  ImportLock, Acquired, taken, held_elsewhere, unavailable, Pipeline, run_unlocked, run_locked, run,
}
use recipe_reader.Pipeline.Run.Induction.{Keeps, Sources, run_unlocked_induction}

-- The contract of `ImportLock`, with the number of holds that this process has in each world.
pub record LockLaws {W : Type 0} (held : W → ℕ) (lock : ImportLock W) : Type 0 where
  pub at_taken : (w : W) → (lock.try_acquire w).0 ≡ taken → held (lock.try_acquire w).1 ≡ held w + 1
  pub at_held_elsewhere :
      (w : W) → (lock.try_acquire w).0 ≡ held_elsewhere → held (lock.try_acquire w).1 ≡ held w
  pub at_unavailable :
      (w : W) (e : Error)
      → (lock.try_acquire w).0 ≡ unavailable e
      → held (lock.try_acquire w).1 ≡ held w
  pub at_release : (w : W) → held (lock.release w) ≡ held w - 1

abbrev pub Anything : Text → Type 0
Anything s = Unit

pub Sources-Anything : (posts : List SavedPost) → Sources Anything posts
Sources-Anything [] = tt
Sources-Anything (post ∷ posts) = (tt, Sources-Anything posts)

module _ {F W : Type 0} (u : Unicode) (fl : Float F) (ctx : Context W) (p : Pipeline F W)
    (held : W → ℕ) (frame : (h : ℕ) → Keeps ctx p Anything (λ n w. held w ≡ h)) where
  held-run_unlocked : (w : W) → held (run_unlocked u fl ctx p w).1 ≡ held w
  held-run_unlocked w =
      run_unlocked_induction u fl ctx p Anything (λ n w'. held w' ≡ held w) (frame (held w)) w
        (Sources-Anything _) refl

  held-run_locked :
      (lock : ImportLock W) (laws : LockLaws held lock) (w : W) (a : Acquired)
      → (lock.try_acquire w).0 ≡ a
      → held (run_locked u fl ctx p lock a (lock.try_acquire w).1).1 ≡ held w
  unfolding run_locked
  held-run_locked lock laws w taken e = omega (
    arith,
    laws.at_release (run_unlocked u fl ctx p (lock.try_acquire w).1).1,
    held-run_unlocked (lock.try_acquire w).1,
    laws.at_taken w e,
  )
  held-run_locked lock laws w held_elsewhere e = laws.at_held_elsewhere w e
  held-run_locked lock laws w (unavailable x) e = laws.at_unavailable w x e

  -- If the other calls leave the lock alone, a run holds as many locks at its end as at its start,
  -- whether it was refused, failed, was cancelled or finished.
  pub held-run :
      ((lock : ImportLock W) → p.lock ≡ some lock → LockLaws held lock)
      → (w : W) → held (run u fl ctx p w).1 ≡ held w
  unfolding run
  held-run laws w = elim (Option-cases p.lock) [
    | inl e ↦ rw (e, run) (held-run_unlocked w)
    | inr (lock, e) ↦ rw (e, run) (held-run_locked lock (laws lock e) w (lock.try_acquire w).0 refl)
  ]
