-- ===== src/Repository/Recipes/Atomicity.antt =====
-- `Create` and `Update` of internal/repository/recipe_repository.go as wholes: all of a write is
-- stored, or none of it.
use recipe_reader.Common.{◌≡◌, refl, subst, ◌⊎◌, inl, inr, List, [], ◌∷◌, Option, none, some}
use recipe_reader.Errors.{Error, wrap, Result, ok, err}
use recipe_reader.Domain.{Recipe}
use recipe_reader.Db.Store.{
  Store, Session, Action, continue, ◌>>=◌, pure, outcome, call, mapped, map_error,
}
use recipe_reader.Db.Store.Post.{Post, returns, raises, Alike}
use recipe_reader.Repository.Recipes.{
  closed, committed, ended, worked, transact, created, handed, create,
}
use recipe_reader.Repository.Recipes.Writes.{IsStored, created-returns}

-- How a transaction ends: with what its work leaves in the store, or with the store from before.
pub data Settled {F A : Type 0} (Q : A → Store F → Type 0) (before : Store F)
    : Result A × Session F → Type 0 where
  done : {a : A} {s : Session F} → Q a (s.store) → Settled Q before (ok a, s)
  undone : {e : Error} {s : Session F} → s.store ≡ before → Settled Q before (err e, s)

module _ {F A : Type 0} {Q : A → Store F → Type 0} where
  closed-Settled :
      (fs : List (Option Error)) (before : Store F) (a : A) (s : Session F)
      → Q a (s.store)
      → Settled Q before (let (r, s') = outcome fs (pure a) s in closed wrap before r s')
  unfolding pure
  closed-Settled [] before a s q = done q
  closed-Settled (none ∷ fs) before a s q = done q
  closed-Settled (some e ∷ fs) before a s q = undone refl

  ended-Settled :
      (before : Store F) (r : Result A) (s : Session F)
      → Post (λ a t. Q a (t.store)) (r, s)
      → Settled Q before (ended before r s)
  unfolding committed call
  ended-Settled before (ok a) s (returns q) = closed-Settled s.faults before a s q
  ended-Settled before (err e) s raises = undone refl

  worked-Settled :
      (work : Action F A) (s : Session F)
      → Post (λ a t. Q a (t.store)) (work s)
      → Settled Q (s.store) (worked work s)
  unfolding worked
  worked-Settled work s h = let (r, t) = work s in ended-Settled (s.store) r t h

  begun-Settled :
      (fs : List (Option Error)) (work : Action F A) (s : Session F)
      → ((t : Session F) → Alike s t → Post (λ a v. Q a (v.store)) (work t))
      → Settled Q
          (s.store)
          (let (r, t) = outcome fs (pure tt) s in continue (mapped wrap r) (λ u. worked work) t)
  unfolding pure
  begun-Settled [] work s h =
      worked-Settled work s (h s (record { store = refl; next_recipe = refl }))
  begun-Settled (none ∷ fs) work s h =
      worked-Settled work _
        (h (record s { faults = fs }) (record { store = refl; next_recipe = refl }))
  begun-Settled (some e ∷ fs) work s h = undone refl

  pub transact-Settled :
      (work : Action F A) (s : Session F)
      → ((t : Session F) → Alike s t → Post (λ a v. Q a (v.store)) (work t))
      → Settled Q (s.store) (transact work s)
  unfolding transact ◌>>=◌ map_error call
  transact-Settled work s h = begun-Settled s.faults work s h

module _ {F : Type 0} where
  -- How a write ends: with a recipe for the caller and no error, or with an error, the recipe as it
  -- was passed and the store from before.
  unfoldable pub Ended :
      (Recipe F → Store F → Type 0)
      → Recipe F
      → Store F
      → (Option Error × Recipe F) × Session F
      → Type 0
  Ended Q r before p =
      ((r' : Recipe F) × (p.0 ≡ (none, r')) × Q r' (p.1.store))
      ⊎ ((e : Error) × (p.0 ≡ (some e, r)) × (p.1.store ≡ before))

  handed-Ended :
      (Q : Recipe F → Store F → Type 0) (r : Recipe F) (before : Store F)
      (p : Result (Recipe F) × Session F)
      → Settled Q before p
      → Ended Q r before (handed r p.0, p.1)
  unfolding Ended
  handed-Ended Q r before p (done q) = inl (_, refl, q)
  handed-Ended Q r before p (undone q) = inr (_, refl, q)

  -- Whatever goes wrong between and in its statements, `Create` stores all of a recipe or nothing:
  -- it returns no error, and the recipe is stored with its lines in order and its categories,
  -- beside those from before, where an ingredient, a unit or a category that was given by its name
  -- is a stored row with that name, its source was new and the caller's recipe has the stored ids;
  -- or it returns an error, the store is as it was and so is the caller's recipe. No other
  -- transaction commits meanwhile.
  pub create-Ended :
      (r : Recipe F) (s : Session F)
      → Ended (λ r' after. IsStored r (s.store) s.next_recipe after r') r (s.store) (create r s)
  unfolding create
  create-Ended r s = handed-Ended _ r (s.store) (transact (created r) s) (
      transact-Settled (created r) s λ t h.
        subst
          (λ (st : Store F). Post (λ r' v. IsStored r st s.next_recipe (v.store) r') (created r t))
          h.store
          (subst (λ n. Post (λ r' v. IsStored r (t.store) n (v.store) r') (created r t))
            h.next_recipe (created-returns r t)))
