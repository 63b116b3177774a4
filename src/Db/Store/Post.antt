-- ===== src/Db/Store/Post.antt =====
-- What an action returns when it returns: rules for each way to build one.
use recipe_reader.Common.{◌≡◌, refl, List, [], ◌∷◌, Option, none, some}
use recipe_reader.Errors.{Error, Result, ok, err}
use recipe_reader.Db.Store.{
  Session, Action, outcome, continue, ◌>>=◌, pure, call, mapped, map_error,
}

pub data Post {F A : Type 0} (Q : A → Session F → Type 0) : Result A × Session F → Type 0 where
  returns : {a : A} {s : Session F} → Q a s → Post Q (ok a, s)
  raises : {e : Error} {s : Session F} → Post Q (err e, s)

-- The same tables and sequences; the time and the outcomes to come may differ.
pub record Alike {F : Type 0} (s t : Session F) : Type 0 where
  pub store : t.store ≡ s.store
  pub next_recipe : t.next_recipe ≡ s.next_recipe

module _ {F A : Type 0} {Q : A → Session F → Type 0} where
  pub Post-pure : (a : A) (s : Session F) → Q a s → Post Q (pure a s)
  unfolding pure
  Post-pure a s q = returns q

  Post-mapped :
      (f : Error → Error) (r : Result A) (s : Session F) → Post Q (r, s) → Post Q (mapped f r, s)
  Post-mapped f (ok a) s h = h
  Post-mapped f (err e) s h = raises

  pub Post-map_error :
      (f : Error → Error) (m : Action F A) (s : Session F) → Post Q (m s) → Post Q (map_error f m s)
  unfolding map_error
  Post-map_error f m s h = let (r, s') = m s in Post-mapped f r s' h

  Post-outcome :
      (fs : List (Option Error)) (m : Action F A) (s : Session F)
      → ((t : Session F) → Alike s t → Post Q (m t))
      → Post Q (outcome fs m s)
  Post-outcome [] m s h = h s (record { store = refl; next_recipe = refl })
  Post-outcome (none ∷ fs) m s h =
      h (record s { faults = fs }) (record { store = refl; next_recipe = refl })
  Post-outcome (some e ∷ fs) m s h = raises

  pub Post-call :
      (m : Action F A) (s : Session F)
      → ((t : Session F) → Alike s t → Post Q (m t))
      → Post Q (call m s)
  unfolding call
  Post-call m s h = Post-outcome s.faults m s h

module _ {F A B : Type 0} {Q : A → Session F → Type 0} {R : B → Session F → Type 0} where
  Post-continue :
      (r : Result A) (s : Session F) (f : A → Action F B)
      → Post Q (r, s)
      → ((a : A) (t : Session F) → Q a t → Post R (f a t))
      → Post R (continue r f s)
  Post-continue (ok a) s f (returns q) k = k a s q
  Post-continue (err e) s f raises k = raises

  pub Post-bind :
      (m : Action F A) (f : A → Action F B) (s : Session F)
      → Post Q (m s)
      → ((a : A) (t : Session F) → Q a t → Post R (f a t))
      → Post R ((m >>= f) s)
  unfolding ◌>>=◌
  Post-bind m f s h k = let (r, t) = m s in Post-continue r t f h k

module _ {F A : Type 0} {Q R : A → Session F → Type 0} where
  pub Post-weaken :
      (p : Result A × Session F) → Post Q p → ((a : A) (t : Session F) → Q a t → R a t) → Post R p
  Post-weaken p (returns q) k = returns (k _ _ q)
  Post-weaken p raises k = raises

module _ {F A : Type 0} {Q R : A → Session F → Type 0} where
  pub Post-both : (p : Result A × Session F) → Post Q p → Post R p → Post (λ a t. Q a t × R a t) p
  Post-both p (returns q) (returns r) = returns (q, r)
  Post-both p raises raises = raises

-- An action that returned.
pub Post-ok :
    {F A : Type 0} {Q : A → Session F → Type 0} (a : A) (s : Session F) → Post Q (ok a, s) → Q a s
Post-ok a s (returns q) = q
