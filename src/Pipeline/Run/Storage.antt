-- ===== src/Pipeline/Run/Storage.antt =====
-- What a run stores, from the contract of Create alone.
use recipe_reader.Common.{
  ℕ, ◌+◌, ◌≡◌, refl, ◌∙◌, ap, Bool, true, false, ◌||◌, List, [], ◌∷◌, ◌++◌, Option, none, some,
  arith, length,
}
use recipe_reader.Text.{Text, Unicode, text_eq}
use recipe_reader.Float.{Float}
use recipe_reader.World.{Context}
use recipe_reader.Errors.{Error, Result}
use recipe_reader.Domain.{Recipe, Category}
use recipe_reader.Pipeline.Run.{ImportLock, Pipeline, run}
use recipe_reader.Pipeline.Run.Induction.{Keeps, Sources, Created, run_induction}
use recipe_reader.Pipeline.Run.Locking.{Anything, Sources-Anything}

unfoldable pub contains : List Text → Text → Bool
contains [] s = false
contains (x ∷ xs) s = text_eq x s || contains xs s

-- No source stands twice.
abbrev pub IsDistinct : List Text → Type 0
IsDistinct [] = Unit
IsDistinct (x ∷ xs) = (contains xs x ≡ false) × IsDistinct xs

-- A call that leaves the stored sources alone.
abbrev pub Same : {W : Type 0} → (W → List Text) → (W → W) → Type 0
Same {W} sources f = (w : W) → sources (f w) ≡ sources w

-- `n` new sources have been put in front of `old`, and what was distinct is.
pub record Grown (old : List Text) (n : ℕ) (now : List Text) : Type 0 where
  pub added : List Text
  pub split : now ≡ added ++ old
  pub counted : length added ≡ n
  pub distinct : IsDistinct old → IsDistinct now

Grown-cons :
    (old now : List Text) (n : ℕ) (s : Text)
    → contains now s ≡ false
    → Grown old n now
    → Grown old (n + 1) (s ∷ now)
Grown-cons old now n s h g = record {
  added = s ∷ g.added;
  split = ap (λ (l : List Text). s ∷ l) g.split;
  counted = omega (arith, g.counted);
  distinct = λ d. (h, g.distinct d);
}

-- The contract of Create, as far as a run relies on it, and the frame of the other calls: only
-- Create changes which sources are stored, and it succeeds for new sources only.
pub record StoreLaws {F W : Type 0} (ctx : Context W) (p : Pipeline F W) (sources : W → List Text)
    : Type 0 where
  pub create_new :
      (r : Recipe F) (w : W)
      → (p.create r w).0 ≡ none
      → (contains (sources w) r.source ≡ false) × (sources (p.create r w).1 ≡ r.source ∷ sources w)
  pub create_error :
      (r : Recipe F) (w : W) (e : Error)
      → (p.create r w).0 ≡ some e
      → sources (p.create r w).1 ≡ sources w
  pub at_ctx : Same sources (λ w. (ctx.err w).1)
  pub at_fetch : Same sources (λ w. (p.fetch_new_posts w).1)
  pub at_extract : (c : Text) → Same sources (λ w. (p.extract c w).1)
  pub at_list :
      (list : W → Result (List Category) × W)
      → p.list_categories ≡ some list
      → Same sources (λ w. (list w).1)
  pub at_acquire :
      (lock : ImportLock W) → p.lock ≡ some lock → Same sources (λ w. (lock.try_acquire w).1)
  pub at_release : (lock : ImportLock W) → p.lock ≡ some lock → Same sources lock.release

module _ {F W : Type 0} (u : Unicode) (fl : Float F) (ctx : Context W) (p : Pipeline F W)
    (sources : W → List Text) (laws : StoreLaws ctx p sources) where
  Created-Grown :
      (old : List Text) (n : ℕ) (r : Recipe F) (w : W) (o : Option Error)
      → (p.create r w).0 ≡ o
      → Grown old n (sources w)
      → Created (λ m w'. Grown old m (sources w')) n o (p.create r w).1
  Created-Grown old n r w none e g =
      let fresh = laws.create_new r w e in
      rw fresh.1 (Grown-cons old (sources w) n r.source fresh.0 g)
  Created-Grown old n r w (some x) e g = rw (laws.create_error r w x e) g

  Grown-keeps : (old : List Text) → Keeps ctx p Anything (λ n w. Grown old n (sources w))
  Grown-keeps old = record {
    at_ctx = λ n w g. rw (laws.at_ctx w) g;
    at_fetch = λ n w g. rw (laws.at_fetch w) g;
    at_list = λ list e n w g. rw (laws.at_list list e w) g;
    at_extract = λ n c w g. rw (laws.at_extract c w) g;
    at_create = λ n r w a g. Created-Grown old n r w (p.create r w).0 refl g;
  }

  -- A run adds exactly as many recipes as it reports imported, in front of those that were there,
  -- and never a second one with the same source.
  pub run-Grown :
      (w : W) → let done = run u fl ctx p w in Grown (sources w) done.0.0.imported (sources done.1)
  run-Grown w =
      run_induction u fl ctx p Anything (λ n w'. Grown (sources w) n (sources w'))
        (Grown-keeps (sources w)) w
        (λ lock e. (
          (λ n w' g. rw (laws.at_acquire lock e w') g),
          (λ n w' g. rw (laws.at_release lock e w') g),
        ))
        (λ w'. Sources-Anything _)
        (record { added = []; split = refl; counted = refl; distinct = λ d. d })

  -- Nothing imported, and the stored sources are those of `old`.
  abbrev Idle : List Text → ℕ → W → Type 0
  Idle old n w = (n ≡ 0) × (sources w ≡ old)

  Created-Idle :
      (old : List Text) (n : ℕ) (r : Recipe F) (w : W) (o : Option Error)
      → (p.create r w).0 ≡ o
      → contains old r.source ≡ true
      → Idle old n w
      → Created (Idle old) n o (p.create r w).1
  Created-Idle old n r w none e known (z, s) =
      let fresh = (laws.create_new r w e).0 in cc (rw s at fresh)
  Created-Idle old n r w (some x) e known (z, s) = (z, laws.create_error r w x e ∙ s)

  Idle-keeps : (old : List Text) → Keeps ctx p (λ s. contains old s ≡ true) (Idle old)
  Idle-keeps old = record {
    at_ctx = λ n w h. (h.0, laws.at_ctx w ∙ h.1);
    at_fetch = λ n w h. (h.0, laws.at_fetch w ∙ h.1);
    at_list = λ list e n w h. (h.0, laws.at_list list e w ∙ h.1);
    at_extract = λ n c w h. (h.0, laws.at_extract c w ∙ h.1);
    at_create = λ n r w a h. Created-Idle old n r w (p.create r w).0 refl a h;
  }

  -- A run over posts that are all stored already imports nothing and stores nothing.
  pub run-Idle :
      (w : W)
      → ((w' : W) → Sources (λ s. contains (sources w) s ≡ true) (p.fetch_new_posts w').0.0)
      → let done = run u fl ctx p w in (done.0.0.imported ≡ 0) × (sources done.1 ≡ sources w)
  run-Idle w known =
      run_induction u fl ctx p (λ s. contains (sources w) s ≡ true) (Idle (sources w))
        (Idle-keeps (sources w)) w
        (λ lock e. (
          (λ n w' h. (h.0, laws.at_acquire lock e w' ∙ h.1)),
          (λ n w' h. (h.0, laws.at_release lock e w' ∙ h.1)),
        ))
        known (refl, refl)
