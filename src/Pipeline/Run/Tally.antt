-- ===== src/Pipeline/Run/Tally.antt =====
-- The tally of `Pipeline.Run`: what `ImportResult` says of its five counts.
use recipe_reader.Common.{
  ◌+◌, ◌≤◌, ◌≡◌, refl, ◌⊎◌, inl, inr, List, [], ◌∷◌, Option, none, some, arith, Bool-cases,
  Option-cases,
}
use recipe_reader.Text.{Unicode}
use recipe_reader.Float.{Float}
use recipe_reader.World.{Context}
use recipe_reader.Errors.{Error, Result, ok, err, Sentinel, errors_is}
use recipe_reader.Extraction.Types.{ExtractedRecipe}
use recipe_reader.Instagram.Types.{SavedPost}
use recipe_reader.Pipeline.Vocabulary.{Vocabulary}
use recipe_reader.Pipeline.Run.{
  ImportResult, Control, Outcome, next, return, Pipeline, ImportLock, Acquired, taken,
  held_elsewhere, unavailable, interrupted, post_failed, stored, extracted, import_post,
  import_posts, fetched, run_unlocked, run_locked, run, zero_result,
}

-- The four outcomes partition the posts seen, and the degraded ones are among the imported.
pub record IsTally (r : ImportResult) : Type 0 where
  pub partition : r.seen ≡ r.imported + r.skipped + r.no_recipe + r.failed
  pub overlap : r.degraded ≤ r.imported

-- The same while one post has been seen and has no outcome yet.
record IsPending (r : ImportResult) : Type 0 where
  partition : r.seen ≡ r.imported + r.skipped + r.no_recipe + r.failed + 1
  overlap : r.degraded ≤ r.imported

abbrev ControlIsTally : Control → Type 0
ControlIsTally (next r) = IsTally r
ControlIsTally (return o) = IsTally o.0

module _ {F W : Type 0} (u : Unicode) (fl : Float F) (ctx : Context W) (p : Pipeline F W) where
  interrupted-IsTally :
      (r : ImportResult) (w : W) → IsPending r → ControlIsTally (interrupted u fl ctx p r w).0
  unfolding interrupted
  interrupted-IsTally r w h = omega arith

  post_failed-IsTally :
      (r : ImportResult) (w : W) → IsPending r → ControlIsTally (post_failed u fl ctx p r w).0
  unfolding post_failed
  post_failed-IsTally r w h = elim (Option-cases (ctx.err w).0) [
    | inl e ↦ rw (e, post_failed) (omega arith)
    | inr (x, e) ↦ rw (e, post_failed) (interrupted-IsTally r (ctx.err w).1 h)
  ]

  stored-IsTally :
      (ex : ExtractedRecipe F) (r : ImportResult) (o : Option Error) (w : W)
      → IsPending r
      → ControlIsTally (stored u fl ctx p ex r o w).0
  unfolding stored
  stored-IsTally ex r none w h = elim (Bool-cases ex.degraded) [
    | inl e ↦ rw e (omega arith)
    | inr e ↦ rw e (omega arith)
  ]
  stored-IsTally ex r (some x) w h = elim (Bool-cases (errors_is x Sentinel.duplicate_source)) [
    | inl e ↦ rw e (omega arith)
    | inr e ↦ rw e (post_failed-IsTally r w h)
  ]

  extracted-IsTally :
      (post : SavedPost) (v : Option Vocabulary) (r : ImportResult) (x : Result (ExtractedRecipe F))
      (w : W)
      → IsPending r
      → ControlIsTally (extracted u fl ctx p post v r x w).0
  unfolding extracted
  extracted-IsTally post v r (err x) w h = elim (Bool-cases (errors_is x Sentinel.no_recipe)) [
    | inl e ↦ rw e (omega arith)
    | inr e ↦ rw e (post_failed-IsTally r w h)
  ]
  extracted-IsTally post v r (ok ex) w h = elim (Bool-cases (fl.le ex.confidence fl.zero)) [
    | inl e ↦ rw e (omega arith)
    | inr e ↦ rw e (stored-IsTally ex r _ _ h)
  ]

  import_post-IsTally :
      (post : SavedPost) (v : Option Vocabulary) (r : ImportResult) (w : W)
      → IsTally r
      → ControlIsTally (import_post u fl ctx p post v r w).0
  unfolding import_post
  import_post-IsTally post v r w h = elim (Option-cases (ctx.err w).0) [
    | inl e ↦ rw (e, import_post) (extracted-IsTally post v _ _ _ (omega arith))
    | inr (x, e) ↦ rw (e, import_post) h
  ]

  Control-cases :
      (c : Control) → ((r : ImportResult) × (c ≡ next r)) ⊎ ((o : Outcome) × (c ≡ return o))
  Control-cases (next r) = inl (r, refl)
  Control-cases (return o) = inr (o, refl)

  import_posts-IsTally :
      (e : Option Error) (v : Option Vocabulary) (posts : List SavedPost) (r : ImportResult) (w : W)
      → IsTally r
      → IsTally (import_posts u fl ctx p e v posts r w).0.0
  unfolding import_posts
  import_posts-IsTally none v [] r w h = h
  import_posts-IsTally (some x) v [] r w h = h
  import_posts-IsTally x v (post ∷ posts) r w h =
      let kept = import_post-IsTally post v r w h in
      elim (Control-cases (import_post u fl ctx p post v r w).0) [
        | inl (r', e) ↦ rw (e, import_posts) (import_posts-IsTally x v posts r' _ (rw e at kept))
        | inr (o, e) ↦ rw (e, import_posts) (rw e at kept)
      ]

  zero-IsTally : IsTally zero_result
  zero-IsTally = omega arith

  fetched-IsTally :
      (posts : List SavedPost) (e : Option Error) (w : W)
      → IsTally (fetched u fl ctx p posts e w).0.0
  unfolding fetched
  fetched-IsTally [] (some e) w = zero-IsTally
  fetched-IsTally [] none w = zero-IsTally
  fetched-IsTally (post ∷ posts) e w =
      import_posts-IsTally e _ (post ∷ posts) zero_result _ zero-IsTally

  run_locked-IsTally :
      (lock : ImportLock W) (a : Acquired) (w : W) → IsTally (run_locked u fl ctx p lock a w).0.0
  unfolding run_locked run_unlocked
  run_locked-IsTally lock taken w = fetched-IsTally _ _ _
  run_locked-IsTally lock held_elsewhere w = zero-IsTally
  run_locked-IsTally lock (unavailable e) w = zero-IsTally

  -- Whatever the collaborators and the context do, and however the run ends, the posts seen are
  -- those imported, skipped, without a recipe or failed, and at most the imported are degraded.
  pub run-IsTally : (w : W) → IsTally (run u fl ctx p w).0.0
  unfolding run run_unlocked
  run-IsTally w = elim (Option-cases p.lock) [
    | inl e ↦ rw (e, run) (fetched-IsTally _ _ _)
    | inr (lock, e) ↦ rw (e, run) (run_locked-IsTally lock _ _)
  ]
