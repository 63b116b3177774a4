-- ===== src/Pipeline/Run/Induction.antt =====
-- Induction over a run: a relation between the number of imported posts and the state of the world
-- that the collaborators keep holds of what `Pipeline.Run` leaves.
use recipe_reader.Common.{
  ℕ, ◌+◌, ◌≡◌, inl, inr, List, [], ◌∷◌, Option, none, some, Bool-cases, Option-cases, All,
}
use recipe_reader.Text.{Text, Unicode}
use recipe_reader.Float.{Float}
use recipe_reader.World.{Context}
use recipe_reader.Errors.{Error, Result, ok, err, Sentinel, errors_is}
use recipe_reader.Domain.{Recipe, Category}
use recipe_reader.Extraction.Types.{ExtractedRecipe}
use recipe_reader.Instagram.Types.{SavedPost}
use recipe_reader.Pipeline.Vocabulary.{Vocabulary}
use recipe_reader.Pipeline.Convert.{to_recipe}
use recipe_reader.Pipeline.Run.{
  ImportLock, Acquired, taken, held_elsewhere, unavailable, run_locked, run, ImportResult, Control,
  Outcome, next, return, Pipeline, interrupted, post_failed, stored, extracted, import_post,
  import_posts, fetched, run_unlocked, category_vocabulary, zero_result,
}

-- What a call of Create may do to the relation: count one more import, or leave the count.
abbrev pub Created : {W : Type 0} → (ℕ → W → Type 0) → ℕ → Option Error → W → Type 0
Created Q n none w = Q (n + 1) w
Created Q n (some e) w = Q n w

abbrev pub Listed : {F W : Type 0} → (ℕ → W → Type 0) → Pipeline F W → Type 0
Listed {F} {W} Q p =
    (list : W → Result (List Category) × W)
    → p.list_categories ≡ some list
    → (n : ℕ) (w : W) → Q n w
    → Q n (list w).1

-- The posts for which Create may be called have the property `A`.
pub record Keeps {F W : Type 0} (ctx : Context W) (p : Pipeline F W) (A : Text → Type 0)
    (Q : ℕ → W → Type 0) : Type 0 where
  pub at_ctx : (n : ℕ) (w : W) → Q n w → Q n (ctx.err w).1
  pub at_fetch : (n : ℕ) (w : W) → Q n w → Q n (p.fetch_new_posts w).1
  pub at_list : Listed Q p
  pub at_extract : (n : ℕ) (c : Text) (w : W) → Q n w → Q n (p.extract c w).1
  pub at_create :
      (n : ℕ) (r : Recipe F) (w : W)
      → A r.source
      → Q n w
      → Created Q n (p.create r w).0 (p.create r w).1

abbrev pub Sources : (Text → Type 0) → List SavedPost → Type 0
Sources A posts = All (λ (post : SavedPost). A post.source) posts

module _ {F W : Type 0} (u : Unicode) (fl : Float F) (ctx : Context W) (p : Pipeline F W)
    (A : Text → Type 0) (Q : ℕ → W → Type 0) (k : Keeps ctx p A Q) where
  abbrev Goes : Control × W → Type 0
  Goes (next r, w) = Q r.imported w
  Goes (return o, w) = Q o.0.imported w

  interrupted-Goes : (r : ImportResult) (w : W) → Q r.imported w → Goes (interrupted u fl ctx p r w)
  unfolding interrupted
  interrupted-Goes r w h = k.at_ctx _ _ (k.at_ctx _ w h)

  post_failed-Goes : (r : ImportResult) (w : W) → Q r.imported w → Goes (post_failed u fl ctx p r w)
  unfolding post_failed
  post_failed-Goes r w h = elim (Option-cases (ctx.err w).0) [
    | inl e ↦ rw (e, post_failed) (k.at_ctx _ w h)
    | inr (x, e) ↦ rw (e, post_failed) (interrupted-Goes r (ctx.err w).1 (k.at_ctx _ w h))
  ]

  stored-Goes :
      (ex : ExtractedRecipe F) (r : ImportResult) (o : Option Error) (w : W)
      → Created Q r.imported o w
      → Goes (stored u fl ctx p ex r o w)
  unfolding stored
  stored-Goes ex r none w h = h
  stored-Goes ex r (some x) w h = elim (Bool-cases (errors_is x Sentinel.duplicate_source)) [
    | inl e ↦ rw e h
    | inr e ↦ rw e (post_failed-Goes r w h)
  ]

  extracted-Goes :
      (post : SavedPost) (v : Option Vocabulary) (r : ImportResult) (x : Result (ExtractedRecipe F))
      (w : W)
      → A post.source
      → Q r.imported w
      → Goes (extracted u fl ctx p post v r x w)
  unfolding extracted to_recipe
  extracted-Goes post v r (err x) w a h = elim (Bool-cases (errors_is x Sentinel.no_recipe)) [
    | inl e ↦ rw e h
    | inr e ↦ rw e (post_failed-Goes r w h)
  ]
  extracted-Goes post v r (ok ex) w a h = elim (Bool-cases (fl.le ex.confidence fl.zero)) [
    | inl e ↦ rw e h
    | inr e ↦
        rw e (stored-Goes ex r _ _ (k.at_create _ (to_recipe u fl p.thresholds post ex v) w a h))
  ]

  import_post-Goes :
      (post : SavedPost) (v : Option Vocabulary) (r : ImportResult) (w : W)
      → A post.source
      → Q r.imported w
      → Goes (import_post u fl ctx p post v r w)
  unfolding import_post
  import_post-Goes post v r w a h = elim (Option-cases (ctx.err w).0) [
    | inl e ↦
        rw (e, import_post)
          (extracted-Goes post v (record r { seen = r.seen + 1 }) _ _ a
            (k.at_extract _ post.caption _ (k.at_ctx _ w h)))
    | inr (x, e) ↦ rw (e, import_post) (k.at_ctx _ w h)
  ]

  after_post :
      (e : Option Error) (v : Option Vocabulary) (posts : List SavedPost) (c : Control) (w : W)
      → Goes (c, w)
      → ((r : ImportResult)
          → Q r.imported w
          → Q
              (import_posts u fl ctx p e v posts r w).0.0.imported
              (import_posts u fl ctx p e v posts r w).1)
      → let done : Outcome × W = elim c [
        | next r ↦ import_posts u fl ctx p e v posts r w
        | return o ↦ (o, w)
      ] in
        Q done.0.0.imported done.1
  after_post e v posts (next r) w h loop = loop r h
  after_post e v posts (return o) w h loop = h

  pub import_posts_induction :
      (e : Option Error) (v : Option Vocabulary) (posts : List SavedPost) (r : ImportResult) (w : W)
      → Sources A posts
      → Q r.imported w
      → let done = import_posts u fl ctx p e v posts r w in Q done.0.0.imported done.1
  unfolding import_posts
  import_posts_induction none v [] r w a h = h
  import_posts_induction (some x) v [] r w a h = h
  import_posts_induction x v (post ∷ posts) r w a h =
      after_post x v posts (import_post u fl ctx p post v r w).0
        (import_post u fl ctx p post v r w).1 (import_post-Goes post v r w a.0 h)
        (λ r' h'. import_posts_induction x v posts r' (import_post u fl ctx p post v r w).1 a.1 h')

  vocabulary_induction : (w : W) → Q 0 w → Q 0 (category_vocabulary u fl ctx p w).1
  unfolding category_vocabulary
  vocabulary_induction w h = elim (Option-cases p.list_categories) [
    | inl e ↦ rw (e, category_vocabulary) h
    | inr (list, e) ↦ rw (e, category_vocabulary) (k.at_list list e 0 w h)
  ]

  fetched_induction :
      (posts : List SavedPost) (e : Option Error) (w : W)
      → Sources A posts
      → Q 0 w
      → let done = fetched u fl ctx p posts e w in Q done.0.0.imported done.1
  unfolding fetched
  fetched_induction [] (some e) w a h = h
  fetched_induction [] none w a h = vocabulary_induction w h
  fetched_induction (post ∷ posts) e w a h =
      import_posts_induction e _ (post ∷ posts) zero_result _ a (vocabulary_induction w h)

  -- The relation holds of the count that an unlocked run returns and of the world that it leaves.
  pub run_unlocked_induction :
      (w : W)
      → Sources A (p.fetch_new_posts w).0.0
      → Q 0 w
      → let done = run_unlocked u fl ctx p w in Q done.0.0.imported done.1
  unfolding run_unlocked
  run_unlocked_induction w a h = fetched_induction _ _ _ a (k.at_fetch 0 w h)

  abbrev pub LockKeeps : ImportLock W → Type 0
  LockKeeps lock =
      ((n : ℕ) (w : W) → Q n w → Q n (lock.try_acquire w).1)
      × ((n : ℕ) (w : W) → Q n w → Q n (lock.release w))

  run_locked_induction :
      (lock : ImportLock W) (a : Acquired) (w : W)
      → LockKeeps lock
      → ((w' : W) → Sources A (p.fetch_new_posts w').0.0)
      → Q 0 w
      → let done = run_locked u fl ctx p lock a w in Q done.0.0.imported done.1
  unfolding run_locked
  run_locked_induction lock taken w l a h = l.1 _ _ (run_unlocked_induction w (a w) h)
  run_locked_induction lock held_elsewhere w l a h = h
  run_locked_induction lock (unavailable e) w l a h = h

  -- The same for a whole run, whether or not it takes a lock and gets it.
  pub run_induction :
      (w : W)
      → ((lock : ImportLock W) → p.lock ≡ some lock → LockKeeps lock)
      → ((w' : W) → Sources A (p.fetch_new_posts w').0.0)
      → Q 0 w
      → let done = run u fl ctx p w in Q done.0.0.imported done.1
  unfolding run run_unlocked
  run_induction w l a h = elim (Option-cases p.lock) [
    | inl e ↦ rw (e, run) (run_unlocked_induction w (a w) h)
    | inr (lock, e) ↦ rw (e, run) (run_locked_induction lock _ _ (l lock e) a ((l lock e).0 0 w h))
  ]
