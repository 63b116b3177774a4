-- ===== src/Pipeline/Run.antt =====
-- `Pipeline.Run` and `interrupted`, internal/pipeline/pipeline.go. The collaborators that are
-- injected are functions on the state `W` of the world; the context may end the run at any call.
pub mod Tally
pub mod Induction
pub mod Locking
pub mod Storage
pub mod Stored
use recipe_reader.Common.{
  ℕ, ◌+◌, ◌-◌, Bool, true, false, ◌&&◌, List, [], ◌∷◌, Option, none, some, if◌then◌else◌,
}
use recipe_reader.Text.{Text, Unicode}
use recipe_reader.Float.{Float}
use recipe_reader.World.{Context}
use recipe_reader.Errors.{
  Error, Result, ok, err, Sentinel, sentinel, errors_is, wrap, wrap2, wrap_nilable,
}
use recipe_reader.Domain.{Recipe, Category}
use recipe_reader.Extraction.Types.{ExtractedRecipe, Extractor}
use recipe_reader.Instagram.Types.{SavedPost}
use recipe_reader.Pipeline.Vocabulary.{Vocabulary, vocabulary_of}
use recipe_reader.Pipeline.Convert.{Thresholds, to_recipe}

pub record ImportResult : Type 0 where
  pub seen : ℕ
  pub imported : ℕ
  pub skipped : ℕ
  pub no_recipe : ℕ
  pub failed : ℕ
  pub degraded : ℕ

abbrev pub zero_result : ImportResult
zero_result = record {
  seen = 0;
  imported = 0;
  skipped = 0;
  no_recipe = 0;
  failed = 0;
  degraded = 0;
}

-- `TryAcquire`: the lock is taken, is held elsewhere, or could not be consulted.
pub data Acquired : Type 0 where
  taken held_elsewhere : Acquired
  unavailable : Error → Acquired

pub record ImportLock (W : Type 0) : Type 0 where
  pub try_acquire : W → Acquired × W
  pub release : W → W

pub record Pipeline (F W : Type 0) : Type 0 where
  pub fetch_new_posts : W → (List SavedPost × Option Error) × W
  pub extract : Extractor F W
  pub create : Recipe F → W → Option Error × W
  pub list_categories : Option (W → Result (List Category) × W)
  pub thresholds : Thresholds F
  pub lock : Option (ImportLock W)

-- What `Run` returns.
abbrev pub Outcome : Type 0
Outcome = ImportResult × Option Error

-- The loop's body goes on to the next post, or returns from `Run`.
pub data Control : Type 0 where
  next : ImportResult → Control
  return : Outcome → Control

module _ {F W : Type 0} (u : Unicode) (fl : Float F) (ctx : Context W) (p : Pipeline F W) where
  -- `categoryVocabulary`
  unfoldable pub category_vocabulary : W → Option Vocabulary × W
  category_vocabulary w = elim p.list_categories [
    | none ↦ (none, w)
    | some list ↦ (vocabulary_of u (list w).0, (list w).1)
  ]

  -- `interrupted`: the context is asked once for the log and once for the error.
  unfoldable pub interrupted : ImportResult → W → Control × W
  interrupted r w =
      let logged = ctx.err w in
      let cause = ctx.err logged.1 in
      (return (record r { seen = r.seen - 1 }, some (wrap_nilable cause.0)), cause.1)

  -- A post whose extraction or storage failed: a failure, unless the run has been cancelled.
  unfoldable pub post_failed : ImportResult → W → Control × W
  unfolding interrupted
  post_failed r w =
      let cause = ctx.err w in
      elim cause.0 [
        | none ↦ (next (record r { failed = r.failed + 1 }), cause.1)
        | some e ↦ interrupted r cause.1
      ]

  unfoldable pub stored : ExtractedRecipe F → ImportResult → Option Error → W → Control × W
  unfolding post_failed
  stored ex r none w = (
    next (record r {
      imported = r.imported + 1;
      degraded = if ex.degraded then r.degraded + 1 else r.degraded;
    }),
    w,
  )
  stored ex r (some e) w =
      if errors_is e Sentinel.duplicate_source
      then (next (record r { skipped = r.skipped + 1 }), w)
      else post_failed r w

  unfoldable pub extracted :
      SavedPost → Option Vocabulary → ImportResult → Result (ExtractedRecipe F) → W → Control × W
  unfolding stored post_failed
  extracted post vocab r (err e) w =
      if errors_is e Sentinel.no_recipe
      then (next (record r { no_recipe = r.no_recipe + 1 }), w)
      else post_failed r w
  extracted post vocab r (ok ex) w =
      if fl.le ex.confidence fl.zero
      then (next (record r { no_recipe = r.no_recipe + 1 }), w)
      else let answer = p.create (to_recipe u fl p.thresholds post ex vocab) w in
        stored ex r answer.0 answer.1

  -- The body of the loop over the posts.
  unfoldable pub import_post : SavedPost → Option Vocabulary → ImportResult → W → Control × W
  unfolding extracted
  import_post post vocab r w =
      let cause = ctx.err w in
      elim cause.0 [
        | some e ↦ (return (r, some (wrap e)), cause.1)
        | none ↦
            let answer = p.extract post.caption cause.1 in
            extracted post vocab (record r { seen = r.seen + 1 }) answer.0 answer.1
      ]

  -- The loop, and what follows it: a fetch that failed part-way is reported at the end.
  unfoldable pub import_posts :
      Option Error → Option Vocabulary → List SavedPost → ImportResult → W → Outcome × W
  import_posts fetch_err vocab [] r w = elim fetch_err [
    | none ↦ ((r, none), w)
    | some e ↦ ((r, some (wrap2 (sentinel Sentinel.fetch) e)), w)
  ]
  import_posts fetch_err vocab (post ∷ posts) r w =
      let step = import_post post vocab r w in
      elim step.0 [
        | next r' ↦ import_posts fetch_err vocab posts r' step.1
        | return o ↦ (o, step.1)
      ]

  unfoldable pub fetched : List SavedPost → Option Error → W → Outcome × W
  unfolding import_posts category_vocabulary
  fetched [] (some e) w = ((zero_result, some (wrap2 (sentinel Sentinel.fetch) e)), w)
  fetched posts fetch_err w =
      let vocab = category_vocabulary w in import_posts fetch_err vocab.0 posts zero_result vocab.1

  -- `Run` once the lock is held, or without one.
  unfoldable pub run_unlocked : W → Outcome × W
  unfolding fetched
  run_unlocked w = let posts = p.fetch_new_posts w in fetched posts.0.0 posts.0.1 posts.1

  unfoldable pub run_locked : ImportLock W → Acquired → W → Outcome × W
  unfolding run_unlocked
  run_locked lock taken w = let done = run_unlocked w in (done.0, lock.release done.1)
  run_locked lock held_elsewhere w = ((zero_result, some (sentinel Sentinel.import_in_progress)), w)
  run_locked lock (unavailable e) w = ((zero_result, some (wrap e)), w)

  -- `Run`
  unfoldable pub run : W → Outcome × W
  unfolding run_locked run_unlocked
  run w = elim p.lock [
    | none ↦ run_unlocked w
    | some lock ↦ let answer = lock.try_acquire w in run_locked lock answer.0 answer.1
  ]
