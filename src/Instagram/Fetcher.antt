-- ===== src/Instagram/Fetcher.antt =====
-- `PipelineFetcher`, internal/instagram/fetcher_adapter.go: which posts a run fetches, and the
-- cached id of the collection. The fields under the mutex are a record; times are nanoseconds
-- since Go's zero time, which is 0.
pub mod Cache
use recipe_reader.Common.{
  ℕ, ◌+◌, ◌-◌, ◌*◌, ◌<◌, ◌≡◌, refl, ◌⊎◌, inl, inr, Bool, true, false, ◌&&◌, ◌||◌, not, List, [],
  ◌∷◌, Option, none, some, if◌then◌else◌, ltb, Bool-cases, Option-cases, arith, lt→ltb,
}
use recipe_reader.Text.{Text, is_empty, text_eq}
use recipe_reader.Text.Equality.{text_eq_refl}
use recipe_reader.Errors.{Error, Result, Result-cases, ok, err, Sentinel, errors_is}
use recipe_reader.Instagram.Types.{SavedPost}

-- 24 hours
abbrev pub collection_id_max_age : ℕ
collection_id_max_age = 24 * 60 * 60 * 1_000_000_000

pub record PipelineFetcher : Type 0 where
  pub collection_name : Text
  pub collection_id : Text
  pub resolved_at : ℕ

-- The client's operations that the adapter calls, on the run's options, and the clock.
pub record Source (W : Type 0) : Type 0 where
  pub fetch_saved : W → (List SavedPost × Option Error) × W
  pub fetch_collection : Text → W → (List SavedPost × Option Error) × W
  pub resolve : Text → W → Result Text × W
  pub clock : W → ℕ × W

-- `saysNothingAboutTheCollection`
unfoldable pub says_nothing_about_the_collection : Error → Bool
says_nothing_about_the_collection e =
    errors_is e Sentinel.rate_limited
    || errors_is e Sentinel.reauth_required
    || errors_is e Sentinel.canceled
    || errors_is e Sentinel.deadline_exceeded

-- `forgetCollectionID`
unfoldable pub forget_collection_id : Text → PipelineFetcher → PipelineFetcher
forget_collection_id id f =
    if text_eq f.collection_id id then record f { collection_id = []; resolved_at = 0 } else f

module _ {W : Type 0} (source : Source W) where
  -- What is kept of an answer to the lookup of the name.
  unfoldable pub remember : Result Text → PipelineFetcher → W → (Result Text × PipelineFetcher) × W
  remember (err e) f w = ((err e, f), w)
  remember (ok id) f w =
      let now = source.clock w in
      ((ok id, record f { collection_id = id; resolved_at = now.0 }), now.1)

  -- `resolveCollectionID` past the cache.
  unfoldable pub look_up : PipelineFetcher → W → (Result Text × PipelineFetcher) × W
  look_up f w = let answer = source.resolve f.collection_name w in remember answer.0 f answer.1

  -- `resolveCollectionID`
  unfoldable pub resolve_collection_id : PipelineFetcher → W → (Result Text × PipelineFetcher) × W
  resolve_collection_id f w =
      if is_empty f.collection_id
      then look_up f w
      else let now = source.clock w in
        if ltb (now.0 - f.resolved_at) collection_id_max_age
        then ((ok f.collection_id, f), now.1)
        else look_up f now.1

  -- What is kept of a fetch of the collection with this id.
  unfoldable pub keep_or_forget : Text → Option Error → PipelineFetcher → PipelineFetcher
  keep_or_forget id none f = f
  keep_or_forget id (some e) f =
      if says_nothing_about_the_collection e then f else forget_collection_id id f

  -- `FetchNewPosts` once the id is known, or not to be had.
  unfoldable pub fetch_resolved :
      Result Text → PipelineFetcher → W → ((List SavedPost × Option Error) × PipelineFetcher) × W
  fetch_resolved (err e) f w = ((([], some e), f), w)
  fetch_resolved (ok id) f w =
      let answer = source.fetch_collection id w in
      ((answer.0, keep_or_forget id answer.0.1 f), answer.1)

  -- `FetchNewPosts`
  unfoldable pub fetch_new_posts :
      PipelineFetcher → W → ((List SavedPost × Option Error) × PipelineFetcher) × W
  fetch_new_posts f w =
      if is_empty f.collection_name
      then (let answer = source.fetch_saved w in ((answer.0, f), answer.1))
      else let resolved = resolve_collection_id f w in
        fetch_resolved resolved.0.0 resolved.0.1 resolved.1
