-- ===== src/Instagram/Saved.antt =====
-- `pageMedia` with its decoding, internal/instagram/saved.go. The decoding of JSON by package
-- encoding/json and the requests are parameters; `cursors`, `collected` and the tally of drops are
-- the loop's variables. What is only logged is not modelled.
pub mod Decode
pub mod Induction
pub mod Bounds
pub mod Progress
pub mod Novelty
pub mod Drift
use recipe_reader.Common.{
  ℕ, zero, suc, ◌+◌, Bool, true, false, ◌&&◌, ◌||◌, List, [], ◌∷◌, ◌++◌, Option, none, some,
  if◌then◌else◌, ltb, leb, ◌==◌, length, ℤ, pos, negsuc,
}
use recipe_reader.Text.{Text, is_empty, text_eq}
use recipe_reader.World.{Context}
use recipe_reader.Errors.{Error, Result, ok, err, Sentinel, sentinel, errors_is, wrap, wrap2}
use recipe_reader.Instagram.Types.{SavedPost}
use Decode.{SavedFeedItem, decode_saved_post}

abbrev pub default_max_items : ℕ
default_max_items = 50

abbrev pub default_max_pages : ℕ
default_max_pages = 100

-- `withDefaults`, of one bound.
unfoldable pub or_default : ℕ → ℤ → ℕ
or_default d (pos n) = if n == 0 then d else n
or_default d (negsuc n) = d

-- `savedFeedPage`; an item is raw JSON of type `Raw`.
pub record SavedFeedPage (Raw : Type 0) : Type 0 where
  pub items : List Raw
  pub next_max_id : Text

-- `FetchOptions`
pub record FetchOptions (W : Type 0) : Type 0 where
  pub max_items : ℤ
  pub max_pages : ℤ
  pub known : Option (Text → W → Bool × W)

-- What the walk calls: one request with its endpoint and cursor, and the two uses of encoding/json.
pub record Feed (W Raw Response : Type 0) : Type 0 where
  pub request : Text → Text → W → Result Response × W
  pub unmarshal_page : Response → Result (SavedFeedPage Raw)
  pub unmarshal_item : Raw → Result SavedFeedItem

-- The variables of the loop. `dropReasons` has two keys, so it is two counts.
pub record Walk : Type 0 where
  pub out : List SavedPost
  pub dropped : ℕ
  pub no_code : ℕ
  pub undecodable : ℕ
  pub max_id : Text
  pub cursors : List Text
  pub collected : List Text

abbrev pub walk_start : Walk
walk_start = record {
  out = [];
  dropped = 0;
  no_code = 0;
  undecodable = 0;
  max_id = [];
  cursors = [];
  collected = [];
}

-- A Go map from texts to `true`.
unfoldable pub in_set : List Text → Text → Bool
in_set [] s = false
in_set (x ∷ xs) s = text_eq x s || in_set xs s

-- `dropped++` and `drops.count(err)`
unfoldable pub count_drop : Error → Walk → Walk
count_drop e k =
    if errors_is e Sentinel.no_media_code
    then record k { dropped = k.dropped + 1; no_code = k.no_code + 1 }
    else record k { dropped = k.dropped + 1; undecodable = k.undecodable + 1 }

unfoldable pub take_post : SavedPost → Walk → Walk
take_post post k = record k { collected = post.source ∷ k.collected; out = k.out ++ post ∷ [] }

-- How one page ends: on to the next one, out of the loop, or out of the function.
pub data PageEnd : Type 0 where
  go_on leave : Walk → PageEnd
  fail : Walk → Error → PageEnd

module _ {W Raw Response : Type 0} (ctx : Context W) (feed : Feed W Raw Response)
    (o : FetchOptions W) where
  abbrev pub item_limit : ℕ
  item_limit = or_default default_max_items o.max_items

  abbrev pub page_limit : ℕ
  page_limit = or_default default_max_pages o.max_pages

  -- `isKnown`
  unfoldable pub is_known : Text → W → Bool × W
  is_known source w = elim o.known [ none ↦ (false, w) | some known ↦ known source w ]

  -- `collected[post.Source] || opts.isKnown(ctx, post.Source)`
  unfoldable pub is_old : SavedPost → Walk → W → Bool × W
  unfolding is_known in_set
  is_old post k w = if in_set k.collected post.source then (true, w) else is_known post.source w

  -- The loop over the items of a page.
  unfoldable pub collect : List Raw → Walk → W → Walk × W
  collect [] k w = (k, w)
  collect (raw ∷ raws) k w = elim (decode_saved_post (feed.unmarshal_item raw)) [
    | err e ↦ collect raws (count_drop e k) w
    | ok post ↦
        let old = is_old post k w in
        elim old.0 [
          | true ↦ collect raws k old.1
          | false ↦
              let k' = take_post post k in
              elim (leb item_limit (length k'.out)) [
                | true ↦ (k', old.1)
                | false ↦ collect raws k' old.1
              ]
        ]
  ]

  -- The end of the loop's body: the cursor, and the guard against a repeated one.
  unfoldable pub advance : Text → Walk → PageEnd
  unfolding in_set
  advance next k =
      if is_empty next
      then leave k
      else if in_set k.cursors next
      then leave k
      else go_on (record k { cursors = next ∷ k.cursors; max_id = next })

  unfoldable pub read_page : Result (SavedFeedPage Raw) → Walk → W → PageEnd × W
  unfolding advance
  read_page (err e) k w = (fail k (wrap (wrap2 (sentinel Sentinel.schema_drift) e)), w)
  read_page (ok page) k w = elim page.items [
    | [] ↦ (leave k, w)
    | raw ∷ raws ↦ let done = collect (raw ∷ raws) k w in (advance page.next_max_id done.0, done.1)
  ]

  unfoldable pub answered : Result Response → Walk → W → PageEnd × W
  unfolding read_page
  answered (err e) k w = (fail k (wrap e), w)
  answered (ok res) k w = read_page (feed.unmarshal_page res) k w

  -- The loop's body.
  unfoldable pub fetch_page : Text → Walk → W → PageEnd × W
  unfolding answered
  fetch_page endpoint k w =
      let cause = ctx.err w in
      elim cause.0 [
        | some e ↦ (fail k (wrap e), cause.1)
        | none ↦ let res = feed.request endpoint k.max_id cause.1 in answered res.0 k res.1
      ]

  -- What follows the loop: posts and an error, which may both be there.
  unfoldable pub report : Walk → List SavedPost × Option Error
  report k =
      if ltb 0 k.dropped && (length k.out == 0)
      then ([], some (wrap (sentinel Sentinel.schema_drift)))
      else (k.out, none)

  -- The loop, with the pages that are left.
  unfoldable pub walk : Text → ℕ → Walk → W → (List SavedPost × Option Error) × W
  unfolding report
  walk endpoint zero k w = (report k, w)
  walk endpoint (suc pages) k w = elim (ltb (length k.out) item_limit) [
    | false ↦ (report k, w)
    | true ↦
        let step = fetch_page endpoint k w in
        elim step.0 [
          | go_on k' ↦ walk endpoint pages k' step.1
          | leave k' ↦ (report k', step.1)
          | fail k' e ↦ ((k'.out, some e), step.1)
        ]
  ]

  -- `pageMedia`
  unfoldable pub page_media : Text → W → (List SavedPost × Option Error) × W
  unfolding walk or_default
  page_media endpoint w = walk endpoint page_limit walk_start w
