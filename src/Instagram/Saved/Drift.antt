-- ===== src/Instagram/Saved/Drift.antt =====
-- A feed whose items cannot be read is an error.
use recipe_reader.Common.{
  ℕ, zero, suc, ◌+◌, ◌≤◌, ◌<◌, ◌≡◌, refl, ◌∙◌, inl, inr, List, [], ◌∷◌, Option, none, some, ltb,
  arith, Bool-cases, lt→ltb, ℤ, pos, negsuc,
}
use recipe_reader.Text.{Text, is_empty}
use recipe_reader.World.{Context}
use recipe_reader.Errors.{Error, ok, err}
use recipe_reader.Instagram.Types.{SavedPost}
use recipe_reader.Instagram.Saved.Decode.{decode_saved_post}
use recipe_reader.Instagram.Saved.{
  FetchOptions, Feed, SavedFeedPage, Walk, walk_start, PageEnd, go_on, leave, fail, in_set,
  count_drop, item_limit, page_limit, collect, advance, read_page, answered, fetch_page, report,
  walk, page_media, or_default,
}
use recipe_reader.Instagram.Saved.Induction.{
  Ended, walk_induction, collect_induction, fetch_page_cases,
}

count_drop_counts :
    (e : Error) (k : Walk)
    → ((count_drop e k).out ≡ k.out)
      × ((count_drop e k).dropped ≡ k.dropped + 1)
      × ((count_drop e k).no_code + (count_drop e k).undecodable ≡ k.no_code + k.undecodable + 1)
unfolding count_drop
count_drop_counts e k = ground arith

-- No post, and an error.
abbrev pub Failed : List SavedPost × Option Error → Type 0
Failed r = (r.0 ≡ []) × ((e : Error) × (r.1 ≡ some e))

-- The first request is answered by a page with at least one item.
pub record Offers {W Raw Response : Type 0} (ctx : Context W) (feed : Feed W Raw Response)
    (endpoint : Text) (w : W) : Type 0 where
  pub response : Response
  pub page : SavedFeedPage Raw
  pub raw : Raw
  pub raws : List Raw
  pub running : (ctx.err w).0 ≡ none
  pub answered : (feed.request endpoint [] (ctx.err w).1).0 ≡ ok response
  pub decoded : feed.unmarshal_page response ≡ ok page
  pub items : page.items ≡ raw ∷ raws

module _ {W Raw Response : Type 0} (ctx : Context W) (feed : Feed W Raw Response)
    (o : FetchOptions W)
    (unreadable : (raw : Raw)
      → (e : Error) × (decode_saved_post (feed.unmarshal_item raw) ≡ err e)) where
  -- Nothing has been taken, and at least `n` items have been dropped.
  abbrev Dropping : ℕ → Walk → Type 0
  Dropping n k = (k.out ≡ []) × (n ≤ k.dropped)

  collect-Dropping :
      (n : ℕ) (raws : List Raw) (k : Walk) (w : W)
      → Dropping n k
      → Dropping n (collect ctx feed o raws k w).0
  collect-Dropping n raws k w h =
      collect_induction ctx feed o (λ k' w'. Dropping n k')
        (λ raw e k' w' q d. let c = count_drop_counts e k' in (c.0 ∙ d.0, omega (arith, c.1)))
        (λ post k' w' b d. d) (λ raw post k' w' q b d. absurd (cc (q, (unreadable raw).1))) raws k w
        h

  collect_first :
      (raw : Raw) (raws : List Raw) (k : Walk) (w : W)
      → Dropping 0 k
      → Dropping 1 (collect ctx feed o (raw ∷ raws) k w).0
  unfolding collect
  collect_first raw raws k w h =
      let bad = unreadable raw in
      let c = count_drop_counts bad.0 k in
      rw (bad.1, collect)
        (collect-Dropping 1 raws (count_drop bad.0 k) w (c.0 ∙ h.0, omega (arith, c.1)))

  report-Failed : (k : Walk) → Dropping 1 k → Failed (report ctx feed o k)
  unfolding report
  report-Failed k h = rw h.0 (elim (Bool-cases (ltb 0 k.dropped)) [
    | inl e ↦ rw e (refl, (_, refl))
    | inr e ↦ absurd (ground arith)
  ])

  -- The pages walked so far were empty of items, or an item has been dropped.
  abbrev DropEnd : ℕ → PageEnd → W → Type 0
  DropEnd n = Ended ctx feed o (λ m k w. Dropping 1 k) (λ r w. Failed r) n

  advance-Dropping :
      (n : ℕ) (next : Text) (k : Walk) (w : W)
      → Dropping 1 k
      → DropEnd n (advance ctx feed o next k) w
  unfolding advance
  advance-Dropping n next k w h = elim (Bool-cases (is_empty next)) [
    | inl e ↦ rw e (report-Failed k h)
    | inr e ↦ elim (Bool-cases (in_set k.cursors next)) [
      | inl f ↦ rw (e, f) (report-Failed k h)
      | inr f ↦ rw (e, f) h
    ]
  ]

  later_page :
      (n : ℕ) (endpoint : Text) (k : Walk) (w : W)
      → Dropping 1 k
      → DropEnd n (fetch_page ctx feed o endpoint k w).0 (fetch_page ctx feed o endpoint k w).1
  later_page n endpoint k w h =
      fetch_page_cases ctx feed o endpoint k w (DropEnd n) (λ e. (h.0, (e, refl)))
        (λ e. (h.0, (e, refl))) (report-Failed k h)
        (λ raw raws next. advance-Dropping n next _ _ (collect-Dropping 1 (raw ∷ raws) k _ h))

  first_page :
      (n : ℕ) (endpoint : Text) (w : W)
      → Offers ctx feed endpoint w
      → DropEnd n
          (fetch_page ctx feed o endpoint walk_start w).0
          (fetch_page ctx feed o endpoint walk_start w).1
  unfolding fetch_page answered read_page
  first_page n endpoint w f =
      rw (f.running, fetch_page, f.answered, f.decoded, f.items, read_page)
        (advance-Dropping n f.page.next_max_id _ _
          (collect_first f.raw f.raws walk_start _ (refl, omega arith)))

  or_default_pos : (d : ℕ) (n : ℤ) → 0 < d → 0 < or_default d n
  unfolding or_default
  or_default_pos d (pos n) h = ground arith
  or_default_pos d (negsuc n) h = h

  walk_first :
      (n : ℕ) (endpoint : Text) (w : W)
      → 0 < n
      → 0 < item_limit ctx feed o
      → Offers ctx feed endpoint w
      → Failed (walk ctx feed o endpoint n walk_start w).0
  unfolding walk
  walk_first zero endpoint w h i f = absurd (omega arith)
  walk_first (suc n) endpoint w h i f =
      after (fetch_page ctx feed o endpoint walk_start w).0 refl (first_page n endpoint w f)
    where
      after :
          (c : PageEnd)
          → (fetch_page ctx feed o endpoint walk_start w).0 ≡ c
          → DropEnd n c (fetch_page ctx feed o endpoint walk_start w).1
          → Failed (walk ctx feed o endpoint (suc n) walk_start w).0
      after (go_on k) q d =
          rw (lt→ltb _ _ i, walk, q)
            (walk_induction ctx feed o endpoint (λ m k' w'. Dropping 1 k') (λ r w'. Failed r)
              (λ m k' w' d'. report-Failed k' d') (λ m k' w' d' lt. later_page m endpoint k' w' d')
              n k _ d)
      after (leave k) q d = rw (lt→ltb _ _ i, walk, q) d
      after (fail k e) q d = rw (lt→ltb _ _ i, walk, q) d

  -- If no item of the feed can be read and its first page has any, the walk returns no post and an
  -- error: a changed response shape never reads as an empty success.
  pub page_media-Failed :
      (endpoint : Text) (w : W)
      → Offers ctx feed endpoint w
      → Failed (page_media ctx feed o endpoint w).0
  unfolding page_media
  page_media-Failed endpoint w f =
      walk_first (page_limit ctx feed o) endpoint w (or_default_pos _ o.max_pages (omega arith))
        (or_default_pos _ o.max_items (omega arith)) f
