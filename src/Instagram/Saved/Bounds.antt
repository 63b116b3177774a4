-- ===== src/Instagram/Saved/Bounds.antt =====
-- How many posts one walk returns.
use recipe_reader.Common.{
  ℕ, ◌≤◌, ◌<◌, ◌≡◌, refl, inl, inr, ◌&&◌, List, [], ◌∷◌, ltb, leb, ◌==◌, arith, Bool-cases,
  Option-cases, length, length-append,
}
use recipe_reader.Text.{Text, is_empty}
use recipe_reader.World.{Context}
use recipe_reader.Errors.{Error, Result, ok, err}
use recipe_reader.Instagram.Saved.Decode.{decode_saved_post}
use recipe_reader.Instagram.Saved.{
  FetchOptions, Feed, SavedFeedPage, Walk, walk_start, PageEnd, go_on, leave, fail, in_set,
  count_drop, take_post, item_limit, is_old, collect, advance, read_page, answered, fetch_page,
  report, page_media,
}
use recipe_reader.Instagram.Saved.Induction.{Result-cases, Ended, walk_induction}

count_drop_out : (e : Error) (k : Walk) → (count_drop e k).out ≡ k.out
unfolding count_drop
count_drop_out e k = ground arith

module _ {W Raw Response : Type 0} (ctx : Context W) (feed : Feed W Raw Response)
    (o : FetchOptions W) where
  abbrev Fits : Walk → Type 0
  Fits k = length k.out ≤ item_limit ctx feed o

  abbrev EndFits : PageEnd → Type 0
  EndFits (go_on k) = Fits k
  EndFits (leave k) = Fits k
  EndFits (fail k e) = Fits k

  collect-Fits :
      (raws : List Raw) (k : Walk) (w : W)
      → length k.out < item_limit ctx feed o
      → Fits (collect ctx feed o raws k w).0
  unfolding collect take_post
  collect-Fits [] k w h = omega arith
  collect-Fits (raw ∷ raws) k w h =
      elim (Result-cases (decode_saved_post (feed.unmarshal_item raw))) [
        | inr (e, q) ↦
            rw (q, collect) (collect-Fits raws (count_drop e k) w (rw (count_drop_out e k) h))
        | inl (post, q) ↦ elim (Bool-cases (is_old ctx feed o post k w).0) [
          | inl b ↦ rw (q, collect, b) (collect-Fits raws k _ h)
          | inr b ↦
              elim (Bool-cases (leb (item_limit ctx feed o) (length (take_post post k).out))) [
                | inl f ↦ rw (q, collect, b, f) (omega (arith, length-append k.out (post ∷ [])))
                | inr f ↦
                    rw (q, collect, b, f) (collect-Fits raws (take_post post k) _ (ground arith))
              ]
        ]
      ]

  advance-Fits : (next : Text) (k : Walk) → Fits k → EndFits (advance ctx feed o next k)
  unfolding advance
  advance-Fits next k h = elim (Bool-cases (is_empty next)) [
    | inl e ↦ rw e h
    | inr e ↦ elim (Bool-cases (in_set k.cursors next)) [
      | inl f ↦ rw (e, f) h
      | inr f ↦ rw (e, f) h
    ]
  ]

  read_page-Fits :
      (r : Result (SavedFeedPage Raw)) (k : Walk) (w : W)
      → length k.out < item_limit ctx feed o
      → EndFits (read_page ctx feed o r k w).0
  unfolding read_page
  read_page-Fits (err e) k w h = omega arith
  read_page-Fits (ok page) k w h = items page.items refl
    where
      items : (raws : List Raw) → page.items ≡ raws → EndFits (read_page ctx feed o (ok page) k w).0
      items [] q = rw (q, read_page) (omega arith)
      items (raw ∷ raws) q =
          rw (q, read_page) (advance-Fits page.next_max_id _ (collect-Fits (raw ∷ raws) k w h))

  answered-Fits :
      (r : Result Response) (k : Walk) (w : W)
      → length k.out < item_limit ctx feed o
      → EndFits (answered ctx feed o r k w).0
  unfolding answered
  answered-Fits (err e) k w h = omega arith
  answered-Fits (ok res) k w h = read_page-Fits _ k w h

  fetch_page-Fits :
      (endpoint : Text) (k : Walk) (w : W)
      → length k.out < item_limit ctx feed o
      → EndFits (fetch_page ctx feed o endpoint k w).0
  unfolding fetch_page
  fetch_page-Fits endpoint k w h = elim (Option-cases (ctx.err w).0) [
    | inl e ↦ rw (e, fetch_page) (answered-Fits _ k _ h)
    | inr (x, e) ↦ rw (e, fetch_page) (omega arith)
  ]

  report-le : (k : Walk) → Fits k → length (report ctx feed o k).0 ≤ item_limit ctx feed o
  unfolding report
  report-le k h = elim (Bool-cases (ltb 0 k.dropped && (length k.out == 0))) [
    | inl e ↦ rw e (omega arith)
    | inr e ↦ rw e h
  ]

  end-le :
      (c : PageEnd) (pages : ℕ) (w : W)
      → EndFits c
      → Ended ctx feed o (λ n k w'. Fits k) (λ r w'. length r.0 ≤ item_limit ctx feed o) pages c w
  end-le (go_on k) pages w h = h
  end-le (leave k) pages w h = report-le k h
  end-le (fail k e) pages w h = h

  -- However the walk ends, it returns at most as many posts as the options ask for.
  pub page_media_le :
      (endpoint : Text) (w : W)
      → length (page_media ctx feed o endpoint w).0.0 ≤ item_limit ctx feed o
  unfolding page_media
  page_media_le endpoint w =
      walk_induction ctx feed o endpoint (λ n k w'. Fits k)
        (λ r w'. length r.0 ≤ item_limit ctx feed o) (λ n k w' h. report-le k h)
        (λ n k w' h lt.
          end-le (fetch_page ctx feed o endpoint k w').0 n _ (fetch_page-Fits endpoint k w' lt))
        _ walk_start w (omega arith)
