-- ===== src/Instagram/Saved/Induction.antt =====
-- Induction over the loop of `pageMedia`.
use recipe_reader.Common.{
  ℕ, zero, suc, ◌<◌, ◌≡◌, refl, ◌⊎◌, inl, inr, true, false, List, [], ◌∷◌, Option, some, ltb, leb,
  Bool-cases, Option-cases, length, ltb→lt,
}
use recipe_reader.Text.{Text}
use recipe_reader.World.{Context}
use recipe_reader.Errors.{Error, Result, ok, err, Sentinel, sentinel, wrap, wrap2}
use recipe_reader.Instagram.Types.{SavedPost}
use recipe_reader.Instagram.Saved.Decode.{decode_saved_post}
use recipe_reader.Instagram.Saved.{
  FetchOptions, Feed, SavedFeedPage, Walk, PageEnd, go_on, leave, fail, count_drop, take_post,
  item_limit, is_old, collect, advance, read_page, answered, fetch_page, report, walk,
}

pub Result-cases {ℓ} :
    {A : Type ℓ} (r : Result A) → ((a : A) × (r ≡ ok a)) ⊎ ((e : Error) × (r ≡ err e))
Result-cases (ok a) = inl (a, refl)
Result-cases (err e) = inr (e, refl)

module _ {W Raw Response : Type 0} (ctx : Context W) (feed : Feed W Raw Response)
    (o : FetchOptions W) where
  -- What has to hold after one page: the invariant `P` for the pages that are left, or the
  -- postcondition `R` of what is returned.
  abbrev pub Ended :
      (ℕ → Walk → W → Type 0)
      → (List SavedPost × Option Error → W → Type 0)
      → ℕ
      → PageEnd
      → W
      → Type 0
  Ended P R n (go_on k) w = P n k w
  Ended P R n (leave k) w = R (report ctx feed o k) w
  Ended P R n (fail k e) w = R (k.out, some e) w

  module _ (endpoint : Text) (P : ℕ → Walk → W → Type 0)
      (R : List SavedPost × Option Error → W → Type 0)
      (finish : (n : ℕ) (k : Walk) (w : W) → P n k w → R (report ctx feed o k) w)
      (page : (n : ℕ) (k : Walk) (w : W)
        → P (suc n) k w
        → length k.out < item_limit ctx feed o
        → Ended P R n
            (fetch_page ctx feed o endpoint k w).0
            (fetch_page ctx feed o endpoint k w).1) where
    after_page :
        (n : ℕ) (k : Walk) (w : W) (c : PageEnd)
        → (fetch_page ctx feed o endpoint k w).0 ≡ c
        → ltb (length k.out) (item_limit ctx feed o) ≡ true
        → Ended P R n c (fetch_page ctx feed o endpoint k w).1
        → ((k' : Walk) (w' : W)
            → P n k' w'
            → R (walk ctx feed o endpoint n k' w').0 (walk ctx feed o endpoint n k' w').1)
        → R (walk ctx feed o endpoint (suc n) k w).0 (walk ctx feed o endpoint (suc n) k w).1
    unfolding walk
    after_page n k w (go_on k') q e h rest = rw (e, walk, q) (rest k' _ h)
    after_page n k w (leave k') q e h rest = rw (e, walk, q) h
    after_page n k w (fail k' x) q e h rest = rw (e, walk, q) h

    pub walk_induction :
        (n : ℕ) (k : Walk) (w : W)
        → P n k w
        → R (walk ctx feed o endpoint n k w).0 (walk ctx feed o endpoint n k w).1
    unfolding walk
    walk_induction zero k w h = finish zero k w h
    walk_induction (suc n) k w h = elim (Bool-cases (ltb (length k.out) (item_limit ctx feed o))) [
      | inr e ↦ rw (e, walk) (finish (suc n) k w h)
      | inl e ↦
          after_page n k w (fetch_page ctx feed o endpoint k w).0 refl e
            (page n k w h (ltb→lt _ _ e)) (λ k' w' h'. walk_induction n k' w' h')
    ]

  module _ (C : Walk → W → Type 0)
      (dropping : (raw : Raw) (e : Error) (k : Walk) (w : W)
        → decode_saved_post (feed.unmarshal_item raw) ≡ err e
        → C k w
        → C (count_drop e k) w)
      (skipping : (post : SavedPost) (k : Walk) (w : W)
        → (is_old ctx feed o post k w).0 ≡ true
        → C k w
        → C k (is_old ctx feed o post k w).1)
      (taking : (raw : Raw) (post : SavedPost) (k : Walk) (w : W)
        → decode_saved_post (feed.unmarshal_item raw) ≡ ok post
        → (is_old ctx feed o post k w).0 ≡ false
        → C k w
        → C (take_post post k) (is_old ctx feed o post k w).1) where
    -- What each item keeps, the loop over the items keeps.
    pub collect_induction :
        (raws : List Raw) (k : Walk) (w : W)
        → C k w
        → C (collect ctx feed o raws k w).0 (collect ctx feed o raws k w).1
    unfolding collect
    collect_induction [] k w h = h
    collect_induction (raw ∷ raws) k w h =
        elim (Result-cases (decode_saved_post (feed.unmarshal_item raw))) [
          | inr (e, q) ↦
              rw (q, collect) (collect_induction raws (count_drop e k) w (dropping raw e k w q h))
          | inl (post, q) ↦ elim (Bool-cases (is_old ctx feed o post k w).0) [
            | inl b ↦ rw (q, collect, b) (collect_induction raws k _ (skipping post k w b h))
            | inr b ↦
                let h' = taking raw post k w q b h in
                elim (Bool-cases (leb (item_limit ctx feed o) (length (take_post post k).out))) [
                  | inl f ↦ rw (q, collect, b, f) h'
                  | inr f ↦ rw (q, collect, b, f) (collect_induction raws (take_post post k) _ h')
                ]
          ]
        ]

  -- The world when the request of a page has been answered.
  abbrev pub asked : Text → Walk → W → W
  asked endpoint k w = (feed.request endpoint k.max_id (ctx.err w).1).1

  module _ (endpoint : Text) (k : Walk) (w : W) (E : PageEnd → W → Type 0) where
    read_page_cases :
        (r : Result (SavedFeedPage Raw)) (w' : W)
        → ((e : Error) → E (fail k e) w')
        → E (leave k) w'
        → ((raw : Raw) (raws : List Raw) (next : Text)
            → E
                (advance ctx feed o next (collect ctx feed o (raw ∷ raws) k w').0)
                (collect ctx feed o (raw ∷ raws) k w').1)
        → E (read_page ctx feed o r k w').0 (read_page ctx feed o r k w').1
    unfolding read_page
    read_page_cases (err e) w' bad empty full =
        bad (wrap (wrap2 (sentinel Sentinel.schema_drift) e))
    read_page_cases (ok page) w' bad empty full = items page.items refl
      where
        items :
            (raws : List Raw)
            → page.items ≡ raws
            → E (read_page ctx feed o (ok page) k w').0 (read_page ctx feed o (ok page) k w').1
        items [] q = rw (q, read_page) empty
        items (raw ∷ raws) q = rw (q, read_page) (full raw raws page.next_max_id)

    answered_cases :
        (r : Result Response) (w' : W)
        → ((e : Error) → E (fail k e) w')
        → E (leave k) w'
        → ((raw : Raw) (raws : List Raw) (next : Text)
            → E
                (advance ctx feed o next (collect ctx feed o (raw ∷ raws) k w').0)
                (collect ctx feed o (raw ∷ raws) k w').1)
        → E (answered ctx feed o r k w').0 (answered ctx feed o r k w').1
    unfolding answered
    answered_cases (err e) w' bad empty full = bad (wrap e)
    answered_cases (ok res) w' bad empty full =
        read_page_cases (feed.unmarshal_page res) w' bad empty full

    -- The ways in which a page can end: cancelled before the request, failed or empty after it, or
    -- with its items collected.
    pub fetch_page_cases :
        ((e : Error) → E (fail k e) (ctx.err w).1)
        → ((e : Error) → E (fail k e) (asked endpoint k w))
        → E (leave k) (asked endpoint k w)
        → ((raw : Raw) (raws : List Raw) (next : Text)
            → E
                (advance ctx feed o next (collect ctx feed o (raw ∷ raws) k (asked endpoint k w)).0)
                (collect ctx feed o (raw ∷ raws) k (asked endpoint k w)).1)
        → E (fetch_page ctx feed o endpoint k w).0 (fetch_page ctx feed o endpoint k w).1
    unfolding fetch_page
    fetch_page_cases cancelled bad empty full = elim (Option-cases (ctx.err w).0) [
      | inl e ↦ rw (e, fetch_page) (answered_cases _ (asked endpoint k w) bad empty full)
      | inr (x, e) ↦ rw (e, fetch_page) (cancelled (wrap x))
    ]
