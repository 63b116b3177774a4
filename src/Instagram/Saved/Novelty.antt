-- ===== src/Instagram/Saved/Novelty.antt =====
-- Which posts one walk returns: each once, and none that is known.
use recipe_reader.Common.{
  ℕ, ◌≡◌, refl, sym, ap, ◌∙◌, inl, inr, Bool, false, ◌&&◌, List, [], ◌∷◌, ◌++◌, map, some, ltb,
  ◌==◌, arith, Bool-cases, All, length,
}
use recipe_reader.Text.{Text, is_empty, text_eq}
use recipe_reader.Text.Equality.{text_eq_iff}
use recipe_reader.World.{Context}
use recipe_reader.Errors.{Error}
use recipe_reader.Instagram.Types.{SavedPost}
use recipe_reader.Instagram.Saved.{
  FetchOptions, Feed, Walk, walk_start, in_set, count_drop, take_post, is_known, is_old, collect,
  advance, report, page_media,
}
use recipe_reader.Instagram.Saved.Induction.{
  Ended, walk_induction, collect_induction, fetch_page_cases,
}
use recipe_reader.Instagram.Saved.Progress.{IsDistinct, in_set-append}

count_drop_posts :
    (e : Error) (k : Walk)
    → ((count_drop e k).out ≡ k.out) × ((count_drop e k).collected ≡ k.collected)
unfolding count_drop
count_drop_posts e k = ground arith

abbrev pub sources : List SavedPost → List Text
sources posts = map (λ p. p.source) posts

sources-append :
    (posts : List SavedPost) (post : SavedPost)
    → sources (posts ++ post ∷ []) ≡ sources posts ++ post.source ∷ []
sources-append [] post = refl
sources-append (p ∷ posts) post = ap (λ (l : List Text). p.source ∷ l) (sources-append posts post)

text_eq-sym : (s t : Text) → text_eq s t ≡ text_eq t s
text_eq-sym s t = ground (arith, text_eq_iff s t, text_eq_iff t s)

IsDistinct-append :
    (xs : List Text) (y : Text) → IsDistinct xs → in_set xs y ≡ false → IsDistinct (xs ++ y ∷ [])
unfolding in_set
IsDistinct-append [] y d h = (refl, tt)
IsDistinct-append (x ∷ xs) y d h = (
  rw (in_set-append xs y x) (ground (arith, text_eq-sym x y)),
  IsDistinct-append xs y d.1 (ground arith),
)

All-snoc :
    (P : SavedPost → Type 0) (ps : List SavedPost) (p : SavedPost)
    → All P ps
    → P p
    → All P (ps ++ p ∷ [])
All-snoc P [] p h x = (x, tt)
All-snoc P (q ∷ ps) p h x = (h.0, All-snoc P ps p h.1 x)

-- The posts are new, and each stands once.
pub record IsNew (stored : Text → Bool) (posts : List SavedPost) : Type 0 where
  pub distinct : IsDistinct (sources posts)
  pub unknown : All (λ (p : SavedPost). stored p.source ≡ false) posts

module _ {W Raw Response : Type 0} (ctx : Context W) (feed : Feed W Raw Response)
    (o : FetchOptions W) (stored : Text → Bool)
    (stable : (known : Text → W → Bool × W)
      → o.known ≡ some known
      → (s : Text) (w : W) → (known s w).0 ≡ stored s)
    (asks : (known : Text → W → Bool × W) × (o.known ≡ some known)) where
  record Collecting (k : Walk) : Type 0 where
    new : IsNew stored k.out
    recorded : (s : Text) → in_set k.collected s ≡ in_set (sources k.out) s

  is_known_lem : (s : Text) (w : W) → (is_known ctx feed o s w).0 ≡ stored s
  unfolding is_known
  is_known_lem s w = rw (asks.1, is_known) (stable asks.0 asks.1 s w)

  is_old-false :
      (post : SavedPost) (k : Walk) (w : W)
      → (is_old ctx feed o post k w).0 ≡ false
      → (in_set k.collected post.source ≡ false) × (stored post.source ≡ false)
  unfolding is_old
  is_old-false post k w h = elim (Bool-cases (in_set k.collected post.source)) [
    | inl e ↦ cc (rw e at h)
    | inr e ↦ (e, sym (is_known_lem post.source w) ∙ (rw e at h))
  ]

  take_post-Collecting :
      (post : SavedPost) (k : Walk)
      → in_set k.collected post.source ≡ false
      → stored post.source ≡ false
      → Collecting k
      → Collecting (take_post post k)
  unfolding take_post
  take_post-Collecting post k fresh unknown c = record {
    new = record {
      distinct =
          rw (sources-append k.out post)
            (IsDistinct-append _ post.source c.new.distinct (sym (c.recorded post.source) ∙ fresh));
      unknown = All-snoc _ k.out post c.new.unknown unknown;
    };
    recorded = λ s.
        rw (sources-append k.out post, in_set-append (sources k.out) post.source s)
          (unfold in_set in ground (arith, c.recorded s));
  }

  collect-Collecting :
      (raws : List Raw) (k : Walk) (w : W)
      → Collecting k
      → Collecting (collect ctx feed o raws k w).0
  collect-Collecting raws k w c =
      collect_induction ctx feed o (λ k' w'. Collecting k')
        (λ raw e k' w' q h.
          let d = count_drop_posts e k' in
          record { new = rw d.0 h.new; recorded = λ s. rw (d.0, d.1) (h.recorded s) })
        (λ post k' w' b h. h)
        (λ raw post k' w' q b h.
          let f = is_old-false post k' w' b in take_post-Collecting post k' f.0 f.1 h)
        raws k w c

  report-IsNew : (k : Walk) → Collecting k → IsNew stored (report ctx feed o k).0
  unfolding report
  report-IsNew k c = elim (Bool-cases (ltb 0 k.dropped && (length k.out == 0))) [
    | inl e ↦ rw e (record { distinct = tt; unknown = tt })
    | inr e ↦ rw e c.new
  ]

  advance-Collecting :
      (n : ℕ) (next : Text) (k : Walk) (w : W)
      → Collecting k
      → Ended ctx feed o
          (λ m k' w'. Collecting k')
          (λ r w'. IsNew stored r.0)
          n
          (advance ctx feed o next k)
          w
  unfolding advance
  advance-Collecting n next k w c = elim (Bool-cases (is_empty next)) [
    | inl e ↦ rw e (report-IsNew k c)
    | inr e ↦ elim (Bool-cases (in_set k.cursors next)) [
      | inl f ↦ rw (e, f) (report-IsNew k c)
      | inr f ↦ rw (e, f) (record { new = c.new; recorded = c.recorded })
    ]
  ]

  -- If Known answers by a fixed set of stored sources, the posts that a walk returns, also beside
  -- an error, are not stored, and no source is returned twice, however often the feed repeats it.
  pub page_media-IsNew :
      (endpoint : Text) (w : W) → IsNew stored (page_media ctx feed o endpoint w).0.0
  unfolding page_media
  page_media-IsNew endpoint w =
      walk_induction ctx feed o endpoint (λ m k w'. Collecting k) (λ r w'. IsNew stored r.0)
        (λ n k w' c. report-IsNew k c)
        (λ n k w' c lt.
          fetch_page_cases ctx feed o endpoint k w'
            (Ended ctx feed o (λ m k' w''. Collecting k') (λ r w''. IsNew stored r.0) n)
            (λ e. c.new) (λ e. c.new) (report-IsNew k c)
            (λ raw raws next.
              advance-Collecting n next _ _ (collect-Collecting (raw ∷ raws) k _ c)))
        _ walk_start w
        (record { new = record { distinct = tt; unknown = tt }; recorded = λ s. refl })
