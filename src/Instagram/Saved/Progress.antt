-- ===== src/Instagram/Saved/Progress.antt =====
-- Which requests one walk sends: no cursor twice, and no more requests than pages.
use recipe_reader.Common.{
  ℕ, suc, ◌+◌, ◌≤◌, ◌≡◌, refl, sym, ap, ◌∙◌, inl, inr, Bool, false, ◌||◌, List, [], ◌∷◌, ◌++◌, some,
  arith, Bool-cases, Option-cases, length,
}
use recipe_reader.Text.{Text, is_empty, text_eq}
use recipe_reader.World.{Context}
use recipe_reader.Errors.{Error}
use recipe_reader.Instagram.Types.{SavedPost}
use recipe_reader.Instagram.Saved.{
  FetchOptions, Feed, Walk, walk_start, PageEnd, in_set, count_drop, take_post, page_limit,
  is_known, is_old, collect, advance, page_media,
}
use recipe_reader.Instagram.Saved.Induction.{
  Ended, walk_induction, collect_induction, fetch_page_cases, asked,
}

-- No text stands twice.
abbrev pub IsDistinct : List Text → Type 0
IsDistinct [] = Unit
IsDistinct (x ∷ xs) = (in_set xs x ≡ false) × IsDistinct xs

pub in_set-append :
    (xs : List Text) (y s : Text) → in_set (xs ++ y ∷ []) s ≡ in_set xs s || text_eq y s
unfolding in_set
in_set-append [] y s = ground arith
in_set-append (x ∷ xs) y s = ground (arith, in_set-append xs y s)

text_eq-empty : (s : Text) → is_empty s ≡ false → text_eq [] s ≡ false
text_eq-empty [] h = cc
text_eq-empty (c ∷ s) h = refl

count_drop_cursors :
    (e : Error) (k : Walk)
    → ((count_drop e k).max_id ≡ k.max_id) × ((count_drop e k).cursors ≡ k.cursors)
unfolding count_drop
count_drop_cursors e k = ground arith

-- At most `limit` cursors were sent on top of `old`, and no two of them are one.
pub record Sent (limit : ℕ) (old now : List Text) : Type 0 where
  pub new : List Text
  pub split : now ≡ new ++ old
  pub pages : length new ≤ limit
  pub distinct : IsDistinct new

-- The log of the cursors that the requester is called with, latest first: no other call adds any.
pub record SendLaws {W Raw Response : Type 0} (ctx : Context W) (feed : Feed W Raw Response)
    (o : FetchOptions W) (sent : W → List Text) : Type 0 where
  pub at_request : (endpoint m : Text) (w : W) → sent (feed.request endpoint m w).1 ≡ m ∷ sent w
  pub at_ctx : (w : W) → sent (ctx.err w).1 ≡ sent w
  pub at_known :
      (known : Text → W → Bool × W)
      → o.known ≡ some known
      → (s : Text) (w : W) → sent (known s w).1 ≡ sent w

module _ {W Raw Response : Type 0} (ctx : Context W) (feed : Feed W Raw Response)
    (o : FetchOptions W) (sent : W → List Text) (laws : SendLaws ctx feed o sent) where
  sent-is_known : (s : Text) (w : W) → sent (is_known ctx feed o s w).1 ≡ sent w
  unfolding is_known
  sent-is_known s w = elim (Option-cases o.known) [
    | inl e ↦ rw (e, is_known) refl
    | inr (known, e) ↦ rw (e, is_known) (laws.at_known known e s w)
  ]

  sent-is_old : (post : SavedPost) (k : Walk) (w : W) → sent (is_old ctx feed o post k w).1 ≡ sent w
  unfolding is_old
  sent-is_old post k w = elim (Bool-cases (in_set k.collected post.source)) [
    | inl e ↦ rw e refl
    | inr e ↦ rw e (sent-is_known post.source w)
  ]

  -- Collecting leaves the cursors and the log alone.
  abbrev Steady : Walk → W → Walk → W → Type 0
  Steady k w k' w' = (k'.max_id ≡ k.max_id) × (k'.cursors ≡ k.cursors) × (sent w' ≡ sent w)

  collect-Steady :
      (raws : List Raw) (k : Walk) (w : W)
      → Steady k w (collect ctx feed o raws k w).0 (collect ctx feed o raws k w).1
  unfolding take_post
  collect-Steady raws k w =
      collect_induction ctx feed o (Steady k w)
        (λ raw e k' w' q h.
          ((count_drop_cursors e k').0 ∙ h.0, (count_drop_cursors e k').1 ∙ h.1, h.2))
        (λ post k' w' b h. (h.0, h.1, sent-is_old post k' w' ∙ h.2))
        (λ raw post k' w' q b h. (h.0, h.1, sent-is_old post k' w' ∙ h.2)) raws k w
        (refl, refl, refl)

  -- `n` pages are left; `new` was sent on top of `old`.
  record Sending (old : List Text) (n : ℕ) (k : Walk) (now : List Text) : Type 0 where
    new : List Text
    split : now ≡ new ++ old
    pages : length new + n ≤ page_limit ctx feed o
    trail : k.max_id ∷ new ≡ k.cursors ++ [] ∷ []
    distinct : IsDistinct (k.max_id ∷ new)

  -- After a request: the cursors and the one that the first request went without are what was sent.
  record Asked (old : List Text) (n : ℕ) (k : Walk) (now : List Text) : Type 0 where
    new : List Text
    split : now ≡ new ++ old
    pages : length new + n ≤ page_limit ctx feed o
    trail : new ≡ k.cursors ++ [] ∷ []
    distinct : IsDistinct new

  abbrev SendEnd : List Text → ℕ → PageEnd → W → Type 0
  SendEnd old n =
      Ended ctx feed o (λ m k w. Sending old m k (sent w))
        (λ r w. Sent (page_limit ctx feed o) old (sent w)) n

  Asked-Sent :
      (old now : List Text) (n : ℕ) (k : Walk)
      → Asked old n k now
      → Sent (page_limit ctx feed o) old now
  Asked-Sent old now n k a = record {
    new = a.new;
    split = a.split;
    pages = let h = a.pages in omega arith;
    distinct = a.distinct;
  }

  Sending-Sent :
      (old now : List Text) (n : ℕ) (k : Walk)
      → Sending old n k now
      → Sent (page_limit ctx feed o) old now
  Sending-Sent old now n k a = record {
    new = a.new;
    split = a.split;
    pages = let h = a.pages in omega arith;
    distinct = a.distinct.1;
  }

  Sending-Asked :
      (old : List Text) (n : ℕ) (endpoint : Text) (k : Walk) (w : W)
      → Sending old (suc n) k (sent w)
      → Asked old n k (sent (asked ctx feed o endpoint k w))
  Sending-Asked old n endpoint k w s = record {
    new = k.max_id ∷ s.new;
    split =
        laws.at_request endpoint k.max_id _
        ∙ ap (λ (l : List Text). k.max_id ∷ l) (laws.at_ctx w ∙ s.split);
    pages = let h = s.pages in omega arith;
    trail = s.trail;
    distinct = s.distinct;
  }

  in_set-trail :
      (old now : List Text) (n : ℕ) (k : Walk) (a : Asked old n k now) (next : Text)
      → is_empty next ≡ false
      → in_set k.cursors next ≡ false
      → in_set a.new next ≡ false
  in_set-trail old now n k a next e f =
      rw a.trail (rw (in_set-append k.cursors [] next, f) (text_eq-empty next e))

  advance-Asked :
      (old : List Text) (n : ℕ) (k : Walk) (w : W) (next : Text)
      → Asked old n k (sent w)
      → SendEnd old n (advance ctx feed o next k) w
  unfolding advance
  advance-Asked old n k w next a = elim (Bool-cases (is_empty next)) [
    | inl e ↦ rw e (Asked-Sent old (sent w) n k a)
    | inr e ↦ elim (Bool-cases (in_set k.cursors next)) [
      | inl f ↦ rw (e, f) (Asked-Sent old (sent w) n k a)
      | inr f ↦
          rw (e, f)
            (record {
              new = a.new;
              split = a.split;
              pages = a.pages;
              trail = ap (λ (l : List Text). next ∷ l) a.trail;
              distinct = (in_set-trail old (sent w) n k a next e f, a.distinct);
            })
    ]
  ]

  Asked-collect :
      (old : List Text) (n : ℕ) (raws : List Raw) (k : Walk) (w : W)
      → Asked old n k (sent w)
      → Asked old n (collect ctx feed o raws k w).0 (sent (collect ctx feed o raws k w).1)
  Asked-collect old n raws k w a =
      let s = collect-Steady raws k w in
      record {
        new = a.new;
        split = s.2 ∙ a.split;
        pages = a.pages;
        trail = a.trail ∙ ap (λ (l : List Text). l ++ [] ∷ []) (sym s.1);
        distinct = a.distinct;
      }

  -- One walk calls its requester at most as often as the options allow pages, and with no cursor
  -- twice, however the server answers. What is counted is the calls; the requester of the client may
  -- send the request of one call a second time, behind a login. The condition is that the context
  -- and the test for known posts call it never.
  pub page_media-Sent :
      (endpoint : Text) (w : W)
      → Sent (page_limit ctx feed o) (sent w) (sent (page_media ctx feed o endpoint w).1)
  unfolding page_media
  page_media-Sent endpoint w =
      walk_induction ctx feed o endpoint (λ m k w'. Sending (sent w) m k (sent w'))
        (λ r w'. Sent (page_limit ctx feed o) (sent w) (sent w'))
        (λ n k w' s. Sending-Sent (sent w) (sent w') n k s)
        (λ n k w' s lt.
          let a = Sending-Asked (sent w) n endpoint k w' s in
          fetch_page_cases ctx feed o endpoint k w' (SendEnd (sent w) n)
            (λ e. rw (laws.at_ctx w') (Sending-Sent (sent w) (sent w') (suc n) k s))
            (λ e. Asked-Sent (sent w) _ n k a) (Asked-Sent (sent w) _ n k a)
            (λ raw raws next.
              advance-Asked (sent w) n _ _ next (Asked-collect (sent w) n (raw ∷ raws) k _ a)))
        _ walk_start w
        (record {
          new = [];
          split = refl;
          pages = omega arith;
          trail = refl;
          distinct = (unfold in_set in refl, tt);
        })
