-- ===== src/Instagram/Fetcher/Cache.antt =====
-- What a run leaves in the cache of the collection's id, and what the next run makes of it.
use recipe_reader.Common.{
  ◌+◌, ◌-◌, ◌<◌, ◌≡◌, ap, ◌∙◌, refl, inl, inr, Bool, true, false, [], Option, none, some, ltb,
  Bool-cases, arith,
}
use recipe_reader.Text.{Text, is_empty}
use recipe_reader.Text.Equality.{text_eq_refl}
use recipe_reader.Errors.{Error, Result, ok, err}
use recipe_reader.Instagram.Fetcher.{
  PipelineFetcher, Source, collection_id_max_age, says_nothing_about_the_collection,
  forget_collection_id, remember, look_up, resolve_collection_id, keep_or_forget, fetch_resolved,
  fetch_new_posts,
}

-- A lookup of a name never gives an empty id, which `IsFound` states of `ResolveCollectionID`.
abbrev pub NonEmpty : {W : Type 0} → Source W → Type 0
NonEmpty source =
    (name : Text) (w : _) (id : Text) → (source.resolve name w).0 ≡ ok id → is_empty id ≡ false

-- The fetch succeeded, or failed for a reason that has nothing to do with the collection.
abbrev pub trusted : Option Error → Bool
trusted none = true
trusted (some e) = says_nothing_about_the_collection e

-- The answer has this id, and the fetcher keeps it.
record Holds (id : Text) (answer : Result Text × PipelineFetcher) : Type 0 where
  given : answer.0 ≡ ok id
  kept : answer.1.collection_id ≡ id
  filled : is_empty id ≡ false

module _ {W : Type 0} (source : Source W) (filled : NonEmpty source) where
  remember-Holds :
      (f : PipelineFetcher) (r : Result Text) (w : W) (id : Text)
      → ((i : Text) → r ≡ ok i → is_empty i ≡ false)
      → (remember source r f w).0.0 ≡ ok id
      → Holds id (remember source r f w).0
  unfolding remember
  remember-Holds f (err e) w id n h = cc h
  remember-Holds f (ok i) w id n h = record { given = h; kept = cc h; filled = n id h }

  look_up-Holds :
      (f : PipelineFetcher) (w : W) (id : Text)
      → (look_up source f w).0.0 ≡ ok id
      → Holds id (look_up source f w).0
  unfolding look_up
  look_up-Holds f w id h = remember-Holds f _ _ id (λ i e. filled f.collection_name w i e) h

  resolve_collection_id-Holds :
      (f : PipelineFetcher) (w : W) (id : Text)
      → (resolve_collection_id source f w).0.0 ≡ ok id
      → Holds id (resolve_collection_id source f w).0
  unfolding resolve_collection_id
  resolve_collection_id-Holds f w id h = elim (Bool-cases (is_empty f.collection_id)) [
    | inl e ↦ rw e (look_up-Holds f w id (rw e at h))
    | inr e ↦
        let now = source.clock w in
        elim (Bool-cases (ltb (now.0 - f.resolved_at) collection_id_max_age)) [
          | inl t ↦
              let k : ok f.collection_id ≡ ok id = rw (e, t) at h in
              rw (e, t) (record { given = k; kept = cc k; filled = cc (k, e) })
          | inr t ↦ rw (e, t) (look_up-Holds f now.1 id (rw (e, t) at h))
        ]
  ]

  -- What `FetchNewPosts` is when the id has been had.
  fetch_new_posts-eq :
      (f : PipelineFetcher) (w : W) (id : Text)
      → is_empty f.collection_name ≡ false
      → (resolve_collection_id source f w).0.0 ≡ ok id
      → let resolved = resolve_collection_id source f w in
        fetch_new_posts source f w ≡ fetch_resolved source (ok id) resolved.0.1 resolved.1
  unfolding fetch_new_posts
  fetch_new_posts-eq f w id name h = rw (name, h) refl

  -- A fetcher that holds an id takes it from the cache while it is fresh.
  resolve_collection_id-fresh :
      (f : PipelineFetcher) (w : W)
      → is_empty f.collection_id ≡ false
      → (source.clock w).0 < f.resolved_at + collection_id_max_age
      → resolve_collection_id source f w ≡ ((ok f.collection_id, f), (source.clock w).1)
  unfolding resolve_collection_id
  resolve_collection_id-fresh f w n fresh =
      let young : ltb ((source.clock w).0 - f.resolved_at) collection_id_max_age ≡ true =
        ground (arith, fresh) in
      rw (n, young) refl

  resolve_collection_id-forgotten :
      (f : PipelineFetcher) (w : W)
      → f.collection_id ≡ []
      → resolve_collection_id source f w ≡ look_up source f w
  unfolding resolve_collection_id
  resolve_collection_id-forgotten f w e =
      let n : is_empty f.collection_id ≡ true = ap is_empty e in rw n refl

  keep_or_forget-trusted :
      (id : Text) (e : Option Error) (f : PipelineFetcher)
      → trusted e ≡ true
      → keep_or_forget source id e f ≡ f
  unfolding keep_or_forget
  keep_or_forget-trusted id none f t = refl
  keep_or_forget-trusted id (some e) f t = rw t refl

  keep_or_forget-forgotten :
      (id : Text) (e : Option Error) (f : PipelineFetcher)
      → f.collection_id ≡ id
      → trusted e ≡ false
      → (keep_or_forget source id e f).collection_id ≡ []
  unfolding keep_or_forget forget_collection_id
  keep_or_forget-forgotten id none f k t = cc t
  keep_or_forget-forgotten id (some e) f k t = rw (t, k, text_eq_refl id) refl

  -- What a lookup that succeeds leaves: the id, and the time of the lookup.
  look_up-ok :
      (f : PipelineFetcher) (v : W) (id : Text)
      → (source.resolve f.collection_name v).0 ≡ ok id
      → (look_up source f v).0 ≡ (
        ok id,
        record f {
          collection_id = id;
          resolved_at = (source.clock (source.resolve f.collection_name v).1).0;
        },
      )
  unfolding look_up remember
  look_up-ok f v id h = rw h refl

  -- After a run that looked the name up and fetched the collection, and whose error, if any, says
  -- nothing about it, a run within 24 hours of the lookup takes the id from the cache: it asks
  -- nobody but the clock, gets the id that the lookup gave, and leaves the cache as it is, so that
  -- the next one does so too. A lookup is taken to give no empty id.
  pub fetch_new_posts-reuses :
      (f : PipelineFetcher) (w v : W) (id : Text)
      → is_empty f.collection_name ≡ false
      → resolve_collection_id source f w ≡ look_up source f v
      → (source.resolve f.collection_name v).0 ≡ ok id
      → trusted (fetch_new_posts source f w).0.0.1 ≡ true
      → (later : W)
      → (source.clock later).0
        < (source.clock (source.resolve f.collection_name v).1).0 + collection_id_max_age
      → resolve_collection_id source (fetch_new_posts source f w).0.1 later
        ≡ ((ok id, (fetch_new_posts source f w).0.1), (source.clock later).1)
  unfolding fetch_resolved
  fetch_new_posts-reuses f w v id name looked found t later fresh =
      let kept : PipelineFetcher = record f {
        collection_id = id;
        resolved_at = (source.clock (source.resolve f.collection_name v).1).0;
      } in
      let left : (resolve_collection_id source f w).0 ≡ (ok id, kept) =
        ap (λ (p : (Result Text × PipelineFetcher) × W). p.0) looked ∙ look_up-ok f v id found in
      let e =
        fetch_new_posts-eq f w id name (ap (λ (p : Result Text × PipelineFetcher). p.0) left) in
      let resolved = resolve_collection_id source f w in
      let same : (fetch_new_posts source f w).0.1 ≡ kept =
        rw e (keep_or_forget-trusted id _ resolved.0.1 (rw e at t))
        ∙ ap (λ (p : Result Text × PipelineFetcher). p.1) left in
      rw same (resolve_collection_id-fresh kept later (filled f.collection_name v id found) fresh)

  -- After a run whose fetch of the collection failed otherwise, the next run looks the name up
  -- again, whatever the time. A lookup is taken to give no empty id.
  pub fetch_new_posts-forgets :
      (f : PipelineFetcher) (w : W) (id : Text)
      → is_empty f.collection_name ≡ false
      → (resolve_collection_id source f w).0.0 ≡ ok id
      → trusted (fetch_new_posts source f w).0.0.1 ≡ false
      → (later : W)
      → resolve_collection_id source (fetch_new_posts source f w).0.1 later
        ≡ look_up source (fetch_new_posts source f w).0.1 later
  unfolding fetch_resolved
  fetch_new_posts-forgets f w id name h t later =
      let resolved = resolve_collection_id source f w in
      let e = fetch_new_posts-eq f w id name h in
      let held = resolve_collection_id-Holds f w id h in
      let gone : (fetch_new_posts source f w).0.1.collection_id ≡ [] =
        rw e (keep_or_forget-forgotten id _ resolved.0.1 held.kept (rw e at t)) in
      resolve_collection_id-forgotten _ later gone
