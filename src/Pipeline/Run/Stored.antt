-- ===== src/Pipeline/Run/Stored.antt =====
-- An import run that stores its recipes with `Create` of
-- internal/repository/recipe_repository.go.
use recipe_reader.Common.{
  ◌≡◌, refl, ◌∙◌, sym, ap, inl, inr, true, false, ◌||◌, List, [], ◌∷◌, ◌++◌, Option, none, some,
  All-weaken, Bool-cases,
}
use recipe_reader.Text.{Text, Unicode, text_eq}
use recipe_reader.Float.{Float}
use recipe_reader.World.{Context}
use recipe_reader.Errors.{Error, Result}
use recipe_reader.Domain.{Recipe, Category}
use recipe_reader.Db.Store.{RecipeRow, Store, Session}
use recipe_reader.Repository.Recipes.{create}
use recipe_reader.Repository.Recipes.Writes.{has_source, row_of, IsStored}
use recipe_reader.Repository.Recipes.Atomicity.{Ended, create-Ended}
use recipe_reader.Pipeline.Run.{ImportLock, Pipeline, run}
use recipe_reader.Pipeline.Run.Induction.{Sources}
use recipe_reader.Pipeline.Run.Storage.{contains, Grown, StoreLaws, run-Grown, run-Idle}

-- The sources of the rows, the latest first.
abbrev pub sources_of : List RecipeRow → List Text
sources_of [] = []
sources_of (row ∷ rows) = sources_of rows ++ row.source ∷ []

sources_of-append :
    (rows : List RecipeRow) (row : RecipeRow)
    → sources_of (rows ++ row ∷ []) ≡ row.source ∷ sources_of rows
sources_of-append [] row = refl
sources_of-append (x ∷ xs) row =
    ap (λ (l : List Text). l ++ x.source ∷ []) (sources_of-append xs row)

contains-append :
    (xs : List Text) (y s : Text) → contains (xs ++ y ∷ []) s ≡ (text_eq y s || contains xs s)
unfolding contains
contains-append [] y s = refl
contains-append (x ∷ xs) y s = rw (contains-append xs y s) (elim (Bool-cases (text_eq x s)) [
  | inl a ↦ elim (Bool-cases (text_eq y s)) [ inl b ↦ rw (a, b) refl | inr b ↦ rw (a, b) refl ]
  | inr a ↦ rw a refl
])

contains-sources_of :
    (rows : List RecipeRow) (s : Text) → contains (sources_of rows) s ≡ has_source s rows
unfolding contains
contains-sources_of [] s = refl
contains-sources_of (row ∷ rows) s =
    contains-append (sources_of rows) row.source s
    ∙ ap (λ b. text_eq row.source s || b) (contains-sources_of rows s)

module _ {F : Type 0} where
  create-new :
      (r : Recipe F) (s : Session F) (p : (Option Error × Recipe F) × Session F)
      → Ended (λ r' after. IsStored r (s.store) s.next_recipe after r') r (s.store) p
      → p.0.0 ≡ none
      → (contains (sources_of s.store.recipes) r.source ≡ false)
        × (sources_of p.1.store.recipes ≡ r.source ∷ sources_of s.store.recipes)
  unfolding Ended
  create-new r s p (inl (r', q, k)) e = (
    contains-sources_of s.store.recipes r.source ∙ k.fresh,
    ap sources_of k.recipes
        ∙ sources_of-append s.store.recipes (row_of r')
        ∙ ap (λ (x : Text). x ∷ sources_of s.store.recipes) k.resolved.source,
  )
  create-new r s p (inr (x, q, k)) e =
      let f : some x ≡ none = sym (ap (λ (y : Option Error × Recipe F). y.0) q) ∙ e in cc f

  create-error :
      (r : Recipe F) (s : Session F) (p : (Option Error × Recipe F) × Session F) (e : Error)
      → Ended (λ r' after. IsStored r (s.store) s.next_recipe after r') r (s.store) p
      → p.0.0 ≡ some e
      → sources_of p.1.store.recipes ≡ sources_of s.store.recipes
  unfolding Ended
  create-error r s p e (inl (r', q, k)) h =
      let f : none ≡ some e = sym (ap (λ (y : Option Error × Recipe F). y.0) q) ∙ h in cc f
  create-error r s p e (inr (x, q, k)) h = ap (λ (st : Store F). sources_of st.recipes) k

module _ {F V : Type 0} where
  -- `Create`, in a world with a database and something else.
  abbrev pub stores : Recipe F → Session F × V → Option Error × (Session F × V)
  stores r w = let q = create r w.0 in (q.0.0, (q.1, w.1))

  abbrev pub newest_sources : Session F × V → List Text
  newest_sources w = sources_of w.0.store.recipes

  -- A call that leaves the table of the recipes alone.
  abbrev pub Untouched : (Session F × V → Session F × V) → Type 0
  Untouched f = (w : Session F × V) → (f w).0.store.recipes ≡ w.0.store.recipes

  -- The run creates recipes with the repository, and its other calls leave the table of the recipes
  -- alone.
  pub record StoresRecipes (ctx : Context (Session F × V)) (p : Pipeline F (Session F × V))
      : Type 0 where
    pub creates : (r : Recipe F) (w : Session F × V) → p.create r w ≡ stores r w
    pub at_ctx : Untouched (λ w. (ctx.err w).1)
    pub at_fetch : Untouched (λ w. (p.fetch_new_posts w).1)
    pub at_extract : (c : Text) → Untouched (λ w. (p.extract c w).1)
    pub at_list :
        (list : Session F × V → Result (List Category) × (Session F × V))
        → p.list_categories ≡ some list
        → Untouched (λ w. (list w).1)
    pub at_acquire :
        (lock : ImportLock (Session F × V))
        → p.lock ≡ some lock
        → Untouched (λ w. (lock.try_acquire w).1)
    pub at_release :
        (lock : ImportLock (Session F × V)) → p.lock ≡ some lock → Untouched lock.release

  StoresRecipes-StoreLaws :
      (ctx : Context (Session F × V)) (p : Pipeline F (Session F × V))
      → StoresRecipes ctx p
      → StoreLaws ctx p newest_sources
  StoresRecipes-StoreLaws ctx p h = record {
    create_new = λ r w e.
        rw (h.creates r w)
          (create-new r w.0 (create r w.0) (create-Ended r w.0) (rw (h.creates r w) at e));
    create_error = λ r w x e.
        rw (h.creates r w)
          (create-error r w.0 (create r w.0) x (create-Ended r w.0) (rw (h.creates r w) at e));
    at_ctx = λ w. ap sources_of (h.at_ctx w);
    at_fetch = λ w. ap sources_of (h.at_fetch w);
    at_extract = λ c w. ap sources_of (h.at_extract c w);
    at_list = λ list e w. ap sources_of (h.at_list list e w);
    at_acquire = λ lock e w. ap sources_of (h.at_acquire lock e w);
    at_release = λ lock e w. ap sources_of (h.at_release lock e w);
  }

  -- A run that stores its recipes with `Create` adds exactly as many recipes as it reports imported,
  -- behind those that were there, and never a second one with the same source, however its calls of
  -- the database go wrong. The condition is that the other collaborators leave the table of the
  -- recipes alone.
  pub run-stores-Grown :
      (u : Unicode) (fl : Float F) (ctx : Context (Session F × V)) (p : Pipeline F (Session F × V))
      → StoresRecipes ctx p
      → (w : Session F × V)
      → let done = run u fl ctx p w in
        Grown (newest_sources w) done.0.0.imported (newest_sources done.1)
  run-stores-Grown u fl ctx p h w =
      run-Grown u fl ctx p newest_sources (StoresRecipes-StoreLaws ctx p h) w

  -- A run that stores its recipes with `Create`, over posts of which every source is stored already,
  -- imports nothing and adds no recipe. The condition is that the other collaborators leave the
  -- table of the recipes alone.
  pub run-stores_idle :
      (u : Unicode) (fl : Float F) (ctx : Context (Session F × V)) (p : Pipeline F (Session F × V))
      → StoresRecipes ctx p
      → (w : Session F × V)
      → ((w' : Session F × V)
          → Sources (λ s. has_source s w.0.store.recipes ≡ true) (p.fetch_new_posts w').0.0)
      → let done = run u fl ctx p w in
        (done.0.0.imported ≡ 0) × (newest_sources done.1 ≡ newest_sources w)
  run-stores_idle u fl ctx p h w known =
      run-Idle u fl ctx p newest_sources (StoresRecipes-StoreLaws ctx p h) w λ w'.
        All-weaken (p.fetch_new_posts w').0.0
          (λ post k. contains-sources_of w.0.store.recipes post.source ∙ k) (known w')
