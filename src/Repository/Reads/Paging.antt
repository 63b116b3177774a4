-- ===== src/Repository/Reads/Paging.antt =====
-- `Search` of internal/repository/recipe_repository.go: the guard on the offset and the conversions
-- to 32 bits.
use native.Mathlib.Nat.{div-lt_iff_lt-mul, mod-eq_of_lt}
use recipe_reader.Common.{
  ℕ, zero, suc, ◌-◌, ◌*◌, ◌/◌, ◌%◌, ◌^◌, ◌≤◌, ◌<◌, ◌≡◌, refl, sym, ◌∙◌, inl, inr, ℤ, pos, negsuc,
  true, false, List, [], ◌∷◌, ltb, length, take, drop, sort_by, Bool-cases, arith, ltb→lt, lt→ltb,
  length-sort_by,
}
use recipe_reader.Errors.{wrap, ok}
use recipe_reader.Domain.{Recipe}
use recipe_reader.Db.Store.{RecipeRow, Session, Action, ◌>>=◌, pure}
use recipe_reader.Db.Reads.{Locale, matching_recipes, recipe_le, count_recipes, search_recipes}
use recipe_reader.Repository.Reads.{
  SearchQuery, clamp_page, clamp_page_size, filter_of, max_int32, int32, found_page, search,
  assemble_page,
}
use recipe_reader.Repository.Reads.Pages.{LocaleLaws}
use recipe_reader.Repository.Reads.Clear.{
  assemble_each, assemble_each-clear, bind-clear, map_error-clear, call-clear,
}
use recipe_reader.Repository.Reads.Assembly.{assemble_page-assemble_each}

drop-beyond : {A : Type 0} (n : ℕ) (xs : List A) → length xs ≤ n → drop n xs ≡ []
drop-beyond zero [] h = refl
drop-beyond zero (x ∷ xs) h = absurd (omega (arith, h))
drop-beyond (suc n) [] h = refl
drop-beyond (suc n) (x ∷ xs) h = drop-beyond n xs (omega (arith, h))

take-nothing : {A : Type 0} (n : ℕ) → take {A = A} n [] ≡ []
take-nothing zero = refl
take-nothing (suc n) = refl

clamp_page_size-bounds : (z : ℤ) → (0 < clamp_page_size z) × (clamp_page_size z ≤ 100)
clamp_page_size-bounds (pos n) = ground arith
clamp_page_size-bounds (negsuc n) = (omega arith, omega arith)

bind-same :
    {F A B : Type 0} (m n : Action F A) (f : A → Action F B) (s : Session F)
    → m s ≡ n s
    → (m >>= f) s ≡ (n >>= f) s
unfolding ◌>>=◌
bind-same m n f s h = rw h refl

past-end : (n size : ℕ) → 0 < size → ltb (max_int32 / size) n ≡ true → max_int32 < n * size
past-end n size h e = (div-lt_iff_lt-mul h).0 (ltb→lt _ _ e)

-- A number that is no more than 2^31 - 1 does not wrap in 32 bits.
fits : (n : ℕ) → ltb max_int32 n ≡ false → int32 n ≡ pos n
fits n h =
    let m : n % 2 ^ 32 ≡ n = mod-eq_of_lt (ground (arith, h)) in
    let small : ltb n (2 ^ 31) ≡ true = lt→ltb _ _ (ground (arith, h)) in rw (m, small) refl

-- No conversion to 32 bits wraps behind the guard.
offset-fits :
    (n size : ℕ) → 0 < size → ltb (max_int32 / size) n ≡ false → int32 (n * size) ≡ pos (n * size)
offset-fits n size h e = elim (Bool-cases (ltb max_int32 (n * size))) [
  | inr l ↦ fits (n * size) l
  | inl l ↦ cc (lt→ltb _ _ ((div-lt_iff_lt-mul h).1 (ltb→lt _ _ l)), e)
]

module _ {F : Type 0} (locale : Locale) where
  -- The matches in the order of their names, as many as fit behind those of the earlier pages, one
  -- assembled after the other, and the number of all matches.
  unfoldable pub window : SearchQuery → ℕ → ℕ → Action F (List (Recipe F) × ℕ)
  window q page size s =
      let found = matching_recipes locale (filter_of q) (s.store) in
      (do
        recipes ←
            assemble_each locale
              (take size (drop ((page - 1) * size) (sort_by (recipe_le locale) found)))
        pure (recipes, length found))
        s

  -- The page of a query without a bound on its offset.
  unfoldable pub search_unbounded : SearchQuery → Action F (List (Recipe F) × ℕ)
  search_unbounded q = window q (clamp_page q.page) (clamp_page_size q.page_size)

  search_recipes-clear :
      (q : SearchQuery) (limit offset : ℕ) (s : Session F)
      → s.faults ≡ []
      → search_recipes locale (filter_of q) (pos limit) (pos offset) s ≡ (
        ok (
            take limit (
              drop offset
                (sort_by (recipe_le locale) (matching_recipes locale (filter_of q) (s.store))))),
        s,
      )
  unfolding search_recipes
  search_recipes-clear q limit offset s h = call-clear _ s h

  count_recipes-clear :
      (q : SearchQuery) (s : Session F)
      → s.faults ≡ []
      → count_recipes locale (filter_of q) s
        ≡ (ok (length (matching_recipes locale (filter_of q) (s.store))), s)
  unfolding count_recipes
  count_recipes-clear q s h = call-clear _ s h

module _ {F : Type 0} (locale : Locale) (laws : LocaleLaws locale) where
  page-unbounded :
      (q : SearchQuery) (page size : ℕ) (s : Session F)
      → s.faults ≡ []
      → length (matching_recipes locale (filter_of q) (s.store)) ≤ max_int32
      → (0 < size) × (size ≤ 100)
      → found_page locale q (length (matching_recipes locale (filter_of q) (s.store))) page size s
        ≡ window locale q page size s
  unfolding found_page window
  page-unbounded q page size s h few b =
      let total = length (matching_recipes locale (filter_of q) (s.store)) in
      let sorted = sort_by (recipe_le locale) (matching_recipes locale (filter_of q) (s.store)) in
      let small : ltb max_int32 size ≡ false = ground (arith, b.1) in
      elim (Bool-cases (ltb (max_int32 / size) (page - 1))) [
        | inl e ↦
            rw
              (
                e,
                drop-beyond ((page - 1) * size) sorted (
                    omega (
                      arith,
                      length-sort_by (recipe_le locale)
                          (matching_recipes locale (filter_of q) (s.store)),
                      few,
                      past-end (page - 1) size b.0 e,
                    )),
                take-nothing {A = RecipeRow} size,
              )
              (sym (bind-clear _ _ _ s s (assemble_each-clear locale [] s h)))
        | inr e ↦
            rw (e, fits size small, offset-fits (page - 1) size b.0 e)
              (bind-clear _ _ _ s s (
                  map_error-clear wrap _ _ s s
                    (search_recipes-clear locale q size ((page - 1) * size) s h))
                ∙ bind-same (assemble_page locale (take size (drop ((page - 1) * size) sorted))) _ _
                    s
                    (assemble_page-assemble_each locale laws
                      (take size (drop ((page - 1) * size) sorted)) s h))
      ]

  -- Under the assumption that no call fails and that at most 2^31 - 1 recipes match, `Search`
  -- returns the page that an unbounded offset would give, and the number of all matches: the guard
  -- turns away only pages behind the last match, and behind it no conversion to 32 bits wraps.
  pub search-unbounded :
      (q : SearchQuery) (s : Session F)
      → s.faults ≡ []
      → length (matching_recipes locale (filter_of q) (s.store)) ≤ max_int32
      → search locale q s ≡ search_unbounded locale q s
  unfolding search search_unbounded
  search-unbounded q s h few =
      let found = matching_recipes locale (filter_of q) (s.store) in
      bind-clear _ _ _ s s (map_error-clear wrap _ _ s s (count_recipes-clear locale q s h))
      ∙ page-unbounded q (clamp_page q.page) (clamp_page_size q.page_size) s h few
          (clamp_page_size-bounds q.page_size)
