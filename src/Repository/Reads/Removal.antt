-- ===== src/Repository/Reads/Removal.antt =====
-- `Delete` and `GetByID` of internal/repository/recipe_repository.go when no call fails.
use recipe_reader.Common.{
  ℕ, ◌≡◌, ◌≢◌, refl, ap, ◌∙◌, inl, inr, Bool, true, false, List, [], ◌∷◌, Option, none, some, ◌==◌,
  select, ==_iff, Bool-cases, Option-cases,
}
use recipe_reader.Errors.{Sentinel, sentinel, errors_is, wrap, Result, ok, err}
use recipe_reader.Domain.{Recipe}
use recipe_reader.Db.Store.{
  RecipeRow, LineRow, FiledRow, Store, Session, pure, raise, without, find,
}
use recipe_reader.Db.Statements.{delete_recipe}
use recipe_reader.Db.Reads.{Locale, get_recipe, joined_line, joined_category}
use recipe_reader.Repository.Recipes.{delete}
use recipe_reader.Repository.Reads.{get_by_id}
use recipe_reader.Repository.Reads.Clear.{
  call-clear, bind-clear, map_error-clear, assemble-clear, assembled,
}
use recipe_reader.Repository.Recipes.Names.{find-holds}
use recipe_reader.Repository.Recipes.Duplicates.{bind-err, map_error-err}

module _ {A : Type 0} (p q : A → Bool) (apart : (x : A) → p x ≡ true → q x ≡ false) where
  find-without : (xs : List A) → find p (without q xs) ≡ find p xs
  find-without [] = refl
  find-without (x ∷ xs) = elim (Bool-cases (p x)) [
    | inl e ↦ rw (apart x e, e) refl
    | inr e ↦ elim (Bool-cases (q x)) [
      | inl f ↦ rw (f, e) (find-without xs)
      | inr f ↦ rw (f, e) (find-without xs)
    ]
  ]

  select-without : (xs : List A) → select p (without q xs) ≡ select p xs
  select-without [] = refl
  select-without (x ∷ xs) = elim (Bool-cases (p x)) [
    | inl e ↦ rw (apart x e, e) (ap (λ ys. x ∷ ys) (select-without xs))
    | inr e ↦ elim (Bool-cases (q x)) [
      | inl f ↦ rw (f, e) (select-without xs)
      | inr f ↦ rw (f, e) (select-without xs)
    ]
  ]

pub find-without_self : {A : Type 0} (p : A → Bool) (xs : List A) → find p (without p xs) ≡ none
find-without_self p [] = refl
find-without_self p (x ∷ xs) = elim (Bool-cases (p x)) [
  | inl e ↦ rw e (find-without_self p xs)
  | inr e ↦ rw (e, e) (find-without_self p xs)
]

-- Two keys that differ are not both equal to a third.
keys-apart : (i j k : ℕ) → j ≢ i → (k == j) ≡ true → (k == i) ≡ false
keys-apart i j k h e = elim (Bool-cases (k == i)) [
  | inr f ↦ f
  | inl f ↦ absurd (h (cc ((==_iff k j).0 e, (==_iff k i).0 f)))
]

-- What `Delete` answers when there is such a row.
abbrev pub removal : Option RecipeRow → Result {0} Unit
removal none = err (sentinel Sentinel.not_found)
removal (some row) = ok tt

abbrev pub row_of_id : ℕ → List RecipeRow → Option RecipeRow
row_of_id id rows = find (λ (r : RecipeRow). r.id == id) rows

-- What `GetRecipe` answers.
abbrev found_row : Option RecipeRow → Result RecipeRow
found_row none = err (sentinel Sentinel.no_rows)
found_row (some row) = ok row

module _ {F : Type 0} where
  -- The tables without a recipe.
  abbrev pub removed : ℕ → Store F → Store F
  removed id st = record st {
    recipes = without (λ (r : RecipeRow). r.id == id) st.recipes;
    lines = without (λ (l : LineRow F). l.recipe_id == id) st.lines;
    filed = without (λ (f : FiledRow). f.recipe_id == id) st.filed;
  }

  delete_recipe-clear :
      (id : ℕ) (s : Session F)
      → s.faults ≡ []
      → delete_recipe id s ≡ (
        ok (elim (row_of_id id s.store.recipes) [ none ↦ 0 | some r ↦ 1 ]),
        record s { store = removed id (s.store) },
      )
  unfolding delete_recipe
  delete_recipe-clear id s h = call-clear _ s h

  pub delete-clear :
      (id : ℕ) (s : Session F)
      → s.faults ≡ []
      → delete id s
        ≡ (removal (row_of_id id s.store.recipes), record s { store = removed id (s.store) })
  unfolding delete pure raise
  delete-clear id s h =
      bind-clear _ _ _ s _ (map_error-clear wrap _ _ s _ (delete_recipe-clear id s h))
      ∙ elim (Option-cases (row_of_id id s.store.recipes)) [
        | inl e ↦ rw e refl
        | inr (row, e) ↦ rw e refl
      ]

  get_recipe-clear :
      (id : ℕ) (s : Session F)
      → s.faults ≡ []
      → get_recipe id s ≡ (found_row (row_of_id id s.store.recipes), s)
  unfolding get_recipe
  get_recipe-clear id s h = call-clear _ s h ∙ elim (Option-cases (row_of_id id s.store.recipes)) [
    | inl e ↦ rw e refl
    | inr (row, e) ↦ rw e refl
  ]

module _ {F : Type 0} (locale : Locale) where
  -- The recipe with an id, as the tables have it.
  abbrev pub recipe_at : Store F → Option RecipeRow → Result (Recipe F)
  recipe_at st none = err (sentinel Sentinel.not_found)
  recipe_at st (some row) = ok (assembled locale st row)

  pub get_by_id-clear :
      (id : ℕ) (s : Session F)
      → s.faults ≡ []
      → get_by_id locale id s ≡ (recipe_at (s.store) (row_of_id id s.store.recipes), s)
  unfolding get_by_id errors_is
  get_by_id-clear id s h = elim (Option-cases (row_of_id id s.store.recipes)) [
    | inl e ↦
        let g : get_recipe id s ≡ (err (sentinel Sentinel.no_rows), s) =
          get_recipe-clear id s h ∙ rw e refl in
        rw e (bind-err _ _ _ s s (map_error-err _ _ _ s s g))
    | inr (row, e) ↦
        let g : get_recipe id s ≡ (ok row, s) = get_recipe-clear id s h ∙ rw e refl in
        rw e (bind-clear _ _ _ s s (map_error-clear _ _ _ s s g) ∙ assemble-clear locale row s h)
  ]

  recipe_at-removed_of_row :
      (id j : ℕ) (st : Store F) (row : RecipeRow)
      → j ≢ id
      → row.id ≡ j
      → assembled locale (removed id st) row ≡ assembled locale st row
  unfolding joined_line joined_category
  recipe_at-removed_of_row id j st row h e =
      rw
        (
          select-without (λ (l : LineRow F). l.recipe_id == row.id) (λ l. l.recipe_id == id)
              (λ l. keys-apart id row.id l.recipe_id (rw e h)) st.lines,
          select-without (λ (f : FiledRow). f.recipe_id == row.id) (λ f. f.recipe_id == id)
              (λ f. keys-apart id row.id f.recipe_id (rw e h)) st.filed,
        )
        refl

  -- What is stored under another id stays as it is.
  pub recipe_at-removed :
      (id j : ℕ) (st : Store F)
      → j ≢ id
      → recipe_at (removed id st) (row_of_id j (removed id st).recipes)
        ≡ recipe_at st (row_of_id j st.recipes)
  recipe_at-removed id j st h =
      rw
        (find-without (λ (r : RecipeRow). r.id == j) (λ r. r.id == id) (λ r. keys-apart id j r.id h)
          st.recipes)
        (elim (Option-cases (row_of_id j st.recipes)) [
          | inl e ↦ rw e refl
          | inr (row, e) ↦ rw e (
              ap ok (
                recipe_at-removed_of_row id j st row h (
                  (==_iff row.id j).0
                    (find-holds (λ (r : RecipeRow). r.id == j) st.recipes row e))))
        ])
