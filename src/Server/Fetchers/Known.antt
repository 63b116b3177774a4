-- ===== src/Server/Fetchers/Known.antt =====
-- `alreadyImported`, internal/server/fetcher.go, over the repository of
-- internal/repository/recipe_repository.go.
use recipe_reader.Common.{
  ◌≡◌, refl, ◌∙◌, inl, inr, Bool, true, false, List, [], ◌∷◌, none, some, any, Bool-cases,
  Option-cases,
}
use recipe_reader.Text.{Text, text_eq}
use recipe_reader.Errors.{Error, Sentinel, sentinel, errors_is, ok, err}
use recipe_reader.Db.Store.{RecipeRow, Session, find}
use recipe_reader.Db.Reads.{Locale, get_recipe_by_source}
use recipe_reader.Repository.Reads.{get_by_source}
use recipe_reader.Repository.Reads.Clear.{call-clear, bind-clear, map_error-clear, assemble-clear}
use recipe_reader.Repository.Reads.Removal.{recipe_at}
use recipe_reader.Repository.Recipes.Duplicates.{bind-err, map_error-err}
use recipe_reader.Repository.Recipes.Writes.{has_source}
use recipe_reader.Repository.Postgres.{recipe_repository}
use recipe_reader.Server.Fetchers.{already_imported}

abbrev with_source : Text → RecipeRow → Bool
with_source source r = text_eq r.source source

find-none : {A : Type 0} (p : A → Bool) (xs : List A) → find p xs ≡ none → any p xs ≡ false
find-none p [] h = refl
find-none p (x ∷ xs) h = elim (Bool-cases (p x)) [
  | inl e ↦ cc (rw e at h)
  | inr e ↦ rw e (find-none p xs (rw e at h))
]

find-some : {A : Type 0} (p : A → Bool) (xs : List A) (y : A) → find p xs ≡ some y → any p xs ≡ true
find-some p [] y h = cc h
find-some p (x ∷ xs) y h = elim (Bool-cases (p x)) [
  | inl e ↦ rw e refl
  | inr e ↦ rw e (find-some p xs y (rw e at h))
]

module _ {F : Type 0} (locale : Locale) where
  get_by_source-clear :
      (source : Text) (s : Session F)
      → s.faults ≡ []
      → get_by_source locale source s
        ≡ (recipe_at locale (s.store) (find (with_source source) s.store.recipes), s)
  unfolding get_by_source get_recipe_by_source errors_is
  get_by_source-clear source s h = elim (Option-cases (find (with_source source) s.store.recipes)) [
    | inl e ↦
        let g : get_recipe_by_source source s ≡ (err (sentinel Sentinel.no_rows), s) =
          call-clear _ s h ∙ rw e refl in
        rw e (bind-err _ _ _ s s (map_error-err _ _ _ s s g))
    | inr (row, e) ↦
        let g : get_recipe_by_source source s ≡ (ok row, s) = call-clear _ s h ∙ rw e refl in
        rw e (bind-clear _ _ _ s s (map_error-clear _ _ _ s s g) ∙ assemble-clear locale row s h)
  ]

  -- The fetcher's test whether a post has been imported answers whether its source is stored, and
  -- logs and changes nothing. The condition is that no call of the database fails.
  pub already_imported-has_source :
      (log : Text → Error → Session F → Session F) (source : Text) (s : Session F)
      → s.faults ≡ []
      → already_imported (recipe_repository locale) log source s
        ≡ (has_source source s.store.recipes, s)
  unfolding already_imported errors_is
  already_imported-has_source log source s h =
      rw (get_by_source-clear source s h)
        (elim (Option-cases (find (with_source source) s.store.recipes)) [
          | inl e ↦ rw (e, find-none (with_source source) s.store.recipes e) refl
          | inr (row, e) ↦ rw (e, find-some (with_source source) s.store.recipes row e) refl
        ])
