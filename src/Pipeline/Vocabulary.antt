-- ===== src/Pipeline/Vocabulary.antt =====
-- `categoryVocabulary`, its `resolve` and `foldCategory`, internal/pipeline/pipeline.go. The flag
-- `warned`, which only says whether a line has been logged, is not modelled.
use recipe_reader.Common.{
  sym, ◌∙◌, ◌≡◌, refl, ◌⊎◌, inl, inr, List, [], ◌∷◌, Option, none, some, Bool-cases, Option-cases,
  if◌then◌else◌, All,
}
use recipe_reader.Text.{Text, Unicode, to_lower, text_eq}
use recipe_reader.Text.Equality.{text_eq_sound}
use recipe_reader.Domain.{Category}
use recipe_reader.Errors.{Result, ok, err}
use recipe_reader.Pipeline.Sanitize.{sanitize_name, max_category_name_runes}

-- `foldCategory`
unfoldable pub fold_category : Unicode → Text → Text
fold_category u name = to_lower u (sanitize_name name max_category_name_runes)

-- `byFold`: the last entry that was written for a key stands first.
abbrev pub Vocabulary : Type 0
Vocabulary = List (Text × Text)

-- `v.byFold[key]`
unfoldable pub by_fold : Vocabulary → Text → Option Text
by_fold [] key = none
by_fold ((k, v) ∷ m) key = if text_eq k key then some v else by_fold m key

-- The loop that fills the map.
unfoldable pub add_rows : Unicode → Vocabulary → List Category → Vocabulary
add_rows u v [] = v
add_rows u v (row ∷ rows) = add_rows u ((fold_category u row.name, row.name) ∷ v) rows

-- `resolve` against a vocabulary that could be read.
unfoldable pub resolve_in : Unicode → Vocabulary → List Text → List Text
unfolding by_fold
resolve_in u v [] = []
resolve_in u v (name ∷ proposed) =
    let rest = resolve_in u v proposed in
    elim (by_fold v (fold_category u name)) [ none ↦ rest | some canonical ↦ canonical ∷ rest ]

-- `resolve`: with no vocabulary the names pass through.
unfoldable pub resolve : Unicode → Option Vocabulary → List Text → List Text
unfolding resolve_in
resolve u none proposed = proposed
resolve u (some v) proposed = resolve_in u v proposed

-- What ListCategories answered: a failed read leaves no vocabulary.
unfoldable pub vocabulary_of : Unicode → Result (List Category) → Option Vocabulary
unfolding add_rows
vocabulary_of u (ok rows) = some (add_rows u [] rows)
vocabulary_of u (err e) = none

-- The name is that of a listed row.
abbrev pub IsListed : List Category → Text → Type 0
IsListed [] name = ⊥
IsListed (row ∷ rows) name = (row.name ≡ name) ⊎ IsListed rows name

-- One of the proposed names has the same match key.
abbrev pub IsProposed : Unicode → List Text → Text → Type 0
IsProposed u [] name = ⊥
IsProposed u (p ∷ proposed) name =
    (fold_category u p ≡ fold_category u name) ⊎ IsProposed u proposed name

module _ (u : Unicode) (all_rows : List Category) where
  -- An entry of the map: the key of a listed name, and the name.
  abbrev Entry : Text × Text → Type 0
  Entry kv = IsListed all_rows kv.1 × (fold_category u kv.1 ≡ kv.0)

  by_fold-Entry :
      (v : Vocabulary) (key name : Text)
      → All Entry v
      → by_fold v key ≡ some name
      → IsListed all_rows name × (key ≡ fold_category u name)
  unfolding by_fold
  by_fold-Entry [] key name h e = cc
  by_fold-Entry ((k, x) ∷ v) key name h e = elim (Bool-cases (text_eq k key)) [
    | inl t ↦
        let q : x ≡ name = cc (rw t at e) in
        let same : k ≡ key = text_eq_sound k key t in rw (← q) (h.0.0, sym same ∙ sym h.0.1)
    | inr t ↦ by_fold-Entry v key name h.1 (rw t at e)
  ]

  add_rows-Entry :
      (v : Vocabulary) (rows : List Category)
      → All Entry v
      → All (λ (r : Category). IsListed all_rows r.name) rows
      → All Entry (add_rows u v rows)
  unfolding add_rows
  add_rows-Entry v [] hv hr = hv
  add_rows-Entry v (row ∷ rows) hv hr =
      add_rows-Entry ((fold_category u row.name, row.name) ∷ v) rows ((hr.0, refl), hv) hr.1

  IsProposed-cons :
      (p : Text) (proposed names : List Text)
      → All (λ c. IsListed all_rows c × IsProposed u proposed c) names
      → All (λ c. IsListed all_rows c × IsProposed u (p ∷ proposed) c) names
  IsProposed-cons p proposed [] h = tt
  IsProposed-cons p proposed (c ∷ names) h =
      ((h.0.0, inr h.0.1), IsProposed-cons p proposed names h.1)

  resolve_in-Entry :
      (v : Vocabulary) (proposed : List Text)
      → All Entry v
      → All (λ c. IsListed all_rows c × IsProposed u proposed c) (resolve_in u v proposed)
  unfolding resolve_in
  resolve_in-Entry v [] h = tt
  resolve_in-Entry v (p ∷ proposed) h =
      let rest = IsProposed-cons p proposed _ (resolve_in-Entry v proposed h) in
      elim (Option-cases (by_fold v (fold_category u p))) [
        | inl e ↦ rw (e, resolve_in) rest
        | inr (c, e) ↦
            let found = by_fold-Entry v _ c h e in rw (e, resolve_in) ((found.0, inl found.1), rest)
      ]

rows-IsListed :
    (all_rows rows : List Category)
    → ((n : Text) → IsListed rows n → IsListed all_rows n)
    → All (λ (r : Category). IsListed all_rows r.name) rows
rows-IsListed all_rows [] f = tt
rows-IsListed all_rows (r ∷ rows) f =
    (f r.name (inl refl), rows-IsListed all_rows rows (λ n h. f n (inr h)))

-- Whatever names an extraction proposes, those that are kept are names of rows that were listed,
-- each under the match key of a proposed name.
pub resolve-IsListed :
    (u : Unicode) (rows : List Category) (proposed : List Text)
    → All
        (λ c. IsListed rows c × IsProposed u proposed c)
        (resolve u (vocabulary_of u (ok rows)) proposed)
unfolding resolve vocabulary_of
resolve-IsListed u rows proposed =
    resolve_in-Entry u rows _ proposed
      (add_rows-Entry u rows [] rows tt (rows-IsListed rows rows (λ n h. h)))
