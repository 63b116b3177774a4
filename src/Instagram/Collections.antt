-- ===== src/Instagram/Collections.antt =====
-- `ListCollections`, `ResolveCollectionID` and the two entry points of the walk,
-- internal/instagram/saved.go. The request for the list is a parameter, and so is what the
-- response holds: an item is absent when it is not a JSON object, and a field that is missing or
-- no string is empty.
use recipe_reader.Common.{
  ◌≡◌, refl, ◌⊎◌, inl, inr, true, false, List, [], ◌∷◌, ◌++◌, Option, none, some, if◌then◌else◌,
  Bool-cases,
}
use recipe_reader.Text.{Text, codes, is_empty, text_eq}
use recipe_reader.Text.Equality.{text_eq_refl, text_eq_sound}
use recipe_reader.World.{Context}
use recipe_reader.Errors.{Error, Result, ok, err, foreign, wrap}
use recipe_reader.Instagram.Types.{SavedPost, Collection}
use recipe_reader.Instagram.Saved.{Feed, FetchOptions, page_media}

pub record CollectionApi (W Response : Type 0) : Type 0 where
  pub list_request : W → Result Response × W
  pub items : Response → List (Option Collection)

-- The loop over the items: one that is no object or has no id is left out.
unfoldable pub read_items : List (Option Collection) → List Collection
read_items [] = []
read_items (none ∷ items) = read_items items
read_items (some item ∷ items) =
    let rest = read_items items in if is_empty item.id then rest else item ∷ rest

-- The loop over the collections.
unfoldable pub find_name : Text → List Collection → Result Text
find_name name [] = err (foreign 0)
find_name name (col ∷ cols) =
    let rest = find_name name cols in if text_eq col.name name then ok col.id else rest

module _ {W Response : Type 0} (api : CollectionApi W Response) where
  -- `ListCollections`
  unfoldable pub list_collections : W → Result (List Collection) × W
  unfolding read_items
  list_collections w =
      let res = api.list_request w in
      elim res.0 [
        | err e ↦ (err (wrap e), res.1)
        | ok body ↦ (ok (read_items (api.items body)), res.1)
      ]

  unfoldable pub name_found : Text → Result (List Collection) → Result Text
  unfolding find_name
  name_found name (err e) = err e
  name_found name (ok cols) = find_name name cols

  -- `ResolveCollectionID`
  unfoldable pub resolve_name : Text → W → Result Text × W
  unfolding list_collections name_found
  resolve_name name w = let cols = list_collections w in (name_found name cols.0, cols.1)

module _ {W Raw Response : Type 0} (ctx : Context W) (feed : Feed W Raw Response)
    (o : FetchOptions W) where
  -- `FetchSavedPosts`
  unfoldable pub fetch_saved_posts : W → (List SavedPost × Option Error) × W
  fetch_saved_posts w = page_media ctx feed o (codes "feed/saved/posts/") w

  -- `FetchCollectionPosts`
  unfoldable pub fetch_collection_posts : Text → W → (List SavedPost × Option Error) × W
  fetch_collection_posts id w =
      page_media ctx feed o (codes "feed/collection/" ++ (id ++ codes "/posts/")) w

-- The items hold a collection of this name that has this id.
abbrev pub IsOffered : List (Option Collection) → Text → Text → Type 0
IsOffered [] name id = ⊥
IsOffered (none ∷ items) name id = IsOffered items name id
IsOffered (some item ∷ items) name id =
    ((item.name ≡ name) × (item.id ≡ id)) ⊎ IsOffered items name id

-- An answer to the search for a name: an id that is offered under the name and is not empty, or
-- an error when no id is.
abbrev pub IsFound : List (Option Collection) → Text → Result Text → Type 0
IsFound items name (ok id) = (is_empty id ≡ false) × IsOffered items name id
IsFound items name (err e) = (id : Text) → is_empty id ≡ false → IsOffered items name id → ⊥

IsFound-skip :
    (item : Collection) (items : List (Option Collection)) (name : Text) (r : Result Text)
    → ((is_empty item.id ≡ true) ⊎ (text_eq item.name name ≡ false))
    → IsFound items name r
    → IsFound (some item ∷ items) name r
IsFound-skip item items name (ok id) h f = (f.0, inr f.1)
IsFound-skip item items name (err e) h f = λ id ne offered. elim offered [
  | inr rest ↦ f id ne rest
  | inl (n, i) ↦ elim h [ inl e ↦ cc (rw i at e, ne) | inr t ↦ cc (rw n at t, text_eq_refl name) ]
]

IsFound-none :
    (items : List (Option Collection)) (name : Text) (r : Result Text)
    → IsFound items name r
    → IsFound (none ∷ items) name r
IsFound-none items name (ok id) f = f
IsFound-none items name (err e) f = f

find_name-IsFound :
    (items : List (Option Collection)) (name : Text)
    → IsFound items name (find_name name (read_items items))
unfolding find_name read_items
find_name-IsFound [] name = λ id h f. f
find_name-IsFound (none ∷ items) name = IsFound-none items name _ (find_name-IsFound items name)
find_name-IsFound (some item ∷ items) name = elim (Bool-cases (is_empty item.id)) [
  | inl e ↦ rw e (IsFound-skip item items name _ (inl e) (find_name-IsFound items name))
  | inr e ↦ elim (Bool-cases (text_eq item.name name)) [
    | inl t ↦ rw (e, t, find_name) (e, inl (text_eq_sound item.name name t, refl))
    | inr t ↦
        rw (e, t, find_name) (IsFound-skip item items name _ (inr t) (find_name-IsFound items name))
  ]
]

-- When the list can be read, looking up a name gives the id of a collection that the response
-- offers under exactly that name, never an empty one; and it fails only if there is none.
pub resolve_name-IsFound :
    {W Response : Type 0} (api : CollectionApi W Response) (name : Text) (w : W) (body : Response)
    → (api.list_request w).0 ≡ ok body
    → IsFound (api.items body) name (resolve_name api name w).0
unfolding resolve_name
resolve_name-IsFound api name w body e =
    rw (e, list_collections) (find_name-IsFound (api.items body) name)
