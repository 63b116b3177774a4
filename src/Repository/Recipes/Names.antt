-- ===== src/Repository/Recipes/Names.antt =====
-- The rows that `resolveLookups` of internal/repository/recipe_repository.go finds or creates: each
-- has the name that was asked for, and no row is lost.
use recipe_reader.Common.{
  ℕ, ◌≡◌, refl, ap, subst, ◌∙◌, inl, inr, Bool, true, ◌&&◌, List, [], ◌∷◌, ◌++◌, some, ◌==◌, any,
  any-append-left, any-append-right, equal_refl, Bool-cases, Option-cases, or_true,
}
use recipe_reader.Text.{Text, text_eq}
use recipe_reader.Text.Equality.{text_eq_refl, text_eq_sound}
use recipe_reader.Db.Store.{NamedRow, Store, Session, find}
use recipe_reader.Db.Store.Post.{Post, returns, Alike, Post-call}
use recipe_reader.Db.Statements.{
  is_named, new_row, find_or_create_unit, find_or_create_category, find_or_create_ingredient,
}

-- A row with the id and the name is in the table.
abbrev pub has_row : List NamedRow → ℕ → Text → Bool
has_row rows id name = any (λ (r : NamedRow). (r.id == id) && text_eq r.name name) rows

-- No row of the lookup tables is lost.
pub record KeepsNames {F : Type 0} (s t : Store F) : Type 0 where
  pub units : (id : ℕ) (n : Text) → has_row s.units id n ≡ true → has_row t.units id n ≡ true
  pub categories :
      (id : ℕ) (n : Text) → has_row s.categories id n ≡ true → has_row t.categories id n ≡ true
  pub ingredients :
      (id : ℕ) (n : Text) → has_row s.ingredients id n ≡ true → has_row t.ingredients id n ≡ true

pub find-holds {ℓ} :
    {A : Type ℓ} (p : A → Bool) (xs : List A) (x : A) → find p xs ≡ some x → p x ≡ true
find-holds p [] x h = cc h
find-holds p (y ∷ ys) x h = elim (Bool-cases (p y)) [
  | inl e ↦ let q : some y ≡ some x = rw e at h in cc (q, e)
  | inr e ↦ find-holds p ys x (rw e at h)
]

-- What a lookup gives: a row with that name, which is in the table.
abbrev pub IsRow : List NamedRow → Text → NamedRow → Type 0
IsRow rows name row = (row.name ≡ name) × (has_row rows row.id name ≡ true)

has_row-found :
    (name : Text) (rows : List NamedRow) (r : NamedRow)
    → find (is_named name) rows ≡ some r
    → has_row rows r.id name ≡ true
has_row-found name [] r h = cc h
has_row-found name (x ∷ xs) r h = elim (Bool-cases (is_named name x)) [
  | inl e ↦
      let q : some x ≡ some r = rw e at h in
      let same : x ≡ r = cc q in
      let e' : text_eq r.name name ≡ true =
        subst (λ (y : NamedRow). text_eq y.name name ≡ true) same e in
      rw (same, equal_refl r.id, e') refl
  | inr e ↦
      rw (has_row-found name xs r (rw e at h)) (or_true ((x.id == r.id) && text_eq x.name name))
]

IsRow-found :
    (name : Text) (rows : List NamedRow) (r : NamedRow)
    → find (is_named name) rows ≡ some r
    → IsRow rows name r
IsRow-found name rows r h =
    (text_eq_sound r.name name (find-holds (is_named name) rows r h), has_row-found name rows r h)

IsRow-new :
    (rows : List NamedRow) (id : ℕ) (name : Text)
    → IsRow (rows ++ new_row id name ∷ []) name (new_row id name)
IsRow-new rows id name = (
  refl,
  any-append-right (λ (r : NamedRow). (r.id == id) && text_eq r.name name) rows
      (new_row id name ∷ []) (rw (equal_refl id, text_eq_refl name) refl),
)

has_row-kept :
    (rows : List NamedRow) (row : NamedRow) (id : ℕ) (name : Text)
    → has_row rows id name ≡ true
    → has_row (rows ++ row ∷ []) id name ≡ true
has_row-kept rows row id name h =
    any-append-left (λ (r : NamedRow). (r.id == id) && text_eq r.name name) rows (row ∷ []) h

-- The tables of the recipes are the same, and no name is lost.
pub record SameRecipes {F : Type 0} (s t : Session F) : Type 0 where
  pub recipes : t.store.recipes ≡ s.store.recipes
  pub lines : t.store.lines ≡ s.store.lines
  pub filed : t.store.filed ≡ s.store.filed
  pub names : KeepsNames (s.store) (t.store)

module _ {F : Type 0} where
  pub KeepsNames-refl : (s : Store F) → KeepsNames s s
  KeepsNames-refl s = record {
    units = λ id n h. h;
    categories = λ id n h. h;
    ingredients = λ id n h. h;
  }

  pub KeepsNames-trans : (s t v : Store F) → KeepsNames s t → KeepsNames t v → KeepsNames s v
  KeepsNames-trans s t v h k = record {
    units = λ id n e. k.units id n (h.units id n e);
    categories = λ id n e. k.categories id n (h.categories id n e);
    ingredients = λ id n e. k.ingredients id n (h.ingredients id n e);
  }

  pub SameRecipes-refl : (s : Session F) → SameRecipes s s
  SameRecipes-refl s = record {
    recipes = refl;
    lines = refl;
    filed = refl;
    names = KeepsNames-refl (s.store);
  }

  pub SameRecipes-trans : (s t v : Session F) → SameRecipes s t → SameRecipes t v → SameRecipes s v
  SameRecipes-trans s t v h k = record {
    recipes = k.recipes ∙ h.recipes;
    lines = k.lines ∙ h.lines;
    filed = k.filed ∙ h.filed;
    names = KeepsNames-trans (s.store) (t.store) (v.store) h.names k.names;
  }

  pub KeepsNames-Alike : (s t : Session F) → Alike s t → KeepsNames (s.store) (t.store)
  KeepsNames-Alike s t h =
      subst (λ (st : Store F). KeepsNames st (t.store)) h.store (KeepsNames-refl (t.store))

  SameRecipes-Alike : (s t : Session F) → Alike s t → SameRecipes s t
  SameRecipes-Alike s t h = record {
    recipes = ap (λ st. st.recipes) h.store;
    lines = ap (λ st. st.lines) h.store;
    filed = ap (λ st. st.filed) h.store;
    names = KeepsNames-Alike s t h;
  }

  pub find_or_create_category-Leaves :
      (name : Text) (s : Session F)
      → Post
          (λ row t. SameRecipes s t × IsRow t.store.categories name row)
          (find_or_create_category name s)
  unfolding find_or_create_category
  find_or_create_category-Leaves name s = Post-call _ s λ v h.
      elim (Option-cases (find (is_named name) v.store.categories)) [
        | inr (r, e) ↦
            rw e (returns (SameRecipes-Alike s v h, IsRow-found name v.store.categories r e))
        | inl e ↦ rw e (
            returns (
              SameRecipes-trans s v _ (SameRecipes-Alike s v h) (record {
                recipes = refl;
                lines = refl;
                filed = refl;
                names = record {
                  units = λ id n k. k;
                  categories = λ id n k.
                      has_row-kept v.store.categories (new_row v.next_category name) id n k;
                  ingredients = λ id n k. k;
                };
              }),
              IsRow-new v.store.categories v.next_category name,
            ))
      ]

  pub find_or_create_ingredient-Leaves :
      (name : Text) (s : Session F)
      → Post
          (λ row t. SameRecipes s t × IsRow t.store.ingredients name row)
          (find_or_create_ingredient name s)
  unfolding find_or_create_ingredient
  find_or_create_ingredient-Leaves name s = Post-call _ s λ v h.
      elim (Option-cases (find (is_named name) v.store.ingredients)) [
        | inr (r, e) ↦
            rw e (returns (SameRecipes-Alike s v h, IsRow-found name v.store.ingredients r e))
        | inl e ↦ rw e (
            returns (
              SameRecipes-trans s v _ (SameRecipes-Alike s v h) (record {
                recipes = refl;
                lines = refl;
                filed = refl;
                names = record {
                  units = λ id n k. k;
                  categories = λ id n k. k;
                  ingredients = λ id n k.
                      has_row-kept v.store.ingredients (new_row v.next_ingredient name) id n k;
                };
              }),
              IsRow-new v.store.ingredients v.next_ingredient name,
            ))
      ]

  pub find_or_create_unit-Leaves :
      (name : Text) (s : Session F)
      → Post (λ row t. SameRecipes s t × IsRow t.store.units name row) (find_or_create_unit name s)
  unfolding find_or_create_unit
  find_or_create_unit-Leaves name s = Post-call _ s λ v h.
      elim (Option-cases (find (is_named name) v.store.units)) [
        | inr (r, e) ↦ rw e (returns (SameRecipes-Alike s v h, IsRow-found name v.store.units r e))
        | inl e ↦ rw e (
            returns (
              SameRecipes-trans s v _ (SameRecipes-Alike s v h) (record {
                recipes = refl;
                lines = refl;
                filed = refl;
                names = record {
                  units = λ id n k. has_row-kept v.store.units (new_row v.next_unit name) id n k;
                  categories = λ id n k. k;
                  ingredients = λ id n k. k;
                };
              }),
              IsRow-new v.store.units v.next_unit name,
            ))
      ]
