-- ===== src/Repository/Recipes/Vocabulary.antt =====
-- `resolveLookups` of internal/repository/recipe_repository.go when no call fails: every name has a
-- row, and no row is lost.
use recipe_reader.Common.{
  ℕ, ◌+◌, ◌≡◌, refl, ◌∙◌, inl, inr, Bool, true, List, [], ◌∷◌, ◌++◌, some, ◌==◌, any-append-left,
  any-append-right, equal_refl, Bool-cases, Option-cases, or_true,
}
use recipe_reader.Text.{Text}
use recipe_reader.Errors.{wrap, ok}
use recipe_reader.Db.Store.{NamedRow, Session, Action, ◌>>=◌, pure, map_error, find, has_id}
use recipe_reader.Db.Statements.{
  is_named, new_row, find_or_create_unit, find_or_create_category, find_or_create_ingredient,
}
use recipe_reader.Repository.Reads.Clear.{call-clear, bind-clear, map_error-clear}

-- An action that returns a value, in a session in which still no call is to fail.
pub record Returns {F A : Type 0} (Q : A → Session F → Type 0) (m : Action F A) (s : Session F)
    : Type 0 where
  pub value : A
  pub after : Session F
  pub result : m s ≡ (ok value, after)
  pub clear : after.faults ≡ []
  pub holds : Q value after

module _ {F A : Type 0} {Q : A → Session F → Type 0} where
  pub Returns-pure : (a : A) (s : Session F) → s.faults ≡ [] → Q a s → Returns Q (pure a) s
  unfolding pure
  Returns-pure a s c q = record { value = a; after = s; result = refl; clear = c; holds = q }

  pub Returns-map_error :
      (m : Action F A) (s : Session F) → Returns Q m s → Returns Q (map_error wrap m) s
  Returns-map_error m s h = record {
    value = h.value;
    after = h.after;
    result = map_error-clear wrap m h.value s h.after h.result;
    clear = h.clear;
    holds = h.holds;
  }

pub Returns-weaken :
    {F A : Type 0} {Q R : A → Session F → Type 0} {m : Action F A} {s : Session F}
    → ((a : A) (t : Session F) → Q a t → R a t)
    → Returns Q m s
    → Returns R m s
Returns-weaken k h = record {
  value = h.value;
  after = h.after;
  result = h.result;
  clear = h.clear;
  holds = k h.value h.after h.holds;
}

pub Returns-bind :
    {F A B : Type 0} {Q : A → Session F → Type 0} {R : B → Session F → Type 0} (m : Action F A)
    (f : A → Action F B) (s : Session F)
    → Returns Q m s
    → ((a : A) (t : Session F) → t.faults ≡ [] → Q a t → Returns R (f a) t)
    → Returns R (m >>= f) s
Returns-bind m f s h k =
    let g = k h.value h.after h.clear h.holds in
    record {
      value = g.value;
      after = g.after;
      result = bind-clear m f h.value s h.after h.result ∙ g.result;
      clear = g.clear;
      holds = g.holds;
    }

-- The lookup tables have the rows they had, and the recipes are the same.
pub record Grows {F : Type 0} (s t : Session F) : Type 0 where
  pub units : (id : ℕ) → has_id s.store.units id ≡ true → has_id t.store.units id ≡ true
  pub categories :
      (id : ℕ) → has_id s.store.categories id ≡ true → has_id t.store.categories id ≡ true
  pub ingredients :
      (id : ℕ) → has_id s.store.ingredients id ≡ true → has_id t.store.ingredients id ≡ true
  pub recipes : t.store.recipes ≡ s.store.recipes

has_id-found :
    (p : NamedRow → Bool) (rows : List NamedRow) (r : NamedRow)
    → find p rows ≡ some r
    → has_id rows r.id ≡ true
has_id-found p [] r h = cc h
has_id-found p (x ∷ xs) r h = elim (Bool-cases (p x)) [
  | inl e ↦
      let q : some x ≡ some r = rw e at h in
      let same : x ≡ r = cc q in rw (same, equal_refl r.id) refl
  | inr e ↦ rw (has_id-found p xs r (rw e at h)) (or_true (x.id == r.id))
]

has_id-new :
    (rows : List NamedRow) (id : ℕ) (name : Text) → has_id (rows ++ new_row id name ∷ []) id ≡ true
has_id-new rows id name =
    any-append-right (λ (r : NamedRow). r.id == id) rows (new_row id name ∷ [])
      (rw (equal_refl id) refl)

has_id-kept :
    (rows : List NamedRow) (row : NamedRow) (id : ℕ)
    → has_id rows id ≡ true
    → has_id (rows ++ row ∷ []) id ≡ true
has_id-kept rows row id h = any-append-left (λ (r : NamedRow). r.id == id) rows (row ∷ []) h

module _ {F : Type 0} where
  pub Grows-refl : (s : Session F) → Grows s s
  Grows-refl s = record {
    units = λ id h. h;
    categories = λ id h. h;
    ingredients = λ id h. h;
    recipes = refl;
  }

  pub Grows-trans : (s t v : Session F) → Grows s t → Grows t v → Grows s v
  Grows-trans s t v h k = record {
    units = λ id e. k.units id (h.units id e);
    categories = λ id e. k.categories id (h.categories id e);
    ingredients = λ id e. k.ingredients id (h.ingredients id e);
    recipes = k.recipes ∙ h.recipes;
  }

  abbrev with_unit : Session F → Text → Session F
  with_unit s name = record s {
    store = record (s.store) { units = s.store.units ++ new_row s.next_unit name ∷ [] };
    next_unit = s.next_unit + 1;
  }

  abbrev with_category : Session F → Text → Session F
  with_category s name = record s {
    store = record (s.store) {
      categories = s.store.categories ++ new_row s.next_category name ∷ [];
    };
    next_category = s.next_category + 1;
  }

  abbrev with_ingredient : Session F → Text → Session F
  with_ingredient s name = record s {
    store = record (s.store) {
      ingredients = s.store.ingredients ++ new_row s.next_ingredient name ∷ [];
    };
    next_ingredient = s.next_ingredient + 1;
  }

  pub find_or_create_unit-Returns :
      (name : Text) (s : Session F)
      → s.faults ≡ []
      → Returns
          (λ row t. Grows s t × (has_id t.store.units row.id ≡ true))
          (find_or_create_unit name)
          s
  unfolding find_or_create_unit
  find_or_create_unit-Returns name s c = elim (Option-cases (find (is_named name) s.store.units)) [
    | inr (r, e) ↦ record {
      value = r;
      after = s;
      result = call-clear _ s c ∙ rw e refl;
      clear = c;
      holds = (Grows-refl s, has_id-found (is_named name) s.store.units r e);
    }
    | inl e ↦ record {
      value = new_row s.next_unit name;
      after = with_unit s name;
      result = call-clear _ s c ∙ rw e refl;
      clear = c;
      holds = (
        record {
          units = λ id h. has_id-kept s.store.units (new_row s.next_unit name) id h;
          categories = λ id h. h;
          ingredients = λ id h. h;
          recipes = refl;
        },
        has_id-new s.store.units s.next_unit name,
      );
    }
  ]

  pub find_or_create_category-Returns :
      (name : Text) (s : Session F)
      → s.faults ≡ []
      → Returns
          (λ row t. Grows s t × (has_id t.store.categories row.id ≡ true))
          (find_or_create_category name)
          s
  unfolding find_or_create_category
  find_or_create_category-Returns name s c =
      elim (Option-cases (find (is_named name) s.store.categories)) [
        | inr (r, e) ↦ record {
          value = r;
          after = s;
          result = call-clear _ s c ∙ rw e refl;
          clear = c;
          holds = (Grows-refl s, has_id-found (is_named name) s.store.categories r e);
        }
        | inl e ↦ record {
          value = new_row s.next_category name;
          after = with_category s name;
          result = call-clear _ s c ∙ rw e refl;
          clear = c;
          holds = (
            record {
              units = λ id h. h;
              categories =
                  λ id h. has_id-kept s.store.categories (new_row s.next_category name) id h;
              ingredients = λ id h. h;
              recipes = refl;
            },
            has_id-new s.store.categories s.next_category name,
          );
        }
      ]

  pub find_or_create_ingredient-Returns :
      (name : Text) (s : Session F)
      → s.faults ≡ []
      → Returns
          (λ row t. Grows s t × (has_id t.store.ingredients row.id ≡ true))
          (find_or_create_ingredient name)
          s
  unfolding find_or_create_ingredient
  find_or_create_ingredient-Returns name s c =
      elim (Option-cases (find (is_named name) s.store.ingredients)) [
        | inr (r, e) ↦ record {
          value = r;
          after = s;
          result = call-clear _ s c ∙ rw e refl;
          clear = c;
          holds = (Grows-refl s, has_id-found (is_named name) s.store.ingredients r e);
        }
        | inl e ↦ record {
          value = new_row s.next_ingredient name;
          after = with_ingredient s name;
          result = call-clear _ s c ∙ rw e refl;
          clear = c;
          holds = (
            record {
              units = λ id h. h;
              categories = λ id h. h;
              ingredients =
                  λ id h. has_id-kept s.store.ingredients (new_row s.next_ingredient name) id h;
              recipes = refl;
            },
            has_id-new s.store.ingredients s.next_ingredient name,
          );
        }
      ]
