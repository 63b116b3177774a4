-- ===== src/Repository/Lookups/Seeding.antt =====
-- `Seed` of internal/db/seed.go writes nothing to a database that it has seeded.
use recipe_reader.Common.{
  ◌+◌, ◌≡◌, refl, ◌∙◌, inl, inr, true, List, [], ◌∷◌, ◌++◌, some, any, All, All-weaken, Bool-cases,
  Option-cases, any-append-left, any-append-right,
}
use recipe_reader.Text.{Text}
use recipe_reader.Text.Equality.{text_eq_refl}
use recipe_reader.Errors.{wrap, ok}
use recipe_reader.Db.Store.{NamedRow, Store, Session, pure, find}
use recipe_reader.Db.Statements.{is_named, new_row, find_or_create_unit, find_or_create_category}
use recipe_reader.Db.Seed.{default_units, default_categories, seed_units, seed_categories, seed}
use recipe_reader.Repository.Reads.Clear.{call-clear, bind-clear, map_error-clear}
use recipe_reader.Repository.Recipes.Vocabulary.{
  Returns, Returns-weaken, Returns-pure, Returns-map_error, Returns-bind,
}

-- There is a row with the name.
abbrev HasName : List NamedRow → Text → Type 0
HasName rows name = any (is_named name) rows ≡ true

find-HasName :
    (rows : List NamedRow) (name : Text)
    → HasName rows name
    → (row : NamedRow) × (find (is_named name) rows ≡ some row)
find-HasName [] name h = cc h
find-HasName (x ∷ xs) name h = elim (Bool-cases (is_named name x)) [
  | inl e ↦ (x, rw e refl)
  | inr e ↦ let (row, f) = find-HasName xs name (rw e at h) in (row, rw e f)
]

found-HasName :
    (rows : List NamedRow) (name : Text) (row : NamedRow)
    → find (is_named name) rows ≡ some row
    → HasName rows name
found-HasName [] name row h = cc h
found-HasName (x ∷ xs) name row h = elim (Bool-cases (is_named name x)) [
  | inl e ↦ rw e refl
  | inr e ↦ rw e (found-HasName xs name row (rw e at h))
]

module _ {F : Type 0} where
  -- The names that there were are there.
  record Keeps (s t : Session F) : Type 0 where
    units : (name : Text) → HasName s.store.units name → HasName t.store.units name
    categories : (name : Text) → HasName s.store.categories name → HasName t.store.categories name

  Keeps-refl : (s : Session F) → Keeps s s
  Keeps-refl s = record { units = λ n h. h; categories = λ n h. h }

  Keeps-trans : (s t v : Session F) → Keeps s t → Keeps t v → Keeps s v
  Keeps-trans s t v h k = record {
    units = λ n e. k.units n (h.units n e);
    categories = λ n e. k.categories n (h.categories n e);
  }

  find_or_create_unit-names :
      (name : Text) (s : Session F)
      → s.faults ≡ []
      → Returns (λ row t. Keeps s t × HasName t.store.units name) (find_or_create_unit name) s
  unfolding find_or_create_unit
  find_or_create_unit-names name s c = elim (Option-cases (find (is_named name) s.store.units)) [
    | inr (r, e) ↦ record {
      value = r;
      after = s;
      result = call-clear _ s c ∙ rw e refl;
      clear = c;
      holds = (Keeps-refl s, found-HasName s.store.units name r e);
    }
    | inl e ↦
        let row = new_row s.next_unit name in
        let after : Session F = record s {
          store = record (s.store) { units = s.store.units ++ row ∷ [] };
          next_unit = s.next_unit + 1;
        } in
        record {
          value = row;
          after = after;
          result = call-clear _ s c ∙ rw e refl;
          clear = c;
          holds = (
            record {
              units = λ n h. any-append-left (is_named n) s.store.units (row ∷ []) h;
              categories = λ n h. h;
            },
            any-append-right (is_named name) s.store.units (row ∷ []) (rw (text_eq_refl name) refl),
          );
        }
  ]

  find_or_create_category-names :
      (name : Text) (s : Session F)
      → s.faults ≡ []
      → Returns
          (λ row t. Keeps s t × HasName t.store.categories name)
          (find_or_create_category name)
          s
  unfolding find_or_create_category
  find_or_create_category-names name s c =
      elim (Option-cases (find (is_named name) s.store.categories)) [
        | inr (r, e) ↦ record {
          value = r;
          after = s;
          result = call-clear _ s c ∙ rw e refl;
          clear = c;
          holds = (Keeps-refl s, found-HasName s.store.categories name r e);
        }
        | inl e ↦
            let row = new_row s.next_category name in
            let after : Session F = record s {
              store = record (s.store) { categories = s.store.categories ++ row ∷ [] };
              next_category = s.next_category + 1;
            } in
            record {
              value = row;
              after = after;
              result = call-clear _ s c ∙ rw e refl;
              clear = c;
              holds = (
                record {
                  units = λ n h. h;
                  categories = λ n h. any-append-left (is_named n) s.store.categories (row ∷ []) h;
                },
                any-append-right (is_named name) s.store.categories (row ∷ [])
                    (rw (text_eq_refl name) refl),
              );
            }
      ]

  seed_units-names :
      (names : List Text) (s : Session F)
      → s.faults ≡ []
      → Returns (λ u t. Keeps s t × All (HasName t.store.units) names) (seed_units names) s
  unfolding seed_units
  seed_units-names [] s c = Returns-pure _ s c (Keeps-refl s, tt)
  seed_units-names (name ∷ names) s c =
      Returns-bind _ _ s (Returns-map_error _ s (find_or_create_unit-names name s c)) λ row t d h.
        Returns-weaken (λ u v k. (Keeps-trans s t v h.0 k.0, (k.0.units name h.1, k.1)))
          (seed_units-names names t d)

  seed_categories-names :
      (names : List Text) (s : Session F)
      → s.faults ≡ []
      → Returns
          (λ u t. Keeps s t × All (HasName t.store.categories) names)
          (seed_categories names)
          s
  unfolding seed_categories
  seed_categories-names [] s c = Returns-pure _ s c (Keeps-refl s, tt)
  seed_categories-names (name ∷ names) s c =
      Returns-bind _ _ s (Returns-map_error _ s (find_or_create_category-names name s c))
        λ row t d h.
          Returns-weaken (λ u v k. (Keeps-trans s t v h.0 k.0, (k.0.categories name h.1, k.1)))
            (seed_categories-names names t d)

  -- With the names there, the loops write nothing.
  seed_units-still :
      (names : List Text) (s : Session F)
      → s.faults ≡ []
      → All (HasName s.store.units) names
      → seed_units names s ≡ (ok tt, s)
  unfolding seed_units pure find_or_create_unit
  seed_units-still [] s c h = refl
  seed_units-still (name ∷ names) s c h =
      let (row, e) = find-HasName s.store.units name h.0 in
      bind-clear _ _ row s s (map_error-clear wrap _ row s s (call-clear _ s c ∙ rw e refl))
      ∙ seed_units-still names s c h.1

  seed_categories-still :
      (names : List Text) (s : Session F)
      → s.faults ≡ []
      → All (HasName s.store.categories) names
      → seed_categories names s ≡ (ok tt, s)
  unfolding seed_categories pure find_or_create_category
  seed_categories-still [] s c h = refl
  seed_categories-still (name ∷ names) s c h =
      let (row, e) = find-HasName s.store.categories name h.0 in
      bind-clear _ _ row s s (map_error-clear wrap _ row s s (call-clear _ s c ∙ rw e refl))
      ∙ seed_categories-still names s c h.1

  -- Every default unit and category has a row.
  abbrev pub IsSeeded : Store F → Type 0
  IsSeeded st =
      All (λ name. any (is_named name) st.units ≡ true) default_units
      × All (λ name. any (is_named name) st.categories ≡ true) default_categories

  seed-Returns : (s : Session F) → s.faults ≡ [] → Returns (λ u t. IsSeeded (t.store)) seed s
  unfolding seed
  seed-Returns s c = Returns-bind _ _ s (seed_units-names default_units s c) λ u t d h.
      Returns-weaken (λ v w k. (All-weaken default_units (λ name e. k.0.units name e) h.1, k.1))
        (seed_categories-names default_categories t d)

  seed-still : (s : Session F) → s.faults ≡ [] → IsSeeded (s.store) → seed s ≡ (ok tt, s)
  unfolding seed
  seed-still s c h =
      bind-clear _ _ tt s s (seed_units-still default_units s c h.0)
      ∙ seed_categories-still default_categories s c h.1

  -- Seeding a database returns no error, and then every default unit and category has a row, and
  -- seeding it again returns no error and changes nothing, no sequence included. The condition is
  -- that no call fails.
  pub seed-idempotent :
      (s : Session F)
      → s.faults ≡ []
      → (t : Session F) × (seed s ≡ (ok tt, t)) × IsSeeded (t.store) × (seed t ≡ (ok tt, t))
  seed-idempotent s c =
      let r = seed-Returns s c in (r.after, r.result, r.holds, seed-still r.after r.clear r.holds)
