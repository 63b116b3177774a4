-- ===== src/Repository/Reads/Pages.antt =====
-- `assemblePage` of internal/repository/recipe_repository.go against `assemble`.
use recipe_reader.Common.{
  ℕ, ◌≡◌, refl, ap, sym, subst, ==_iff, ◌∙◌, inl, inr, true, false, List, [], ◌∷◌, ◌++◌, map,
  Option, some, if◌then◌else◌, leb, ◌==◌, any, select, arith, Bool-cases, Option-cases, append-nil,
  append_assoc, sort_by, keyed, IsOrder, keyed-IsOrder, select-keyed,
}
use recipe_reader.Text.{Text}
use recipe_reader.Domain.{Category}
use recipe_reader.Db.Store.{LineRow, FiledRow, Store}
use recipe_reader.Db.Reads.{
  Locale, LineView, join_rows, named, line_key, line_le, filed_key, category_key, name_le,
  joined_line, joined_category,
}
use recipe_reader.Repository.Reads.{grouped}

module _ {A B : Type 0} where
  -- The rows of a key, in their order.
  pub grouped-select :
      (f : A → B) (m : ℕ → List B) (rows : List (ℕ × A)) (id : ℕ)
      → grouped f m rows id ≡ m id ++ map f (map (λ r. r.1) (select (λ r. r.0 == id) rows))
  unfolding grouped
  grouped-select f m [] id = sym (append-nil (m id))
  grouped-select f m (r ∷ rows) id =
      let step : ℕ → List B = λ j. if r.0 == j then m j ++ f (r.1) ∷ [] else m j in
      grouped-select f step rows id ∙ elim (Bool-cases (r.0 == id)) [
        | inl e ↦ rw e (append_assoc (m id) (f (r.1) ∷ []) _)
        | inr e ↦ rw e refl
      ]

  select-join_rows :
      (key : A → ℕ) (f : A → Option (ℕ × B)) (id : ℕ) (xs : List A)
      → ((x : A) (y : ℕ × B) → f x ≡ some y → y.0 ≡ key x)
      → select (λ r. r.0 == id) (join_rows f xs) ≡ join_rows f (select (λ x. key x == id) xs)
  unfolding join_rows
  select-join_rows key f id [] h = refl
  select-join_rows key f id (x ∷ xs) h =
      let ih = select-join_rows key f id xs h in
      elim (Option-cases (f x)) [
        | inl e ↦ elim (Bool-cases (key x == id)) [
          | inl k ↦ rw (e, join_rows, k, e) ih
          | inr k ↦ rw (e, join_rows, k) ih
        ]
        | inr (y, e) ↦ elim (Bool-cases (key x == id)) [
          | inl k ↦ rw (e, join_rows, k, ap (λ n. n == id) (h x y e) ∙ k, e) (ap (λ ys. y ∷ ys) ih)
          | inr k ↦ rw (e, join_rows, k, ap (λ n. n == id) (h x y e) ∙ k) ih
        ]
      ]

any_here :
    (k id : ℕ) (ids : List ℕ)
    → (k == id) ≡ true
    → any (λ j. id == j) ids ≡ true
    → any (λ j. k == j) ids ≡ true
any_here k id ids e h = subst (λ n. any (λ j. n == j) ids ≡ true) (sym ((==_iff k id).0 e)) h

module _ {A : Type 0} where
  -- Of the rows of some keys, those of one of them.
  select-any :
      (key : A → ℕ) (id : ℕ) (ids : List ℕ) (xs : List A)
      → any (λ j. id == j) ids ≡ true
      → select (λ x. key x == id) (select (λ x. any (λ j. key x == j) ids) xs)
        ≡ select (λ x. key x == id) xs
  select-any key id ids [] h = refl
  select-any key id ids (x ∷ xs) h = elim (Bool-cases (key x == id)) [
    | inl e ↦ rw (any_here (key x) id ids e h, e) (ap (λ ys. x ∷ ys) (select-any key id ids xs h))
    | inr e ↦ elim (Bool-cases (any (λ j. key x == j) ids)) [
      | inl a ↦ rw (a, e) (select-any key id ids xs h)
      | inr a ↦ rw (a, e) (select-any key id ids xs h)
    ]
  ]

-- The order that the database has on texts.
pub record LocaleLaws (locale : Locale) : Type 0 where
  pub total : (x y : Text) → locale.text_le x y ≡ false → locale.text_le y x ≡ true
  pub trans :
      (x y z : Text)
      → locale.text_le x y ≡ true
      → locale.text_le y z ≡ true
      → locale.text_le x z ≡ true

name_le-IsOrder : (locale : Locale) → LocaleLaws locale → IsOrder (name_le locale)
name_le-IsOrder locale laws = record {
  total = λ x y h. laws.total x.1.name y.1.name h;
  trans = λ x y z h k. laws.trans x.1.name y.1.name z.1.name h k;
}

id_le-IsOrder : {F : Type 0} → IsOrder (λ (l m : LineRow F). leb l.id m.id)
id_le-IsOrder = record { total = λ l m h. ground arith; trans = λ l m n h k. ground arith }

line_le-IsOrder : {F : Type 0} → IsOrder (line_le {F = F})
line_le-IsOrder = keyed-IsOrder (λ l. l.position) (λ l m. leb l.id m.id) id_le-IsOrder

joined_key : {B : Type 0} (x y : ℕ × B) → some x ≡ some y → x.0 ≡ y.0
joined_key x y h = cc h

module _ {F : Type 0} where
  joined_line-key :
      (st : Store F) (l : LineRow F) (y : ℕ × LineView F)
      → joined_line st l ≡ some y
      → y.0 ≡ line_key l
  unfolding joined_line
  joined_line-key st l y h = elim (Option-cases (named st.ingredients l.ingredient_id)) [
    | inl e ↦ cc (rw (e, joined_line) at h)
    | inr (i, e) ↦ sym (joined_key _ y (rw (e, joined_line) at h))
  ]

  joined_category-key :
      (st : Store F) (f : FiledRow) (y : ℕ × Category)
      → joined_category st f ≡ some y
      → y.0 ≡ filed_key f
  unfolding joined_category
  joined_category-key st f y h = elim (Option-cases (named st.categories f.category_id)) [
    | inl e ↦ cc (rw (e, joined_category) at h)
    | inr (c, e) ↦ sym (joined_key _ y (rw (e, joined_category) at h))
  ]

  -- The lines of one recipe of a page are those that are listed for it alone.
  pub page-lines :
      (st : Store F) (id : ℕ) (ids : List ℕ)
      → any (λ j. id == j) ids ≡ true
      → select
          (λ r. r.0 == id)
          (join_rows (joined_line st) (
            sort_by
              (keyed line_key line_le)
              (select (λ l. any (λ j. line_key l == j) ids) st.lines)))
        ≡ join_rows (joined_line st) (sort_by line_le (select (λ l. line_key l == id) st.lines))
  page-lines st id ids h =
      rw
        (
          select-join_rows line_key (joined_line st) id
              (sort_by (keyed line_key line_le)
                (select (λ l. any (λ j. line_key l == j) ids) st.lines))
              (joined_line-key st),
          select-keyed line_key line_le line_le-IsOrder id
              (select (λ l. any (λ j. line_key l == j) ids) st.lines),
          select-any line_key id ids st.lines h,
        )
        refl

  pub page-categories :
      (locale : Locale) (laws : LocaleLaws locale) (st : Store F) (id : ℕ) (ids : List ℕ)
      → any (λ j. id == j) ids ≡ true
      → select
          (λ r. category_key r == id)
          (sort_by (keyed category_key (name_le locale)) (
            join_rows
              (joined_category st)
              (select (λ f. any (λ j. filed_key f == j) ids) st.filed)))
        ≡ sort_by
            (name_le locale)
            (join_rows (joined_category st) (select (λ f. filed_key f == id) st.filed))
  page-categories locale laws st id ids h =
      rw
        (
          select-keyed category_key (name_le locale) (name_le-IsOrder locale laws) id (
              join_rows (joined_category st)
                (select (λ f. any (λ j. filed_key f == j) ids) st.filed)),
          select-join_rows filed_key (joined_category st) id
              (select (λ f. any (λ j. filed_key f == j) ids) st.filed) (joined_category-key st),
          select-any filed_key id ids st.filed h,
        )
        refl
