-- ===== src/Common/Sorting.antt =====
-- ORDER BY: sorting by a total order, and by a key in front of one.
use Prim.Native.Nat.{ℕ, suc}
use mathlib.Core.Path.{◌≡◌, refl, ap, ◌∙◌}
use mathlib.Core.Logic.{inl, inr}
use mathlib.Core.Bool.{Bool, true, false, ◌&&◌, ◌||◌}
use mathlib.Core.List.{List, [], ◌∷◌}
use native.Mathlib.Omega.{arith}
use recipe_reader.Common.Tests.{if◌then◌else◌, ltb, ◌==◌, Bool-cases}
use recipe_reader.Common.Lists.{All, All-weaken, length, select}

module _ {A : Type 0} (le : A → A → Bool) where
  unfoldable pub insert_by : A → List A → List A
  insert_by x [] = x ∷ []
  insert_by x (y ∷ ys) = if le x y then x ∷ y ∷ ys else y ∷ insert_by x ys

  unfoldable pub sort_by : List A → List A
  sort_by [] = []
  sort_by (x ∷ xs) = insert_by x (sort_by xs)

module _ {A : Type 0} (le : A → A → Bool) where
  length-insert_by : (x : A) (ys : List A) → length (insert_by le x ys) ≡ suc (length ys)
  unfolding insert_by
  length-insert_by x [] = refl
  length-insert_by x (y ∷ ys) = elim (Bool-cases (le x y)) [
    | inl e ↦ rw e refl
    | inr e ↦ rw e (ap suc (length-insert_by x ys))
  ]

  pub length-sort_by : (xs : List A) → length (sort_by le xs) ≡ length xs
  unfolding sort_by
  length-sort_by [] = refl
  length-sort_by (x ∷ xs) = length-insert_by x (sort_by le xs) ∙ ap suc (length-sort_by xs)

-- A test that orders any two items.
pub record IsOrder {A : Type 0} (le : A → A → Bool) : Type 0 where
  pub total : (x y : A) → le x y ≡ false → le y x ≡ true
  pub trans : (x y z : A) → le x y ≡ true → le y z ≡ true → le x z ≡ true

-- By a key, then by an order.
abbrev pub keyed : {A : Type 0} → (A → ℕ) → (A → A → Bool) → A → A → Bool
keyed key le x y = ltb (key x) (key y) || ((key x == key y) && le x y)

abbrev pub Sorted : {A : Type 0} → (A → A → Bool) → List A → Type 0
Sorted le [] = Unit
Sorted le (x ∷ xs) = All (λ y. le x y ≡ true) xs × Sorted le xs

module _ {A : Type 0} (le : A → A → Bool) (order : IsOrder le) where
  All-insert_by :
      (P : A → Type 0) (x : A) (ys : List A) → P x → All P ys → All P (insert_by le x ys)
  unfolding insert_by
  All-insert_by P x [] h k = (h, tt)
  All-insert_by P x (y ∷ ys) h k = elim (Bool-cases (le x y)) [
    | inl e ↦ rw e (h, k)
    | inr e ↦ rw e (k.0, All-insert_by P x ys h k.1)
  ]

  insert_by-Sorted : (x : A) (ys : List A) → Sorted le ys → Sorted le (insert_by le x ys)
  unfolding insert_by
  insert_by-Sorted x [] h = (tt, tt)
  insert_by-Sorted x (y ∷ ys) h = elim (Bool-cases (le x y)) [
    | inl e ↦ rw e ((e, All-weaken ys (λ z k. order.trans x y z e k) h.0), h)
    | inr e ↦
        rw e (
          All-insert_by (λ z. le y z ≡ true) x ys (order.total x y e) h.0,
          insert_by-Sorted x ys h.1,
        )
  ]

  sort_by-Sorted : (xs : List A) → Sorted le (sort_by le xs)
  unfolding sort_by
  sort_by-Sorted [] = tt
  sort_by-Sorted (x ∷ xs) = insert_by-Sorted x (sort_by le xs) (sort_by-Sorted xs)

  insert_by-least : (x : A) (ys : List A) → All (λ y. le x y ≡ true) ys → insert_by le x ys ≡ x ∷ ys
  unfolding insert_by
  insert_by-least x [] h = refl
  insert_by-least x (y ∷ ys) h = rw h.0 refl

  All-select : (P : A → Type 0) (p : A → Bool) (xs : List A) → All P xs → All P (select p xs)
  All-select P p [] h = tt
  All-select P p (x ∷ xs) h = elim (Bool-cases (p x)) [
    | inl e ↦ rw e (h.0, All-select P p xs h.1)
    | inr e ↦ rw e (All-select P p xs h.1)
  ]

  select-insert_by :
      (p : A → Bool) (x : A) (ys : List A)
      → Sorted le ys
      → select p (insert_by le x ys) ≡ (if p x then insert_by le x (select p ys) else select p ys)
  unfolding insert_by
  select-insert_by p x [] h = elim (Bool-cases (p x)) [ inl e ↦ rw e refl | inr e ↦ rw e refl ]
  select-insert_by p x (y ∷ ys) h = elim (Bool-cases (le x y)) [
    | inl e ↦
        let least : All (λ z. le x z ≡ true) (y ∷ ys) =
          (e, All-weaken ys (λ z k. order.trans x y z e k) h.0) in
        let here : insert_by le x (select p (y ∷ ys)) ≡ x ∷ select p (y ∷ ys) =
          insert_by-least x (select p (y ∷ ys))
            (All-select (λ z. le x z ≡ true) p (y ∷ ys) least) in
        rw (e, here) refl
    | inr e ↦
        let ih = select-insert_by p x ys h.1 in
        elim (Bool-cases (p x)) [
          | inl px ↦ elim (Bool-cases (p y)) [
            | inl py ↦ rw (e, px, py, e, rw px at ih) refl
            | inr py ↦ rw (e, px, py, rw px at ih) refl
          ]
          | inr px ↦ elim (Bool-cases (p y)) [
            | inl py ↦ rw (e, px, py, rw px at ih) refl
            | inr py ↦ rw (e, px, py, rw px at ih) refl
          ]
        ]
  ]

  All-sort_by : (P : A → Type 0) (xs : List A) → All P xs → All P (sort_by le xs)
  unfolding sort_by
  All-sort_by P [] h = tt
  All-sort_by P (x ∷ xs) h = All-insert_by P x (sort_by le xs) h.0 (All-sort_by P xs h.1)

  -- Sorting and selecting may change places.
  pub select-sort_by :
      (p : A → Bool) (xs : List A) → select p (sort_by le xs) ≡ sort_by le (select p xs)
  unfolding sort_by
  select-sort_by p [] = refl
  select-sort_by p (x ∷ xs) =
      let here = select-insert_by p x (sort_by le xs) (sort_by-Sorted xs) in
      elim (Bool-cases (p x)) [
        | inl e ↦ rw (here, e, select-sort_by p xs) refl
        | inr e ↦ rw (here, e) (select-sort_by p xs)
      ]

-- `keyed` on the numbers and the answers themselves.
abbrev decided : ℕ → ℕ → Bool → Bool
decided a b u = ltb a b || ((a == b) && u)

decided_total : (a b : ℕ) (u : Bool) → decided a b false ≡ false → u ≡ true → decided b a u ≡ true
decided_total a b true h e = ground arith
decided_total a b false h e = cc e

decided_apart : (a b : ℕ) (u : Bool) → decided a b true ≡ false → decided b a u ≡ true
decided_apart a b u h = ground arith

decided_trans :
    (a b c : ℕ) (u v : Bool)
    → decided a b u ≡ true
    → decided b c v ≡ true
    → (decided a c (u && v)) ≡ true
decided_trans a b c true v h k = ground arith
decided_trans a b c false v h k = ground arith

decided_weaken :
    (a b : ℕ) (u v : Bool) → (u ≡ true → v ≡ true) → decided a b u ≡ true → decided a b v ≡ true
decided_weaken a b true v f h = rw (f refl) h
decided_weaken a b false v f h = ground arith

decided_equal : (a b k : ℕ) (u : Bool) → (a == k) ≡ true → (b == k) ≡ true → decided a b u ≡ u
decided_equal a b k true h e = ground arith
decided_equal a b k false h e = ground arith

and_both : (u v : Bool) → (u && v) ≡ true → (u ≡ true) × (v ≡ true)
and_both true v h = (refl, h)
and_both false v h = cc h

module _ {A : Type 0} (key : A → ℕ) (le : A → A → Bool) (order : IsOrder le) where
  pub keyed-IsOrder : IsOrder (keyed key le)
  keyed-IsOrder = record {
    total = λ x y h. elim (Bool-cases (le x y)) [
      | inl e ↦ decided_apart (key x) (key y) (le y x) (rw e at h)
      | inr e ↦ decided_total (key x) (key y) (le y x) (rw e at h) (order.total x y e)
    ];
    trans = λ x y z h k.
        decided_weaken (key x) (key z) (le x y && le y z) (le x z)
          (λ b. let (u, v) = and_both (le x y) (le y z) b in order.trans x y z u v)
          (decided_trans (key x) (key y) (key z) (le x y) (le y z) h k);
  }

  insert_by-keyed :
      (k : ℕ) (x : A) (ys : List A)
      → (key x == k) ≡ true
      → All (λ y. (key y == k) ≡ true) ys
      → insert_by (keyed key le) x ys ≡ insert_by le x ys
  unfolding insert_by
  insert_by-keyed k x [] h a = refl
  insert_by-keyed k x (y ∷ ys) h a =
      rw (decided_equal (key x) (key y) k (le x y) h a.0, insert_by-keyed k x ys h a.1) refl

  sort_by-keyed :
      (k : ℕ) (xs : List A)
      → All (λ x. (key x == k) ≡ true) xs
      → sort_by (keyed key le) xs ≡ sort_by le xs
  unfolding sort_by
  sort_by-keyed k [] h = refl
  sort_by-keyed k (x ∷ xs) h = rw (sort_by-keyed k xs h.1) (
      insert_by-keyed k x (sort_by le xs) h.0
        (All-sort_by le order (λ y. (key y == k) ≡ true) xs h.1))

  select-All : (p : A → Bool) (xs : List A) → All (λ x. p x ≡ true) (select p xs)
  select-All p [] = tt
  select-All p (x ∷ xs) = elim (Bool-cases (p x)) [
    | inl e ↦ rw e (e, select-All p xs)
    | inr e ↦ rw e (select-All p xs)
  ]

  -- What is sorted by a key first is, for each key, sorted by the order.
  pub select-keyed :
      (k : ℕ) (xs : List A)
      → select (λ x. key x == k) (sort_by (keyed key le) xs)
        ≡ sort_by le (select (λ x. key x == k) xs)
  select-keyed k xs =
      select-sort_by (keyed key le) keyed-IsOrder (λ x. key x == k) xs
      ∙ sort_by-keyed k (select (λ x. key x == k) xs) (select-All (λ x. key x == k) xs)
