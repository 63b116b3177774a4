-- ===== src/Text/Tidy/Trim.antt =====
-- strings.TrimSpace of tidy texts and of their prefixes.
use recipe_reader.Common.{
  ℕ, zero, suc, ◌≤◌, ◌≡◌, refl, ◌⊎◌, inl, inr, Bool, true, false, [], ◌∷◌, arith, length, take,
  length-take,
}
use recipe_reader.Text.Defs.{Text, is_space, trim_left, trim_right, trim_space, cons_unless}
use recipe_reader.Text.Tidy.{Tidy, IsTidy}

trim_left-Tidy : (t : Text) → Tidy true t → trim_left is_space t ≡ t
trim_left-Tidy [] h = elim h [ ]
trim_left-Tidy (c ∷ t) h = rw h.0

cons_unless_word : (c : ℕ) (r : Text) → is_space c ≡ false → cons_unless is_space c r ≡ c ∷ r
cons_unless_word c [] h = rw h
cons_unless_word c (d ∷ r) h = refl

cons_unless-Tidy : (c : ℕ) (r : Text) → Tidy true r → cons_unless is_space c r ≡ c ∷ r
cons_unless-Tidy c [] h = elim h [ ]
cons_unless-Tidy c (d ∷ r) h = refl

trim_right-Tidy : (b : Bool) (t : Text) → Tidy b t → trim_right is_space t ≡ t
trim_right-Tidy true [] h = elim h [ ]
trim_right-Tidy false [] h = refl
trim_right-Tidy true (c ∷ t) h = rw (trim_right-Tidy false t h.1) (cons_unless_word c t h.0)
trim_right-Tidy false (c ∷ t) (inl h) = rw (trim_right-Tidy false t h.1) (cons_unless_word c t h.0)
trim_right-Tidy false (c ∷ t) (inr h) = rw (trim_right-Tidy true t h.1) (cons_unless-Tidy c t h.1)

-- Trimming leaves a tidy text as it is.
pub trim_space-IsTidy : (t : Text) → IsTidy t → trim_space t ≡ t
trim_space-IsTidy t (inl e) = rw e
trim_space-IsTidy t (inr h) = rw (trim_left-Tidy t h) (trim_right-Tidy true t h)

-- What is left of a prefix: nothing, or a text that is tidy in the same place.
abbrev Rest : Bool → Text → Type 0
Rest b r = (r ≡ []) ⊎ Tidy b r

Rest-word :
    (c : ℕ) (r : Text) → is_space c ≡ false → Rest false r → Tidy false (cons_unless is_space c r)
Rest-word c r h (inl e) = rw (e, h) (inl (h, tt))
Rest-word c r h (inr t) = rw (cons_unless_word c r h) (inl (h, t))

Rest-first :
    (c : ℕ) (r : Text) → is_space c ≡ false → Rest false r → Tidy true (cons_unless is_space c r)
Rest-first c r h (inl e) = rw (e, h) (h, tt)
Rest-first c r h (inr t) = rw (cons_unless_word c r h) (h, t)

Rest-space : (r : Text) → Rest true r → Rest false (cons_unless is_space 32 r)
Rest-space r (inl e) = rw e (inl refl)
Rest-space r (inr t) = rw (cons_unless-Tidy 32 r t) (inr (inr (refl, t)))

trim_right-take : (b : Bool) (n : ℕ) (t : Text) → Tidy b t → Rest b (trim_right is_space (take n t))
trim_right-take b zero t h = inl refl
trim_right-take b (suc n) [] h = inl refl
trim_right-take true (suc n) (c ∷ t) h = inr (Rest-first c _ h.0 (trim_right-take false n t h.1))
trim_right-take false (suc n) (c ∷ t) (inl h) =
    inr (Rest-word c _ h.0 (trim_right-take false n t h.1))
trim_right-take false (suc n) (c ∷ t) (inr h) = rw h.0 (Rest-space _ (trim_right-take true n t h.1))

trim_space-take_lem : (n : ℕ) (t : Text) → Tidy true t → trim_left is_space (take n t) ≡ take n t
trim_space-take_lem zero t h = refl
trim_space-take_lem (suc n) [] h = elim h [ ]
trim_space-take_lem (suc n) (c ∷ t) h = rw h.0

-- A prefix of a tidy text is tidy once it is trimmed.
pub trim_space-take-IsTidy : (n : ℕ) (t : Text) → IsTidy t → IsTidy (trim_space (take n t))
trim_space-take-IsTidy n t (inr h) = rw (trim_space-take_lem n t h) (trim_right-take true n t h)
trim_space-take-IsTidy zero t (inl e) = inl refl
trim_space-take-IsTidy (suc n) t (inl e) = rw e (inl refl)

length-trim_left-le : (p : ℕ → Bool) (s : Text) → length (trim_left p s) ≤ length s
length-trim_left-le p [] = omega arith
length-trim_left-le p (c ∷ s) = ground (arith, length-trim_left-le p s)

length-cons_unless-le :
    (p : ℕ → Bool) (c : ℕ) (r : Text) → length (cons_unless p c r) ≤ suc (length r)
length-cons_unless-le p c [] = ground arith
length-cons_unless-le p c (d ∷ r) = omega arith

length-trim_right-le : (p : ℕ → Bool) (s : Text) → length (trim_right p s) ≤ length s
length-trim_right-le p [] = omega arith
length-trim_right-le p (c ∷ s) =
    omega (arith, length-cons_unless-le p c (trim_right p s), length-trim_right-le p s)

-- Trimming never lengthens a text.
pub length-trim_space-le : (s : Text) → length (trim_space s) ≤ length s
length-trim_space-le s =
    omega
      (arith, length-trim_right-le is_space (trim_left is_space s), length-trim_left-le is_space s)

pub length-trim_space-take-le : (n : ℕ) (s : Text) → length (trim_space (take n s)) ≤ n
length-trim_space-take-le n s = omega (arith, length-trim_space-le (take n s), length-take n s)
