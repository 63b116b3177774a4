-- ===== src/Text/Tidy.antt =====
-- Texts in which single spaces separate words: what strings.Fields and strings.Join make of any
-- text, and what truncation and strings.TrimSpace keep.
pub mod Trim
pub mod Words
pub mod Runes
use mathlib.Core.List.{append-nil}
use recipe_reader.Common.{
  ℕ, ◌≡◌, refl, ◌⊎◌, inl, inr, Bool, true, false, List, [], ◌∷◌, ◌++◌, Bool-cases, All, All-append,
}
use recipe_reader.Text.Defs.{Text, is_space, flush, fields_from, fields, join}

-- A word: no white space in it.
abbrev pub IsWord : Text → Type 0
IsWord w = All (λ c. is_space c ≡ false) w

abbrev space : Text
space = 32 ∷ []

-- Words with one space between them; the flag says that a word has to begin here.
abbrev pub Tidy : Bool → Text → Type 0
Tidy true [] = ⊥
Tidy false [] = Unit
Tidy true (c ∷ t) = (is_space c ≡ false) × Tidy false t
Tidy false (c ∷ t) = ((is_space c ≡ false) × Tidy false t) ⊎ ((c ≡ 32) × Tidy true t)

-- A tidy text: empty, or words with one space between them.
abbrev pub IsTidy : Text → Type 0
IsTidy t = (t ≡ []) ⊎ Tidy true t

word-Tidy : (w t : Text) → IsWord w → Tidy false t → Tidy false (w ++ t)
word-Tidy [] t hw ht = ht
word-Tidy (c ∷ w) t hw ht = inl (hw.0, word-Tidy w t hw.1 ht)

first_word-Tidy : (c : ℕ) (w t : Text) → IsWord (c ∷ w) → Tidy false t → Tidy true (c ∷ (w ++ t))
first_word-Tidy c w t hw ht = (hw.0, word-Tidy w t hw.1 ht)

-- Lists of nonempty words.
abbrev IsWords : List Text → Type 0
IsWords [] = Unit
IsWords ([] ∷ ws) = ⊥
IsWords ((c ∷ w) ∷ ws) = IsWord (c ∷ w) × IsWords ws

flush-IsWords : (w : Text) (ws : List Text) → IsWord w → IsWords ws → IsWords (flush w ws)
flush-IsWords [] ws hw h = h
flush-IsWords (c ∷ w) ws hw h = (hw, h)

fields_from-IsWords : (w s : Text) → IsWord w → IsWords (fields_from is_space w s)
unfolding fields_from
fields_from-IsWords w [] hw = flush-IsWords w [] hw tt
fields_from-IsWords w (c ∷ s) hw = elim (Bool-cases (is_space c)) [
  | inl e ↦ rw (e, fields_from) (flush-IsWords w _ hw (fields_from-IsWords [] s tt))
  | inr e ↦
      rw (e, fields_from) (fields_from-IsWords (w ++ c ∷ []) s (All-append _ w (c ∷ []) hw (e, tt)))
]

join-Tidy : (w : Text) (ws : List Text) → IsWords (w ∷ ws) → Tidy true (join space (w ∷ ws))
join-Tidy [] ws h = elim h [ ]
join-Tidy (c ∷ w) [] h = rw (← append-nil w) (first_word-Tidy c w [] h.0 tt)
join-Tidy (c ∷ w) (v ∷ ws) h = first_word-Tidy c w _ h.0 (inr (refl, join-Tidy v ws h.1))

join-IsTidy : (ws : List Text) → IsWords ws → IsTidy (join space ws)
join-IsTidy [] h = inl refl
join-IsTidy (w ∷ ws) h = inr (join-Tidy w ws h)

-- Splitting any text into its words and joining them with a space gives a tidy text.
pub join-fields-IsTidy : (s : Text) → IsTidy (join space (fields s))
join-fields-IsTidy s = join-IsTidy (fields s) (fields_from-IsWords [] s tt)
