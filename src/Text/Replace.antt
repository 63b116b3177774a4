-- ===== src/Text/Replace.antt =====
-- regexp.ReplaceAllString and FindAllString for an expression that matches no empty text. The
-- expression is a function: what is left of a text at whose beginning it matches.
use recipe_reader.Common.{ℕ, zero, suc, ◌-◌, [], ◌∷◌, ◌++◌, Option, none, some, length}
use recipe_reader.Text.Defs.{Text}

-- The texts with `skip` runes in front of them that belong to the match before.
unfoldable pub replace_from : (Text → Option Text) → Text → ℕ → Text → Text
replace_from re with_text skip [] = []
replace_from re with_text (suc skip) (c ∷ s) = replace_from re with_text skip s
replace_from re with_text zero (c ∷ s) = elim (re (c ∷ s)) [
  | none ↦ c ∷ replace_from re with_text 0 s
  | some rest ↦ with_text ++ replace_from re with_text (length s - length rest) s
]

-- ReplaceAllString
unfoldable pub replace_all : (Text → Option Text) → Text → Text → Text
unfolding replace_from
replace_all re with_text s = replace_from re with_text 0 s

-- At how many places of a text the expression matches.
abbrev pub matches : (Text → Option Text) → Text → ℕ
matches re [] = 0
matches re (c ∷ s) = elim (re (c ∷ s)) [ none ↦ matches re s | some rest ↦ suc (matches re s) ]
