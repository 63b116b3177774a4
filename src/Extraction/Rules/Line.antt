-- ===== src/Extraction/Rules/Line.antt =====
-- The expression `ingredientLineRe`, internal/extraction/rules.go, as package regexp documents its
-- search: with backtracking, the longest run first. A continuation is the rest of the expression.
pub mod Runs
pub mod Reading
use recipe_reader.Common.{
  ℕ, Bool, true, false, ◌||◌, ◌&&◌, not, [], ◌∷◌, ◌++◌, Option, none, some, if◌then◌else◌, leb,
  ◌==◌, any,
}
use recipe_reader.Text.{Text, codes, is_empty}
use recipe_reader.Extraction.Wrap.{is_re_space}

-- The three groups; one that took no part is empty.
pub record LineMatch : Type 0 where
  pub amount : Text
  pub unit : Text
  pub rest : Text

abbrev pub Then : Type 0
Then = Text → Text → Option LineMatch

-- `p*`, with the runes that have been taken in front of the text that is left.
unfoldable pub run_of : (ℕ → Bool) → Text → Text → Then → Option LineMatch
run_of p taken [] then_do = then_do taken []
run_of p taken (c ∷ s) then_do = elim (p c) [
  | false ↦ then_do taken (c ∷ s)
  | true ↦ elim (run_of p (taken ++ c ∷ []) s then_do) [
    | some m ↦ some m
    | none ↦ then_do taken (c ∷ s)
  ]
]

-- `p+`
unfoldable pub some_of : (ℕ → Bool) → Text → Then → Option LineMatch
unfolding run_of
some_of p [] then_do = none
some_of p (c ∷ s) then_do = elim (p c) [ false ↦ none | true ↦ run_of p (c ∷ []) s then_do ]

abbrev pub is_bullet : ℕ → Bool
is_bullet c = any (λ b. c == b) (codes "-*•")

-- `\d`
abbrev pub is_ascii_digit : ℕ → Bool
is_ascii_digit c = leb b'0' c && leb c b'9'

-- `[[:alpha:]äöüÄÖÜß.]`
abbrev pub is_unit_rune : ℕ → Bool
is_unit_rune c =
    (leb b'a' c && leb c b'z') || (leb b'A' c && leb c b'Z') || any (λ b. c == b) (codes "äöüÄÖÜß.")

-- `(.+)$`
unfoldable pub match_rest : Text → Text → Text → Option LineMatch
unfolding some_of
match_rest amount unit s =
    some_of (λ c. not (c == b'\n')) s
      (λ rest left.
        if is_empty left then some (record { amount = amount; unit = unit; rest = rest }) else none)

-- `(?:([[:alpha:]äöüÄÖÜß.]+)\s+)?(.+)$`
unfoldable pub match_unit : Text → Text → Option LineMatch
unfolding match_rest some_of
match_unit amount s =
    elim (some_of is_unit_rune s
      (λ unit s'. some_of is_re_space s' (λ spaces s''. match_rest amount unit s''))) [
        | some m ↦ some m
        | none ↦ match_rest amount [] s
      ]

-- `\s*(?:([[:alpha:]äöüÄÖÜß.]+)\s+)?(.+)$`
unfoldable pub behind_amount : Text → Text → Option LineMatch
unfolding match_unit run_of
behind_amount amount s = run_of is_re_space [] s (λ spaces s'. match_unit amount s')

-- `(?:[.,]\d+)?` and what follows it, behind the digits of an amount.
unfoldable pub match_fraction : Text → Text → Option LineMatch
unfolding behind_amount some_of
match_fraction whole [] = behind_amount whole []
match_fraction whole (c ∷ s) = elim ((c == b'.') || (c == b',')) [
  | false ↦ behind_amount whole (c ∷ s)
  | true ↦ elim (some_of is_ascii_digit s (λ digits s'. behind_amount (whole ++ c ∷ digits) s')) [
    | some m ↦ some m
    | none ↦ behind_amount whole (c ∷ s)
  ]
]

-- `(\d+(?:[.,]\d+)?)?` and what follows it.
unfoldable pub match_amount : Text → Option LineMatch
unfolding match_fraction some_of
match_amount s = elim (some_of is_ascii_digit s match_fraction) [
  | some m ↦ some m
  | none ↦ behind_amount [] s
]

-- `\s*` and what follows it, behind the bullet or its place.
unfoldable pub behind_bullet : Text → Option LineMatch
unfolding match_amount run_of
behind_bullet s = run_of is_re_space [] s (λ spaces s'. match_amount s')

-- `[-*•]?` and what follows it.
unfoldable pub match_bullet : Text → Option LineMatch
unfolding behind_bullet
match_bullet [] = behind_bullet []
match_bullet (c ∷ s) = elim (is_bullet c) [
  | false ↦ behind_bullet (c ∷ s)
  | true ↦ elim (behind_bullet s) [ some m ↦ some m | none ↦ behind_bullet (c ∷ s) ]
]

-- `ingredientLineRe.FindStringSubmatch`
unfoldable pub ingredient_line : Text → Option LineMatch
unfolding match_bullet run_of
ingredient_line s = run_of is_re_space [] s (λ spaces s'. match_bullet s')
