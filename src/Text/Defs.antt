-- ===== src/Text/Defs.antt =====
-- Go's `string` as the list of its runes, and the functions of the packages strings, unicode and
-- unicode/utf8 that the program calls. Texts that are not valid UTF-8 are not modelled.
use recipe_reader.Common.{
  ℕ, ◌+◌, Bool, true, false, ◌&&◌, ◌||◌, List, [], ◌∷◌, ◌++◌, map, Option, none, some, String, code,
  ltb, leb, ◌==◌, if◌then◌else◌, length,
}

abbrev pub Text : Type 0
Text = List ℕ

-- The runes of a literal.
abbrev pub codes : String → Text
codes String.[] = []
codes (String.◌∷◌ c s) = code c ∷ codes s

-- `s == t`
abbrev pub text_eq : Text → Text → Bool
text_eq [] [] = true
text_eq [] (d ∷ t) = false
text_eq (c ∷ s) [] = false
text_eq (c ∷ s) (d ∷ t) = (c == d) && text_eq s t

-- `s == ""`
abbrev pub is_empty : Text → Bool
is_empty [] = true
is_empty (c ∷ s) = false

-- strings.CutPrefix
abbrev pub cut_prefix : Text → Text → Option Text
cut_prefix s [] = some s
cut_prefix [] (d ∷ p) = none
cut_prefix (c ∷ s) (d ∷ p) = if c == d then cut_prefix s p else none

-- strings.HasPrefix
abbrev pub has_prefix : Text → Text → Bool
has_prefix s p = elim (cut_prefix s p) [ none ↦ false | some r ↦ true ]

-- strings.CutSuffix
abbrev pub cut_suffix : Text → Text → Option Text
cut_suffix [] p = if is_empty p then some [] else none
cut_suffix (c ∷ s) p =
    if text_eq (c ∷ s) p
    then some []
    else elim (cut_suffix s p) [ none ↦ none | some r ↦ some (c ∷ r) ]

-- strings.HasSuffix
abbrev pub has_suffix : Text → Text → Bool
has_suffix s p = elim (cut_suffix s p) [ none ↦ false | some r ↦ true ]

-- strings.TrimSuffix
abbrev pub trim_suffix : Text → Text → Text
trim_suffix s p = elim (cut_suffix s p) [ none ↦ s | some r ↦ r ]

-- unicode.IsSpace: the property White_Space.
abbrev pub is_space : ℕ → Bool
is_space c =
    (leb 9 c && leb c 13)
    || (c == 32)
    || (c == 0x85)
    || (c == 0xA0)
    || (c == 0x1680)
    || (leb 0x2000 c && leb c 0x200A)
    || (c == 0x2028)
    || (c == 0x2029)
    || (c == 0x202F)
    || (c == 0x205F)
    || (c == 0x3000)

-- unicode.IsControl: the category Cc.
abbrev pub is_control : ℕ → Bool
is_control c = ltb c 32 || (leb 0x7F c && leb c 0x9F)

-- strings.TrimLeftFunc
abbrev pub trim_left : (ℕ → Bool) → Text → Text
trim_left p [] = []
trim_left p (c ∷ s) = if p c then trim_left p s else c ∷ s

-- A rune that is put in front of what strings.TrimRightFunc leaves of the rest.
abbrev pub cons_unless : (ℕ → Bool) → ℕ → Text → Text
cons_unless p c [] = if p c then [] else c ∷ []
cons_unless p c (d ∷ r) = c ∷ d ∷ r

-- strings.TrimRightFunc
abbrev pub trim_right : (ℕ → Bool) → Text → Text
trim_right p [] = []
trim_right p (c ∷ s) = cons_unless p c (trim_right p s)

-- strings.TrimSpace
abbrev pub trim_space : Text → Text
trim_space s = trim_right is_space (trim_left is_space s)

-- A finished word joins the list of words unless it is empty.
abbrev pub flush : Text → List Text → List Text
flush [] ws = ws
flush (c ∷ w) ws = (c ∷ w) ∷ ws

-- strings.FieldsFunc from inside a word of which `w` has been read.
unfoldable pub fields_from : (ℕ → Bool) → Text → Text → List Text
fields_from p w [] = flush w []
fields_from p w (c ∷ s) = elim (p c) [
  | true ↦ flush w (fields_from p [] s)
  | false ↦ fields_from p (w ++ c ∷ []) s
]

-- strings.FieldsFunc
abbrev pub fields_func : (ℕ → Bool) → Text → List Text
fields_func p s = fields_from p [] s

-- strings.Fields
abbrev pub fields : Text → List Text
fields s = fields_func is_space s

-- strings.Join
abbrev pub join : Text → List Text → Text
join sep [] = []
join sep (w ∷ []) = w
join sep (w ∷ v ∷ ws) = w ++ (sep ++ join sep (v ∷ ws))

-- strings.Split at a separator of one rune, from inside a part of which `w` has been read.
unfoldable pub split_from : ℕ → Text → Text → List Text
split_from sep w [] = w ∷ []
split_from sep w (c ∷ s) = elim (c == sep) [
  | true ↦ w ∷ split_from sep [] s
  | false ↦ split_from sep (w ++ c ∷ []) s
]

-- strings.Split
abbrev pub split : ℕ → Text → List Text
split sep s = split_from sep [] s

-- utf8.RuneCountInString
abbrev pub rune_count : Text → ℕ
rune_count s = length s

-- The bytes of a rune in UTF-8.
abbrev pub rune_len : ℕ → ℕ
rune_len c = if ltb c 0x80 then 1 else if ltb c 0x800 then 2 else if ltb c 0x10000 then 3 else 4

-- `len(s)`
abbrev pub byte_len : Text → ℕ
byte_len [] = 0
byte_len (c ∷ s) = rune_len c + byte_len s

-- The tables of the Unicode standard that package unicode is generated from.
pub record Unicode : Type 0 where
  pub is_letter : ℕ → Bool
  pub is_digit : ℕ → Bool
  pub is_number : ℕ → Bool
  pub to_lower_rune : ℕ → ℕ

-- strings.ToLower
abbrev pub to_lower : Unicode → Text → Text
to_lower u s = map u.to_lower_rune s
