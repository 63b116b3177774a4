-- ===== src/Extraction/Expressions.antt =====
-- The expressions for section headers and hashtags, internal/extraction/rules.go and categories.go,
-- as searches without backtracking: in each of them what can follow a run of runes begins with a
-- rune that the run does not take. Without the flag s, `$` is the end of the text.
use recipe_reader.Common.{
  ℕ, ◌+◌, Bool, true, false, ◌&&◌, ◌||◌, List, [], ◌∷◌, ◌++◌, Option, none, some, if◌then◌else◌,
  ◌==◌, any,
}
use recipe_reader.Text.{Text, Unicode, codes, is_empty, trim_left, flush}
use recipe_reader.Extraction.Wrap.{is_re_space}

-- A small letter of ASCII other than k, under the flag i: s has a third case, the long s.
abbrev pub folds : ℕ → ℕ → Bool
folds l c = (c == l) || (c + 32 == l) || ((l == b's') && (c == 0x17F))

-- What is left behind a word in any case.
unfoldable pub cut_word : Text → Text → Option Text
cut_word s [] = some s
cut_word [] (l ∷ word) = none
cut_word (c ∷ s) (l ∷ word) = if folds l c then cut_word s word else none

-- `\s*`
abbrev pub skip_spaces : Text → Text
skip_spaces s = trim_left is_re_space s

-- `[:\-]?`
abbrev pub skip_mark : Text → Text
skip_mark [] = []
skip_mark (c ∷ s) = if (c == b':') || (c == b'-') then s else c ∷ s

-- `\s*[:\-]?\s*$`
unfoldable pub is_header_end : Text → Bool
is_header_end s = is_empty (skip_spaces (skip_mark (skip_spaces s)))

-- `^\s*(…)\s*[:\-]?\s*$` with a choice of words.
unfoldable pub is_header : List Text → Text → Bool
unfolding cut_word is_header_end
is_header words s =
    any (λ word. elim (cut_word (skip_spaces s) word) [ none ↦ false | some r ↦ is_header_end r ])
      words

-- `ingredientsHeaderRe`
unfoldable pub is_ingredients_header : Text → Bool
unfolding is_header
is_ingredients_header s = is_header (codes "zutaten" ∷ codes "ingredients" ∷ []) s

-- `instructionsHeaderRe`
unfoldable pub is_instructions_header : Text → Bool
unfolding is_header
is_instructions_header s =
    is_header
      (codes "zubereitung" ∷ codes "anleitung" ∷ codes "schritte" ∷ codes "instructions" ∷ []) s

-- Where a search for `(?:\s*#[^\s#]+)+\s*$` stands: before the first tag, behind a hash sign, in a
-- tag, and between two tags.
pub data TailPlace : Type 0 where
  before hash in_tag between : TailPlace

unfoldable pub is_tag_tail : TailPlace → Text → Bool
is_tag_tail before [] = false
is_tag_tail hash [] = false
is_tag_tail in_tag [] = true
is_tag_tail between [] = true
is_tag_tail before (c ∷ s) = elim (is_re_space c) [
  | true ↦ is_tag_tail before s
  | false ↦ elim (c == b'#') [ true ↦ is_tag_tail hash s | false ↦ false ]
]
is_tag_tail hash (c ∷ s) = elim (is_re_space c || (c == b'#')) [
  | true ↦ false
  | false ↦ is_tag_tail in_tag s
]
is_tag_tail in_tag (c ∷ s) = elim (is_re_space c) [
  | true ↦ is_tag_tail between s
  | false ↦ elim (c == b'#') [ true ↦ is_tag_tail hash s | false ↦ is_tag_tail in_tag s ]
]
is_tag_tail between (c ∷ s) = elim (is_re_space c) [
  | true ↦ is_tag_tail between s
  | false ↦ elim (c == b'#') [ true ↦ is_tag_tail hash s | false ↦ false ]
]

-- `hashtagTailRe.ReplaceAllString(s, "")`: a match ends with the text, so there is at most one.
unfoldable pub strip_tag_tail : Text → Text
unfolding is_tag_tail
strip_tag_tail [] = []
strip_tag_tail (c ∷ s) =
    let rest = strip_tag_tail s in if is_tag_tail before (c ∷ s) then [] else c ∷ rest

module _ (u : Unicode) where
  -- `[\p{L}\p{N}_]`
  abbrev pub is_tag_rune : ℕ → Bool
  is_tag_rune c = u.is_letter c || u.is_number c || (c == b'_')

  -- The groups of `hashtagRe.FindAllStringSubmatch(s, -1)`, from outside a tag, or from inside one
  -- of which a text has been read.
  unfoldable pub find_tags : Option Text → Text → List Text
  find_tags none [] = []
  find_tags none (c ∷ s) = elim (c == b'#') [
    | true ↦ find_tags (some []) s
    | false ↦ find_tags none s
  ]
  find_tags (some w) [] = flush w []
  find_tags (some w) (c ∷ s) = elim (is_tag_rune c) [
    | true ↦ find_tags (some (w ++ c ∷ [])) s
    | false ↦ elim (c == b'#') [
      | true ↦ flush w (find_tags (some []) s)
      | false ↦ flush w (find_tags none s)
    ]
  ]
