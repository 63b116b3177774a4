-- ===== src/Extraction/Rules/Title.antt =====
-- The title of a caption, internal/extraction/rules.go.
use recipe_reader.Common.{
  ℕ, Bool, true, false, ◌||◌, not, List, [], ◌∷◌, if◌then◌else◌, ltb, ◌==◌, any,
}
use recipe_reader.Text.{
  Text, Unicode, codes, is_empty, has_prefix, has_suffix, trim_left, trim_right, trim_space,
  rune_count,
}
use recipe_reader.Extraction.Expressions.{
  is_ingredients_header, is_instructions_header, strip_tag_tail,
}

abbrev pub untitled_recipe : Text
untitled_recipe = codes "Unbenanntes Rezept"

abbrev pub max_title_runes : ℕ
max_title_runes = 60

abbrev pub min_title_runes : ℕ
min_title_runes = 3

abbrev pub or_untitled : Text → Text
or_untitled fallback = if is_empty fallback then untitled_recipe else fallback

module _ (u : Unicode) where
  -- `isTitleLike`
  unfoldable pub is_title_like : Text → Text → Bool
  is_title_like raw candidate =
      if has_prefix raw (codes "#") || has_suffix raw (codes ":")
      then false
      else if ltb (rune_count candidate) min_title_runes
          || ltb max_title_runes (rune_count candidate)
      then false
      else any u.is_letter candidate

  -- `isTitleNoise`
  unfoldable pub is_title_noise : Text → ℕ → Bool
  is_title_noise keep r =
      if u.is_letter r || u.is_digit r then false else not (any (λ k. k == r) keep)

  -- `cleanTitle`
  unfoldable pub clean_title : Text → Text
  unfolding is_title_noise
  clean_title line = trim_space (
      trim_right (is_title_noise (codes ")]}\"'“»"))
        (trim_left (is_title_noise (codes "([{\"'„«")) (strip_tag_tail (trim_space line))))

  -- The loop of `recipeTitle`, with its fallback.
  unfoldable pub title_from : Text → List Text → Text
  unfolding clean_title is_title_like
  title_from fallback [] = or_untitled fallback
  title_from fallback (raw ∷ lines) =
      let line = trim_space raw in
      let candidate = clean_title line in
      elim (is_empty line) [
        | true ↦ title_from fallback lines
        | false ↦ elim (is_ingredients_header line || is_instructions_header line) [
          | true ↦ or_untitled fallback
          | false ↦ elim (is_empty candidate || has_prefix line (codes "#")) [
            | true ↦ title_from fallback lines
            | false ↦ elim (is_title_like line candidate) [
              | true ↦ candidate
              | false ↦ title_from (if is_empty fallback then candidate else fallback) lines
            ]
          ]
        ]
      ]

  -- `recipeTitle`
  unfoldable pub recipe_title : List Text → Text
  unfolding title_from
  recipe_title lines = title_from [] lines
