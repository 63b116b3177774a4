-- ===== src/Extraction/Rules/Soundness.antt =====
-- What the rules extractor proposes for any caption.
use recipe_reader.Common.{
  ◌≡◌, refl, ◌⊎◌, inl, inr, Bool, true, false, ◌||◌, List, [], ◌∷◌, if◌then◌else◌, any, all, All,
  arith, Bool-cases, Option-cases,
}
use recipe_reader.Text.{Text, Unicode, codes, is_empty, has_prefix, trim_space, split}
use recipe_reader.Float.{Float, FloatLaws}
use recipe_reader.Errors.{ok}
use recipe_reader.Db.Seed.{default_categories}
use recipe_reader.Extraction.Types.{ExtractedRecipe, ExtractedIngredient}
use recipe_reader.Extraction.Units.Seeded.{is_one_of}
use recipe_reader.Extraction.Categories.{
  RuleCategory, rule_categories, matching, matches_keyword, category_words, categories_for,
}
use recipe_reader.Extraction.Score.{IsFraction, clamp01-IsFraction}
use recipe_reader.Extraction.Expressions.{is_ingredients_header, is_instructions_header}
use recipe_reader.Extraction.Rules.Title.{
  or_untitled, title_from, recipe_title, clean_title, is_title_like,
}
use recipe_reader.Extraction.Rules.Ingredient.{parse_ingredient_line}
use recipe_reader.Extraction.Rules.Ingredient.Soundness.{
  IsIngredient, parse_ingredient_line-IsIngredient,
}
use recipe_reader.Extraction.Rules.Score.{confidence_for}
use recipe_reader.Extraction.Rules.{parse_lines, extract_lines, rules_extract}

module _ {F : Type 0} (u : Unicode) (fl : Float F) where
  parse_lines-IsIngredient : (lines : List Text) → All (IsIngredient fl) (parse_lines u fl lines)
  unfolding parse_lines
  parse_lines-IsIngredient [] = tt
  parse_lines-IsIngredient (line ∷ lines) = elim (Option-cases (parse_ingredient_line u fl line)) [
    | inl e ↦ rw (e, parse_lines) (parse_lines-IsIngredient lines)
    | inr (ing, e) ↦
        rw (e, parse_lines)
          (parse_ingredient_line-IsIngredient u fl line ing e, parse_lines-IsIngredient lines)
  ]

or_untitled-named : (t : Text) → is_empty (or_untitled t) ≡ false
or_untitled-named t = elim (Bool-cases (is_empty t)) [ inl e ↦ rw e refl | inr e ↦ rw e e ]

-- A title is never empty.
title_from-named :
    (u : Unicode) (fallback : Text) (lines : List Text)
    → is_empty (title_from u fallback lines) ≡ false
unfolding title_from
title_from-named u fallback [] = or_untitled-named fallback
title_from-named u fallback (raw ∷ lines) =
    let line = trim_space raw in
    let candidate = clean_title u line in
    let ih = title_from-named u fallback lines in
    elim (Bool-cases (is_empty line)) [
      | inl a ↦ rw (a, title_from) ih
      | inr a ↦ elim (Bool-cases (is_ingredients_header line || is_instructions_header line)) [
        | inl b ↦ rw (a, title_from, b) (or_untitled-named fallback)
        | inr b ↦ elim (Bool-cases (is_empty candidate || has_prefix line (codes "#"))) [
          | inl c ↦ rw (a, title_from, b, c) ih
          | inr c ↦ elim (Bool-cases (is_title_like u line candidate)) [
            | inl d ↦ rw (a, title_from, b, c, d) (ground (arith, c))
            | inr d ↦
                rw (a, title_from, b, c, d)
                  (title_from-named u (if is_empty fallback then candidate else fallback) lines)
          ]
        ]
      ]
    ]

matching-all :
    (p : Text → Bool) (words : List Text) (cs : List RuleCategory)
    → all (λ (c : RuleCategory). p c.name) cs ≡ true
    → All (λ t. p t ≡ true) (matching words cs)
unfolding matching
matching-all p words [] h = tt
matching-all p words (c ∷ cs) h = elim (Bool-cases (p c.name)) [
  | inr n ↦ cc (rw n at h)
  | inl n ↦
      elim (Bool-cases
        (any (λ keyword. any (λ word. matches_keyword word keyword) words) c.keywords)) [
          | inl m ↦ rw m (n, matching-all p words cs (rw n at h))
          | inr m ↦ rw m (matching-all p words cs (rw n at h))
        ]
]

-- What the rules propose, whatever the caption: a recipe with a name, a score from 0 to 1,
-- ingredients as `IsIngredient` describes them, and categories that every database starts with,
-- none of them for a recipe that scores nothing.
pub record IsProposal {F : Type 0} (fl : Float F) (r : ExtractedRecipe F) : Type 0 where
  pub named : is_empty r.name ≡ false
  pub scored : IsFraction fl r.confidence
  pub listed : All (IsIngredient fl) r.ingredients
  pub seeded : All (λ c. is_one_of default_categories c ≡ true) r.categories
  pub earned : (fl.lt fl.zero r.confidence ≡ true) ⊎ (r.categories ≡ [])

module _ {F : Type 0} (u : Unicode) (fl : Float F) (laws : FloatLaws fl) where
  confidence_for-IsFraction :
      (name : Text) (ings : List (ExtractedIngredient F)) (method : Text) (n : _)
      → IsFraction fl (confidence_for fl name ings method n)
  unfolding confidence_for
  confidence_for-IsFraction name ings method n = clamp01-IsFraction fl laws _

  categories-seeded :
      (b : Bool) (lines : List Text)
      → All (λ c. is_one_of default_categories c ≡ true) (if b then categories_for u lines else [])
  unfolding categories_for
  categories-seeded true lines =
      matching-all (is_one_of default_categories) (category_words u lines) rule_categories refl
  categories-seeded false lines = tt

  categories-earned :
      (b : Bool) (lines : List Text)
      → (b ≡ true) ⊎ ((if b then categories_for u lines else []) ≡ [])
  categories-earned true lines = inl refl
  categories-earned false lines = inr refl

  extract_lines-IsProposal : (lines : List Text) → IsProposal fl (extract_lines u fl lines)
  unfolding extract_lines recipe_title
  extract_lines-IsProposal lines = record {
    named = title_from-named u [] lines;
    scored = confidence_for-IsFraction _ _ _ _;
    listed = parse_lines-IsIngredient u fl _;
    seeded = categories-seeded _ lines;
    earned = categories-earned _ lines;
  }

  -- The rules extractor fails on no caption. What it proposes has a name, a score from 0 to 1,
  -- ingredients with names that are no hashtags, whose units are among those that every database
  -- starts with and of which those with neither an amount nor a unit have at most six words, and
  -- categories that every database starts with, none of them if the score is 0. The laws are those
  -- of IEEE 754.
  pub rules_extract-IsProposal :
      {W : Type 0} (caption : Text) (w : W)
      → (r : ExtractedRecipe F) × (rules_extract u fl caption w ≡ (ok r, w)) × IsProposal fl r
  unfolding rules_extract
  rules_extract-IsProposal caption w =
      let lines = split b'\n' caption in
      (extract_lines u fl lines, refl, extract_lines-IsProposal lines)
