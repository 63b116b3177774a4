-- ===== src/Extraction/Categories.antt =====
-- internal/extraction/categories.go.
use recipe_reader.Common.{
  Bool, true, false, ◌&&◌, ◌||◌, not, List, [], ◌∷◌, ◌++◌, map, none, some, if◌then◌else◌, any,
}
use recipe_reader.Text.{
  Text, Unicode, codes, text_eq, to_lower, trim_space, fields_func, cut_prefix, cut_suffix,
  has_prefix,
}
use recipe_reader.Extraction.Expressions.{is_ingredients_header, is_instructions_header, find_tags}

-- An entry of `ruleCategories`.
pub record RuleCategory : Type 0 where
  pub name : Text
  pub keywords : List Text

-- `ruleCategories`
abbrev pub rule_categories : List RuleCategory
rule_categories =
    record {
      name = codes "Frühstück";
      keywords =
          codes "frühstück*" ∷ codes "fruehstueck*" ∷ codes "breakfast*" ∷ codes "brunch*" ∷ [];
    }
    ∷ record {
      name = codes "Hauptgericht";
      keywords =
          codes "hauptgericht*"
          ∷ codes "hauptspeise*"
          ∷ codes "mittagessen*"
          ∷ codes "abendessen*"
          ∷ [];
    }
    ∷ record {
      name = codes "Dessert";
      keywords = codes "dessert*" ∷ codes "nachtisch*" ∷ codes "nachspeise*" ∷ [];
    }
    ∷ record {
      name = codes "Vorspeise";
      keywords = codes "vorspeise*" ∷ codes "antipast*" ∷ codes "appetizer*" ∷ [];
    }
    ∷ record { name = codes "Snack"; keywords = codes "snack*" ∷ codes "fingerfood*" ∷ [] }
    ∷ record { name = codes "Vegetarisch"; keywords = codes "vegetari*" ∷ [] }
    ∷ record { name = codes "Vegan"; keywords = codes "vegan*" ∷ [] }
    ∷ record {
      name = codes "Backen";
      keywords = codes "backen*" ∷ codes "baking*" ∷ codes "kuchen*" ∷ codes "cake" ∷ [];
    }
    ∷ record {
      name = codes "Getränk";
      keywords =
          codes "getränk*"
          ∷ codes "drink*"
          ∷ codes "smoothie"
          ∷ codes "cocktail"
          ∷ codes "limonade*"
          ∷ [];
    }
    ∷ []

abbrev pub inflections : List Text
inflections =
    [] ∷ codes "e" ∷ codes "s" ∷ codes "n" ∷ codes "en" ∷ codes "er" ∷ codes "es" ∷ codes "em" ∷ []

-- `matchesKeyword`
unfoldable pub matches_keyword : Text → Text → Bool
matches_keyword word keyword = elim (cut_suffix keyword (codes "*")) [
  | some stem ↦ has_prefix word stem
  | none ↦ elim (cut_prefix word keyword) [
    | none ↦ false
    | some rest ↦ any (λ ending. text_eq ending rest) inflections
  ]
]

-- The loop over the categories.
unfoldable pub matching : List Text → List RuleCategory → List Text
unfolding matches_keyword
matching words [] = []
matching words (c ∷ cs) =
    let rest = matching words cs in
    if any (λ keyword. any (λ word. matches_keyword word keyword) words) c.keywords
    then c.name ∷ rest
    else rest

module _ (u : Unicode) where
  -- The words of a line of the head.
  abbrev pub head_words : Text → List Text
  head_words line = fields_func (λ c. not (u.is_letter c) && not (u.is_digit c)) (to_lower u line)

  -- The loop of `categoryWords`, in the head or behind it.
  unfoldable pub words_from : Bool → List Text → List Text
  words_from in_head [] = []
  words_from in_head (raw ∷ lines) =
      let line = trim_space raw in
      elim (is_ingredients_header line || is_instructions_header line) [
        | true ↦ words_from false lines
        | false ↦
            let rest = words_from in_head lines in
            if in_head
            then head_words line ++ rest
            else map (to_lower u) (find_tags u none line) ++ rest
      ]

  -- `categoryWords`
  unfoldable pub category_words : List Text → List Text
  unfolding words_from
  category_words lines = words_from true lines

  -- `categoriesFor`
  unfoldable pub categories_for : List Text → List Text
  unfolding matching category_words
  categories_for lines = matching (category_words lines) rule_categories
