-- ===== src/Tests/Rules.antt =====
-- internal/extraction/rules.go, units.go and categories.go at concrete captions.
use recipe_reader.Common.{
  ℕ, List, All, ◌+◌, ◌≡◌, refl, true, false, ◌++◌, ◌||◌, [], ◌∷◌, some, any, if◌then◌else◌, leb,
  ◌&&◌, ◌==◌,
}
use recipe_reader.Text.{Text, Unicode, codes, join, trim_space, fields_from, split_from, split}
use recipe_reader.Extraction.Units.{is_known_unit, normalize_unit, normalize_key, find_alias}
use recipe_reader.Extraction.Rules.Ingredient.{parse_ingredient_line}
use recipe_reader.Extraction.Rules.Line.{ingredient_line}
use recipe_reader.Extraction.Rules.{parse_lines, extract_lines, rules_extract}
use recipe_reader.Extraction.Rules.Soundness.{IsProposal, rules_extract-IsProposal}
use recipe_reader.Extraction.Rules.Layout.{IsPlain, kept, layout, extract_lines-layout}
use recipe_reader.Extraction.Rules.Line.Reading.{line_of}
use recipe_reader.Extraction.Rules.Ingredient.Reading.{decimal, parse_ingredient_line-reads}
use recipe_reader.Extraction.Types.{ExtractedRecipe}
use recipe_reader.Errors.{ok}
use recipe_reader.Extraction.Rules.Title.{recipe_title}
use recipe_reader.Extraction.Rules.Score.{confidence_for}
use recipe_reader.Extraction.Expressions.{
  is_header, is_header_end, cut_word, is_ingredients_header, is_instructions_header, strip_tag_tail,
  find_tags,
}
use recipe_reader.Extraction.Score.{clamp01, with_amounts}
use recipe_reader.Extraction.Categories.{categories_for}
use recipe_reader.Tests.Simulation.{hundredths, hundredths-FloatLaws, empty_sim}

-- The letters of ASCII and German.
abbrev german : Unicode
german = record {
  is_letter = λ c.
      (leb b'a' c && leb c b'z')
      || (leb b'A' c && leb c b'Z')
      || any (λ l. l == c) (codes "äöüÄÖÜß");
  is_digit = λ c. leb b'0' c && leb c b'9';
  is_number = λ c. leb b'0' c && leb c b'9';
  to_lower_rune =
      λ c. if (leb b'A' c && leb c b'Z') || any (λ l. l == c) (codes "ÄÖÜ") then c + 32 else c;
}

abbrev bread : Text
bread =
    codes
      "Omas Brot 🍞 #backen\n\nZutaten:\n300 g Mehl\n🥥 2 EL Öl.\n- Salz\n\nZubereitung:\nAlles mischen.\n 40 Minuten vegan backen. #vegan\n"

bread_runs : extract_lines german hundredths (split b'\n' bread) ≡ record {
  name = codes "Omas Brot";
  ingredients =
      record { name = codes "Mehl"; amount = 30000; unit = codes "g" }
      ∷ record { name = codes "Öl"; amount = 200; unit = codes "EL" }
      ∷ record { name = codes "Salz"; amount = 0; unit = [] }
      ∷ [];
  instructions = codes "Alles mischen.\n40 Minuten vegan backen. #vegan";
  categories = codes "Vegan" ∷ codes "Backen" ∷ [];
  confidence = 67;
  degraded = false;
}
unfolding extract_lines parse_ingredient_line fields_from split_from ingredient_line recipe_title
    confidence_for is_ingredients_header is_instructions_header strip_tag_tail is_known_unit
    normalize_unit normalize_key find_alias clamp01 with_amounts categories_for find_tags
bread_runs = refl

-- A line that is only a number is read as an amount and a name of one digit.
number_runs :
    parse_ingredient_line german hundredths (codes "300")
    ≡ some (record { name = codes "0"; amount = 3000; unit = [] })
unfolding parse_ingredient_line fields_from ingredient_line is_known_unit normalize_unit
    normalize_key find_alias
number_runs = refl

rules_extract-IsProposal_example :
    (r : ExtractedRecipe ℕ) × (rules_extract german hundredths bread empty_sim ≡ (ok r, empty_sim))
    × IsProposal hundredths r
rules_extract-IsProposal_example =
    rules_extract-IsProposal german hundredths hundredths-FloatLaws bread empty_sim

oil_known : is_known_unit german (codes "EL.") ≡ true
unfolding is_known_unit normalize_key find_alias
oil_known = refl

-- A line with a fraction behind a comma, an emoji in front and a unit with a full stop.
parse_ingredient_line-reads_example :
    parse_ingredient_line german hundredths
      (codes "🥥 " ++ line_of (codes "2,5") (codes "EL.") (codes "Öl (kalt)"))
    ≡ some (record {
      name = codes "Öl (kalt)";
      amount = hundredths.parse (codes "2.5");
      unit = normalize_unit german (codes "EL.");
    })
parse_ingredient_line-reads_example =
    parse_ingredient_line-reads german hundredths (codes "🥥 ") (codes "2,5") (codes "2.5")
      (codes "EL.") (codes "Öl (kalt)") (λ c h. h) (refl, (refl, tt))
      (decimal {w = codes "2"} {f = codes "5"} b','
        (record { first = b'2'; others = []; shape = refl; members = (refl, tt) }) refl
        (record { first = b'5'; others = []; shape = refl; members = (refl, tt) }) (codes "2,5")
        (codes "2.5") refl refl)
      (record {
        first = b'E';
        others = codes "L.";
        shape = refl;
        members = (refl, (refl, (refl, tt)));
      })
      oil_known
      (record {
        read = record {
          first = 0xD6;
          others = codes "l (kalt)";
          shape = refl;
          unspaced = refl;
          one_line = (refl, (refl, (refl, (refl, (refl, (refl, (refl, (refl, (refl, tt)))))))));
        };
        trimmed = refl;
        unstopped = refl;
        untagged = refl;
      })

abbrev bread_head : List Text
bread_head = codes "Omas Brot" ∷ [] ∷ []

abbrev bread_lines : List Text
bread_lines = codes "300 g Mehl" ∷ codes "- Salz" ∷ []

abbrev bread_steps : List Text
bread_steps = codes " Mischen." ∷ codes "Backen. #brot" ∷ []

bread_head-IsPlain : All IsPlain bread_head
unfolding is_ingredients_header is_instructions_header is_header is_header_end cut_word
bread_head-IsPlain = (
  record { no_ingredients = refl; no_instructions = refl },
  (record { no_ingredients = refl; no_instructions = refl }, tt),
)

bread_lines-IsPlain : All IsPlain bread_lines
unfolding is_ingredients_header is_instructions_header is_header is_header_end cut_word
bread_lines-IsPlain = (
  record { no_ingredients = refl; no_instructions = refl },
  (record { no_ingredients = refl; no_instructions = refl }, tt),
)

bread_steps-IsPlain : All IsPlain bread_steps
unfolding is_ingredients_header is_instructions_header is_header is_header_end cut_word
bread_steps-IsPlain = (
  record { no_ingredients = refl; no_instructions = refl },
  (record { no_ingredients = refl; no_instructions = refl }, tt),
)

ingredients_named : is_ingredients_header (trim_space (codes "Zutaten:")) ≡ true
unfolding is_ingredients_header is_header is_header_end cut_word
ingredients_named = refl

instructions_apart : is_ingredients_header (trim_space (codes "ZUBEREITUNG -")) ≡ false
unfolding is_ingredients_header is_header is_header_end cut_word
instructions_apart = refl

instructions_named : is_instructions_header (trim_space (codes "ZUBEREITUNG -")) ≡ true
unfolding is_instructions_header is_header is_header_end cut_word
instructions_named = refl

abbrev bread_layout : List Text
bread_layout = layout bread_head (codes "Zutaten:") bread_lines (codes "ZUBEREITUNG -") bread_steps

extract_lines-layout_example :
    ((extract_lines german hundredths bread_layout).ingredients
      ≡ parse_lines german hundredths (kept bread_lines))
    × ((extract_lines german hundredths bread_layout).instructions
        ≡ join (b'\n' ∷ []) (kept bread_steps))
extract_lines-layout_example =
    extract_lines-layout german hundredths bread_head bread_lines bread_steps (codes "Zutaten:")
      (codes "ZUBEREITUNG -") bread_head-IsPlain ingredients_named bread_lines-IsPlain
      instructions_apart instructions_named bread_steps-IsPlain
