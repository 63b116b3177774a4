-- ===== src/Extraction/Rules/Layout.antt =====
-- What the rules extractor makes of captions in the layout that it is written for, and of captions
-- without a section header.
use recipe_reader.Common.{
  ◌≡◌, refl, inl, inr, true, false, List, [], ◌∷◌, ◌++◌, if◌then◌else◌, All, Bool-cases, append-nil,
}
use recipe_reader.Text.{Text, Unicode, is_empty, text_eq, trim_space, join}
use recipe_reader.Float.{Float, FloatLaws}
use recipe_reader.Extraction.Expressions.{is_ingredients_header, is_instructions_header}
use recipe_reader.Extraction.Rules.Title.{untitled_recipe, recipe_title}
use recipe_reader.Extraction.Score.{clamp01}
use recipe_reader.Extraction.Rules.Score.{confidence_for, ingredient_score, instruction_score}
use recipe_reader.Extraction.Rules.{
  Section, outside, ingredients, instructions, Sections, put_line, sections_from, parse_lines,
  extract_lines,
}

-- A line that is no section header.
pub record IsPlain (line : Text) : Type 0 where
  pub no_ingredients : is_ingredients_header (trim_space line) ≡ false
  pub no_instructions : is_instructions_header (trim_space line) ≡ false

-- The lines that are not blank, trimmed.
unfoldable pub kept : List Text → List Text
kept [] = []
kept (line ∷ lines) =
    if is_empty (trim_space line) then kept lines else trim_space line ∷ kept lines

unfoldable put_lines : Section → List Text → Sections → Sections
put_lines section [] s = s
put_lines section (line ∷ lines) s = put_line section line (put_lines section lines s)

abbrev sections : List Text → List Text → Sections
sections is ms = record { ingredient_lines = is; instruction_lines = ms }

sections_from-plain :
    (section : Section) (lines rest : List Text)
    → All IsPlain lines
    → sections_from section (lines ++ rest)
      ≡ put_lines section (kept lines) (sections_from section rest)
unfolding sections_from put_lines kept
sections_from-plain section [] rest h = refl
sections_from-plain section (line ∷ lines) rest h =
    let ih = sections_from-plain section lines rest h.1 in
    elim (Bool-cases (is_empty (trim_space line))) [
      | inl e ↦ rw (h.0.no_ingredients, sections_from, h.0.no_instructions, e, ih) refl
      | inr e ↦ rw (h.0.no_ingredients, sections_from, h.0.no_instructions, e, ih) refl
    ]

put_lines-outside : (lines : List Text) (s : Sections) → put_lines outside lines s ≡ s
unfolding put_lines put_line
put_lines-outside [] s = refl
put_lines-outside (line ∷ lines) s = put_lines-outside lines s

put_lines-ingredients :
    (lines : List Text) (s : Sections)
    → put_lines ingredients lines s ≡ sections (lines ++ s.ingredient_lines) s.instruction_lines
unfolding put_lines put_line
put_lines-ingredients [] s = refl
put_lines-ingredients (line ∷ lines) s = rw (put_lines-ingredients lines s) refl

put_lines-instructions :
    (lines : List Text) (s : Sections)
    → put_lines instructions lines s ≡ sections s.ingredient_lines (lines ++ s.instruction_lines)
unfolding put_lines put_line
put_lines-instructions [] s = refl
put_lines-instructions (line ∷ lines) s = rw (put_lines-instructions lines s) refl

sections_from-ingredients :
    (section : Section) (header : Text) (rest : List Text)
    → is_ingredients_header (trim_space header) ≡ true
    → sections_from section (header ∷ rest) ≡ sections_from ingredients rest
unfolding sections_from
sections_from-ingredients section header rest h = rw (h, sections_from) refl

sections_from-instructions :
    (section : Section) (header : Text) (rest : List Text)
    → is_ingredients_header (trim_space header) ≡ false
    → is_instructions_header (trim_space header) ≡ true
    → sections_from section (header ∷ rest) ≡ sections_from instructions rest
unfolding sections_from
sections_from-instructions section header rest n h = rw (n, sections_from, h) refl

sections_from-whole :
    (section : Section) (lines : List Text)
    → All IsPlain lines
    → sections_from section lines ≡ put_lines section (kept lines) (sections [] [])
unfolding sections_from
sections_from-whole section lines h =
    rw (append-nil lines) at (sections_from-plain section lines [] h)

-- A caption in the layout: lines in front, the two headers, and the lines of the two sections.
abbrev pub layout : List Text → Text → List Text → Text → List Text → List Text
layout head ih is mh ms = head ++ (ih ∷ (is ++ (mh ∷ ms)))

sections_from-layout :
    (head is ms : List Text) (ih mh : Text)
    → All IsPlain head
    → is_ingredients_header (trim_space ih) ≡ true
    → All IsPlain is
    → is_ingredients_header (trim_space mh) ≡ false
    → is_instructions_header (trim_space mh) ≡ true
    → All IsPlain ms
    → sections_from outside (layout head ih is mh ms) ≡ sections (kept is) (kept ms)
sections_from-layout head is ms ih mh hh hi his nm hm hms =
    let tail : sections_from instructions ms ≡ sections [] (kept ms) =
      rw
        (
          sections_from-whole instructions ms hms,
          put_lines-instructions (kept ms) (sections [] []),
          append-nil (kept ms),
        )
        refl in
    rw
      (
        sections_from-plain outside head (ih ∷ (is ++ (mh ∷ ms))) hh,
        put_lines-outside (kept head) (sections_from outside (ih ∷ (is ++ (mh ∷ ms)))),
        sections_from-ingredients outside ih (is ++ (mh ∷ ms)) hi,
        sections_from-plain ingredients is (mh ∷ ms) his,
        sections_from-instructions ingredients mh ms nm hm,
        tail,
        put_lines-ingredients (kept is) (sections [] (kept ms)),
        append-nil (kept is),
      )
      refl

module _ {F : Type 0} (u : Unicode) (fl : Float F) where
  -- Of a caption in the layout that the rules are written for, some lines, a header for the
  -- ingredients, their lines, a header for the instructions and their lines, the rules read the
  -- ingredients off the lines of the first section and take the lines of the second, trimmed and
  -- without the blank ones, as the instructions.
  pub extract_lines-layout :
      (head is ms : List Text) (ih mh : Text)
      → All IsPlain head
      → is_ingredients_header (trim_space ih) ≡ true
      → All IsPlain is
      → is_ingredients_header (trim_space mh) ≡ false
      → is_instructions_header (trim_space mh) ≡ true
      → All IsPlain ms
      → ((extract_lines u fl (layout head ih is mh ms)).ingredients ≡ parse_lines u fl (kept is))
        × ((extract_lines u fl (layout head ih is mh ms)).instructions
            ≡ join (b'\n' ∷ []) (kept ms))
  unfolding extract_lines
  extract_lines-layout head is ms ih mh hh hi his nm hm hms =
      let s = sections_from-layout head is ms ih mh hh hi his nm hm hms in (rw s refl, rw s refl)

module _ {F : Type 0} (u : Unicode) (fl : Float F) (laws : FloatLaws fl) where
  no_evidence-zero : (name : Text) → confidence_for fl name [] [] 0 ≡ fl.zero
  unfolding confidence_for ingredient_score instruction_score clamp01
  no_evidence-zero name = elim (Bool-cases (text_eq name untitled_recipe)) [
    | inl e ↦
        rw
          (
            e, laws.half-zero, laws.zero-add, laws.zero-mul, laws.zero_number, laws.zero-lt-zero,
            laws.one-lt-zero,
          )
          refl
    | inr e ↦
        rw (e, laws.half-zero, laws.zero-add, laws.zero_number, laws.zero-lt-zero, laws.one-lt-zero)
          refl
  ]

  -- A caption of which no line is a section header yields no ingredients, no instructions, no
  -- categories and the score 0, whatever name it gets. The laws are those of IEEE 754.
  pub extract_lines-headless :
      (lines : List Text)
      → All IsPlain lines
      → extract_lines u fl lines ≡ record {
        name = recipe_title u lines;
        ingredients = [];
        instructions = [];
        categories = [];
        confidence = fl.zero;
        degraded = false;
      }
  unfolding extract_lines parse_lines
  extract_lines-headless lines h =
      rw
        (
          sections_from-whole outside lines h,
          put_lines-outside (kept lines) (sections [] []),
          no_evidence-zero (recipe_title u lines),
          laws.zero-lt-zero,
        )
        refl
