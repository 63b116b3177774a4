-- ===== src/Extraction/Rules/Ingredient/Soundness.antt =====
-- The ingredients that the rules propose.
use recipe_reader.Common.{
  ◌≡◌, subst, inl, inr, Bool, true, false, ◌&&◌, ◌||◌, Option, none, some, ltb, length, arith,
  Bool-cases,
}
use recipe_reader.Text.{
  Text, Unicode, codes, is_empty, has_prefix, trim_left, trim_space, trim_suffix, fields,
}
use recipe_reader.Float.{Float}
use recipe_reader.Extraction.Types.{ExtractedIngredient}
use recipe_reader.Extraction.Units.{is_known_unit}
use recipe_reader.Extraction.Units.Seeded.{
  is_canonical, no_unit-is_canonical, normalize_unit-is_canonical,
}
use recipe_reader.Extraction.Rules.Line.{LineMatch, ingredient_line}
use recipe_reader.Extraction.Rules.Ingredient.{
  max_unitless_ingredient_words, amount_of, name_and_unit, checked, line_matched, is_line_noise,
  parse_ingredient_line,
}

-- An ingredient that the rules may propose.
pub record IsIngredient {F : Type 0} (fl : Float F) (ing : ExtractedIngredient F) : Type 0 where
  pub named : is_empty ing.name ≡ false
  pub untagged : has_prefix ing.name (codes "#") ≡ false
  pub canonical : is_canonical ing.unit ≡ true
  -- With neither an amount nor a unit it has at most six words.
  pub short :
      (fl.eq ing.amount fl.zero
        && is_empty ing.unit
        && ltb max_unitless_ingredient_words (length (fields ing.name)))
      ≡ false

abbrev ingredient : {F : Type 0} → Text → F → Text → ExtractedIngredient F
ingredient name amount unit = record { name = name; amount = amount; unit = unit }

-- With neither an amount nor a unit, more than six words.
abbrev too_long : {F : Type 0} → Float F → F → Text → Text → Bool
too_long fl amount unit name =
    fl.eq amount fl.zero
    && is_empty unit
    && ltb max_unitless_ingredient_words (length (fields name))

module _ {F : Type 0} (u : Unicode) (fl : Float F) where
  name_and_unit-is_canonical :
      (candidate rest : Text) → is_canonical (name_and_unit u fl candidate rest).1 ≡ true
  unfolding name_and_unit
  name_and_unit-is_canonical candidate rest = elim (Bool-cases (is_empty candidate)) [
    | inl e ↦ rw e no_unit-is_canonical
    | inr e ↦ elim (Bool-cases (is_known_unit u candidate)) [
      | inl k ↦ rw (e, k) (normalize_unit-is_canonical u candidate)
      | inr k ↦ rw (e, k) no_unit-is_canonical
    ]
  ]

  checked-IsIngredient :
      (amount : F) (unit name : Text) (ing : ExtractedIngredient F)
      → is_canonical unit ≡ true
      → checked u fl amount unit name ≡ some ing
      → IsIngredient fl ing
  unfolding checked
  checked-IsIngredient amount unit name ing c h =
      elim (Bool-cases (is_empty name || has_prefix name (codes "#"))) [
        | inl e ↦ cc (rw e at h)
        | inr e ↦ elim (Bool-cases (too_long fl amount unit name)) [
          | inl l ↦ cc (rw (e, l) at h)
          | inr l ↦
              let kept : some (ingredient name amount unit) ≡ some ing = rw (e, l) at h in
              let same : ingredient name amount unit ≡ ing = cc kept in
              subst (IsIngredient fl) same (record {
                named = ground (arith, e);
                untagged = ground (arith, e);
                canonical = c;
                short = l;
              })
        ]
      ]

  line_matched-IsIngredient :
      (m : Option LineMatch) (ing : ExtractedIngredient F)
      → line_matched u fl m ≡ some ing
      → IsIngredient fl ing
  unfolding line_matched
  line_matched-IsIngredient none ing h = cc h
  line_matched-IsIngredient (some m) ing h =
      let named = name_and_unit u fl (trim_space m.unit) (trim_space m.rest) in
      checked-IsIngredient (amount_of u fl m.amount) named.1
        (trim_space (trim_suffix named.0 (codes "."))) ing
        (name_and_unit-is_canonical (trim_space m.unit) (trim_space m.rest)) h

  pub parse_ingredient_line-IsIngredient :
      (line : Text) (ing : ExtractedIngredient F)
      → parse_ingredient_line u fl line ≡ some ing
      → IsIngredient fl ing
  unfolding parse_ingredient_line
  parse_ingredient_line-IsIngredient line ing h =
      line_matched-IsIngredient (ingredient_line (trim_left (is_line_noise u fl) line)) ing h
