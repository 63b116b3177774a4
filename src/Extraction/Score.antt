-- ===== src/Extraction/Score.antt =====
-- `clamp01` of internal/extraction/llm.go, and the count of amounts that both scores of the package
-- make.
use recipe_reader.Common.{
  ℕ, suc, ◌≡◌, inl, inr, true, false, ◌||◌, List, [], ◌∷◌, if◌then◌else◌, Bool-cases,
}
use recipe_reader.Float.{Float, FloatLaws}
use recipe_reader.Extraction.Types.{ExtractedIngredient}

module _ {F : Type 0} (fl : Float F) where
  -- `clamp01`
  unfoldable pub clamp01 : F → F
  clamp01 v =
      if fl.is_nan v || fl.lt v fl.zero then fl.zero else if fl.lt fl.one v then fl.one else v

  -- The loop that counts the ingredients with an amount.
  unfoldable pub with_amounts : List (ExtractedIngredient F) → ℕ
  with_amounts [] = 0
  with_amounts (ing ∷ ings) =
      let rest = with_amounts ings in if fl.lt fl.zero ing.amount then suc rest else rest

-- A number from 0 to 1.
pub record IsFraction {F : Type 0} (fl : Float F) (v : F) : Type 0 where
  pub number : fl.is_nan v ≡ false
  pub lower : fl.le fl.zero v ≡ true
  pub upper : fl.le v fl.one ≡ true

module _ {F : Type 0} (fl : Float F) (laws : FloatLaws fl) where
  pub zero-IsFraction : IsFraction fl fl.zero
  zero-IsFraction = record {
    number = laws.zero_number;
    lower = laws.le_refl fl.zero laws.zero_number;
    upper = laws.zero-le-one;
  }

  one-IsFraction : IsFraction fl fl.one
  one-IsFraction = record {
    number = laws.one_number;
    lower = laws.zero-le-one;
    upper = laws.le_refl fl.one laws.one_number;
  }

  -- Whatever the score, NaN included, the clamped one is a number from 0 to 1.
  pub clamp01-IsFraction : (v : F) → IsFraction fl (clamp01 fl v)
  unfolding clamp01
  clamp01-IsFraction v = elim (Bool-cases (fl.is_nan v)) [
    | inl n ↦ rw n zero-IsFraction
    | inr n ↦ elim (Bool-cases (fl.lt v fl.zero)) [
      | inl l ↦ rw (n, l) zero-IsFraction
      | inr l ↦ elim (Bool-cases (fl.lt fl.one v)) [
        | inl g ↦ rw (n, l, g) one-IsFraction
        | inr g ↦
            rw (n, l, g)
              (record {
                number = n;
                lower = laws.le_of_not_lt v fl.zero n laws.zero_number l;
                upper = laws.le_of_not_lt fl.one v laws.one_number n g;
              })
      ]
    ]
  ]
