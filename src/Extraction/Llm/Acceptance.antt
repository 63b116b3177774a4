-- ===== src/Extraction/Llm/Acceptance.antt =====
-- What an answer of the model has to have before it becomes a recipe.
use recipe_reader.Common.{
  ◌<◌, ◌≡◌, refl, subst, inl, inr, true, false, ◌||◌, List, ◌==◌, length, Bool-cases, arith,
}
use recipe_reader.Text.{Text, is_empty, text_eq, trim_space}
use recipe_reader.Float.{Float, FloatLaws}
use recipe_reader.Errors.{Error, Result, Result-cases, ok, err}
use recipe_reader.Extraction.Types.{ExtractedRecipe, ExtractedIngredient}
use recipe_reader.Extraction.Caption.{cap_caption}
use recipe_reader.Extraction.Wrap.{wrap_caption}
use recipe_reader.Extraction.Score.{clamp01, IsFraction, zero-IsFraction, clamp01-IsFraction}
use recipe_reader.Extraction.Llm.{
  ToolInput, no_recipe_sentinel, structural_confidence, scored, read_tool_input, tool_called,
  parse_tool_input, llm_extract,
}

-- The recipe has what the model wrote, with ingredients and a method, and a score above 0 that is
-- at most 1, what the model said of itself and what the recipe's structure is worth.
pub record IsAccepted {F : Type 0} (fl : Float F) (parsed : ToolInput F) (r : ExtractedRecipe F)
    : Type 0 where
  pub name : r.name ≡ parsed.name
  pub ingredients : r.ingredients ≡ parsed.ingredients
  pub instructions : r.instructions ≡ parsed.instructions
  pub categories : r.categories ≡ parsed.categories
  pub some_ingredients : 0 < length parsed.ingredients
  pub some_method : is_empty (trim_space parsed.instructions) ≡ false
  pub unmarked : text_eq parsed.instructions no_recipe_sentinel ≡ false
  pub positive : fl.lt fl.zero r.confidence ≡ true
  pub at_most_one : fl.le r.confidence fl.one ≡ true
  pub reported : fl.le r.confidence (clamp01 fl parsed.confidence) ≡ true
  pub structured :
      fl.le r.confidence (structural_confidence fl parsed.instructions parsed.ingredients) ≡ true

-- The recipe with what the model wrote, at a score.
abbrev recipe_of : {F : Type 0} → ToolInput F → F → ExtractedRecipe F
recipe_of p c = record {
  name = p.name;
  ingredients = p.ingredients;
  instructions = p.instructions;
  categories = p.categories;
  confidence = c;
  degraded = false;
}

module _ {F : Type 0} (fl : Float F) (laws : FloatLaws fl) where
  structural_confidence-IsFraction :
      (t : Text) (ings : List (ExtractedIngredient F))
      → IsFraction fl (structural_confidence fl t ings)
  unfolding structural_confidence
  structural_confidence-IsFraction t ings =
      elim (Bool-cases ((length ings == 0) || is_empty (trim_space t))) [
        | inl e ↦ rw e (zero-IsFraction fl laws)
        | inr e ↦ rw e (clamp01-IsFraction fl laws _)
      ]

  -- A score that is no more than nothing is no score.
  min-le-zero :
      (x y : F)
      → IsFraction fl x
      → IsFraction fl y
      → y ≡ fl.zero
      → fl.le (fl.min x y) fl.zero ≡ true
  min-le-zero x y hx hy e =
      subst (λ z. fl.le (fl.min x y) z ≡ true) e (laws.min-le_right x y hx.number hy.number)

  structural_confidence-zero :
      (t : Text) (ings : List (ExtractedIngredient F))
      → ((length ings == 0) || is_empty (trim_space t)) ≡ true
      → structural_confidence fl t ings ≡ fl.zero
  unfolding structural_confidence
  structural_confidence-zero t ings h = rw h refl

  scored-IsAccepted :
      (p : ToolInput F) (r : ExtractedRecipe F)
      → text_eq p.instructions no_recipe_sentinel ≡ false
      → scored fl p
          (fl.min (clamp01 fl p.confidence) (structural_confidence fl p.instructions p.ingredients))
        ≡ ok r
      → IsAccepted fl p r
  unfolding scored
  scored-IsAccepted p r u h =
      let x = clamp01 fl p.confidence in
      let y = structural_confidence fl p.instructions p.ingredients in
      let hx = clamp01-IsFraction fl laws p.confidence in
      let hy = structural_confidence-IsFraction p.instructions p.ingredients in
      let n = laws.min_number x y hx.number hy.number in
      let left = laws.min-le_left x y hx.number hy.number in
      elim (Bool-cases (fl.le (fl.min x y) fl.zero)) [
        | inl e ↦ cc (rw e at h)
        | inr e ↦
            elim (Bool-cases
              ((length p.ingredients == 0) || is_empty (trim_space p.instructions))) [
                | inl z ↦ cc (e, min-le-zero x y hx hy (structural_confidence-zero _ _ z))
                | inr z ↦
                    let taken : ok (recipe_of p (fl.min x y)) ≡ ok r = rw e at h in
                    let same : recipe_of p (fl.min x y) ≡ r = cc taken in
                    subst (IsAccepted fl p) same (record {
                      name = refl;
                      ingredients = refl;
                      instructions = refl;
                      categories = refl;
                      some_ingredients = ground arith;
                      some_method = ground arith;
                      unmarked = u;
                      positive = laws.lt_of_not_le _ _ n laws.zero_number e;
                      at_most_one = laws.le_trans _ _ _ left hx.upper;
                      reported = left;
                      structured = laws.min-le_right x y hx.number hy.number;
                    })
              ]
      ]

  read_tool_input-IsAccepted :
      (p : ToolInput F) (r : ExtractedRecipe F)
      → read_tool_input fl (ok p) ≡ ok r
      → IsAccepted fl p r
  unfolding read_tool_input
  read_tool_input-IsAccepted p r h = elim (Bool-cases (text_eq p.instructions no_recipe_sentinel)) [
    | inl e ↦ cc (rw e at h)
    | inr e ↦ elim (Bool-cases (fl.le p.confidence fl.zero)) [
      | inl z ↦ cc (rw (e, z) at h)
      | inr z ↦ scored-IsAccepted p r e (rw (e, z) at h)
    ]
  ]

read_tool_input_error :
    {F : Type 0} (fl : Float F) (e : Error) (r : ExtractedRecipe F)
    → read_tool_input fl (err e) ≡ ok r
    → ⊥
unfolding read_tool_input
read_tool_input_error fl e r h = cc h

module _ {F W Raw : Type 0} (fl : Float F) (laws : FloatLaws fl)
    (unmarshal : Raw → Result (ToolInput F)) (record_recipe : Text → W → Result Raw × W) where
  -- The arguments that the transport returned and that could be decoded.
  abbrev pub Answered : Text → W → ToolInput F → Type 0
  Answered caption w p =
      (raw : Raw) × ((record_recipe (wrap_caption (cap_caption caption)) w).0 ≡ ok raw)
      × (unmarshal raw ≡ ok p)

  tool_called-IsAccepted :
      (answer : Result Raw) (r : ExtractedRecipe F)
      → tool_called fl unmarshal record_recipe answer ≡ ok r
      → (raw : Raw) × (p : ToolInput F) × (answer ≡ ok raw)
        × (unmarshal raw ≡ ok p)
        × IsAccepted fl p r
  unfolding tool_called parse_tool_input
  tool_called-IsAccepted (err e) r h = cc h
  tool_called-IsAccepted (ok raw) r h = elim (Result-cases (unmarshal raw)) [
    | inl (p, e) ↦ (raw, p, refl, e, read_tool_input-IsAccepted fl laws p r (rw e at h))
    | inr (x, e) ↦ absurd (read_tool_input_error fl x r (rw e at h))
  ]

  -- A recipe of the LLM extractor is what the model wrote in its answer to the capped and delimited
  -- caption, with ingredients and a method in it; its score is above 0 and at most 1, and at most
  -- what the model said of itself and what the recipe's structure is worth, so that a model cannot
  -- talk up a threadbare result, nor the reverse. The laws are those of IEEE 754.
  pub llm_extract-IsAccepted :
      (caption : Text) (w : W) (r : ExtractedRecipe F)
      → (llm_extract fl unmarshal record_recipe caption w).0 ≡ ok r
      → (p : ToolInput F) × Answered caption w p × IsAccepted fl p r
  unfolding llm_extract
  llm_extract-IsAccepted caption w r h =
      let a = tool_called-IsAccepted _ r h in (a.1, (a.0, a.2, a.3), a.4)
