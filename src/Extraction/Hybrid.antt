-- ===== src/Extraction/Hybrid.antt =====
-- internal/extraction/hybrid.go.
use recipe_reader.Common.{◌≡◌, true, false, Option, none, some, if◌then◌else◌}
use recipe_reader.Text.{Text}
use recipe_reader.Float.{Float}
use recipe_reader.World.{Context}
use recipe_reader.Errors.{Error, Result, ok, err, Sentinel, errors_is, wrap}
use recipe_reader.Extraction.Types.{ExtractedRecipe, Extractor}

pub record HybridExtractor (F W : Type 0) : Type 0 where
  pub rules : Extractor F W
  pub llm : Option (Extractor F W)
  pub threshold : F

-- `degraded := *result` with its flag set.
unfoldable pub degraded_copy : {F : Type 0} → ExtractedRecipe F → ExtractedRecipe F
degraded_copy r = record r { degraded = true }

module _ {F W : Type 0} (fl : Float F) (ctx : Context W) (h : HybridExtractor F W) where
  -- What follows an answer of the LLM extractor.
  unfoldable pub llm_answered :
      ExtractedRecipe F → Result (ExtractedRecipe F) → W → Result (ExtractedRecipe F) × W
  llm_answered weak (ok r) w = (ok r, w)
  llm_answered weak (err e) w =
      if errors_is e Sentinel.no_recipe
      then (err e, w)
      else (let cause = ctx.err w in
          elim cause.0 [
            | some c ↦ (err (wrap c), cause.1)
            | none ↦ (ok (degraded_copy weak), cause.1)
          ])

  -- What follows a recipe of the rules, with the LLM extractor if there is one.
  unfoldable pub escalated :
      Text → ExtractedRecipe F → Option (Extractor F W) → W → Result (ExtractedRecipe F) × W
  escalated caption weak none w = (ok weak, w)
  escalated caption weak (some llm) w =
      if fl.le h.threshold weak.confidence
      then (ok weak, w)
      else (let answer = llm caption w in llm_answered weak answer.0 answer.1)

  -- What follows an answer of the rules extractor.
  unfoldable pub rules_answered :
      Text → Result (ExtractedRecipe F) → W → Result (ExtractedRecipe F) × W
  rules_answered caption (err e) w = (err e, w)
  rules_answered caption (ok weak) w = escalated caption weak h.llm w

  -- `HybridExtractor.Extract`
  unfoldable pub hybrid_extract : Text → W → Result (ExtractedRecipe F) × W
  hybrid_extract caption w = let first = h.rules caption w in rules_answered caption first.0 first.1

-- The answer behind one of the LLM extractor, and the state of the world behind it.
pub data FollowsLlm {F W : Type 0} (ctx : Context W) (weak : ExtractedRecipe F)
    : Result (ExtractedRecipe F) → W → Result (ExtractedRecipe F) → Type 0 where
  found : {v : W} (r : ExtractedRecipe F) → FollowsLlm ctx weak (ok r) v (ok r)
  no_recipe :
      {v : W} (e : Error)
      → errors_is e Sentinel.no_recipe ≡ true
      → FollowsLlm ctx weak (err e) v (err e)
  cancelled :
      {v : W} (e cause : Error)
      → errors_is e Sentinel.no_recipe ≡ false
      → (ctx.err v).0 ≡ some cause
      → FollowsLlm ctx weak (err e) v (err (wrap cause))
  falls_back :
      {v : W} (e : Error)
      → errors_is e Sentinel.no_recipe ≡ false
      → (ctx.err v).0 ≡ none
      → FollowsLlm ctx weak (err e) v (ok (record weak { degraded = true }))

-- Why the hybrid extractor answers as it does. The rules are asked first, and their error is the
-- answer. Their recipe is the answer if there is no LLM or if its score reaches the threshold; only
-- otherwise is the LLM asked. Its recipe is the answer, and so is its finding that there is no
-- recipe; behind any other error of it, the answer is the error of a context that has ended, or
-- else the rules' recipe, marked as degraded.
pub data IsExplained {F W : Type 0} (fl : Float F) (ctx : Context W) (h : HybridExtractor F W)
    (caption : Text) (w : W) : Result (ExtractedRecipe F) → Type 0 where
  refused : (e : Error) → (h.rules caption w).0 ≡ err e → IsExplained fl ctx h caption w (err e)
  alone :
      (weak : ExtractedRecipe F)
      → (h.rules caption w).0 ≡ ok weak
      → h.llm ≡ none
      → IsExplained fl ctx h caption w (ok weak)
  confident :
      (weak : ExtractedRecipe F)
      → (h.rules caption w).0 ≡ ok weak
      → fl.le h.threshold weak.confidence ≡ true
      → IsExplained fl ctx h caption w (ok weak)
  asked :
      (weak : ExtractedRecipe F) (llm : Extractor F W) (answer r : Result (ExtractedRecipe F))
      → (h.rules caption w).0 ≡ ok weak
      → h.llm ≡ some llm
      → fl.le h.threshold weak.confidence ≡ false
      → (llm caption (h.rules caption w).1).0 ≡ answer
      → FollowsLlm ctx weak answer (llm caption (h.rules caption w).1).1 r
      → IsExplained fl ctx h caption w r
