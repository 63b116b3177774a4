-- ===== src/Server/Extractors.antt =====
-- `newExtractor`, internal/server/extractor.go.
use recipe_reader.Common.{Bool, Option, none, some, if◌then◌else◌}
use recipe_reader.Text.{Text, codes, text_eq}
use recipe_reader.Float.{Float}
use recipe_reader.World.{Context}
use recipe_reader.Errors.{foreign, Result, ok, err}
use recipe_reader.Extraction.Types.{Extractor}
use recipe_reader.Extraction.Hybrid.{hybrid_extract}
use recipe_reader.Extraction.Transports.{LlmConfig}
use recipe_reader.Config.{Config, LlmSettings, llm_settings}

-- The settings, as `newLLM` passes them on.
unfoldable pub llm_config : LlmSettings → LlmConfig
llm_config s = record {
  provider = s.provider;
  api_key = s.api_key;
  model = s.model;
  base_url = s.base_url;
  timeout = s.timeout;
}

module _ {F W : Type 0} (fl : Float F) (ctx : Context W) (rules : Extractor F W)
    (new_llm_extractor : LlmConfig → Result (Extractor F W)) where
  abbrev pub hybrid : F → Option (Extractor F W) → Extractor F W
  hybrid threshold llm =
      hybrid_extract fl ctx (record { rules = rules; llm = llm; threshold = threshold })

  abbrev pub hybrid_with : F → Result (Extractor F W) → Result (Extractor F W)
  hybrid_with threshold (err e) = err e
  hybrid_with threshold (ok llm) = ok (hybrid threshold (some llm))

  abbrev pub selected : Text → F → Bool → Result (Extractor F W) → Result (Extractor F W)
  selected mode threshold has_key llm =
      if text_eq mode (codes "rule")
      then ok rules
      else if text_eq mode (codes "llm")
      then (if has_key then llm else err (foreign 0))
      else if text_eq mode (codes "hybrid")
      then (if has_key then hybrid_with threshold llm else ok (hybrid threshold none))
      else err (foreign 1)

  -- `newExtractor`
  unfoldable pub new_extractor : Config F → Result (Extractor F W)
  new_extractor cfg =
      let (settings, has_key) = llm_settings cfg.llm in
      selected cfg.extraction.mode cfg.extraction.threshold has_key
        (new_llm_extractor (llm_config settings))
