-- ===== src/Extraction/Transports.antt =====
-- internal/extraction/llm_provider.go and `NewLLMExtractor` of internal/extraction/llm.go. The two
-- SDKs are parameters: a request carries what the transports set of it, and both send the prompt
-- and the schema of the program, which are not modelled.
use recipe_reader.Common.{
  ℕ, zero, suc, ◌*◌, ℤ, pos, negsuc, ◌||◌, List, [], ◌∷◌, Option, none, some, if◌then◌else◌,
}
use recipe_reader.Text.{Text, codes, is_empty, text_eq}
use recipe_reader.Float.{Float}
use recipe_reader.Errors.{foreign, wrap, Result, ok, err}
use recipe_reader.Extraction.Types.{Extractor}
use recipe_reader.Extraction.Llm.{ToolInput, llm_extract}

pub record LlmConfig : Type 0 where
  pub provider : Text
  pub api_key : Text
  pub model : Text
  pub base_url : Text
  pub timeout : ℤ

abbrev pub default_llm_model : Text
default_llm_model = codes "claude-opus-5"

-- 60 seconds
abbrev pub default_llm_timeout : ℕ
default_llm_timeout = 60 * 1_000_000_000

-- The options that an SDK's client is made with.
pub record Endpoint : Type 0 where
  pub api_key : Text
  pub base_url : Option Text

abbrev pub endpoint_of : LlmConfig → Endpoint
endpoint_of cfg = record {
  api_key = cfg.api_key;
  base_url = if is_empty cfg.base_url then none else some cfg.base_url;
}

-- `llmClient`: the endpoint and the model of a transport.
pub data LlmClient : Type 0 where
  anthropic_client openai_client : Endpoint → Text → LlmClient

-- `newAnthropicClient`
unfoldable pub new_anthropic_client : LlmConfig → LlmClient
new_anthropic_client cfg =
    anthropic_client (endpoint_of cfg) (if is_empty cfg.model then default_llm_model else cfg.model)

-- `newOpenAIClient`
unfoldable pub new_openai_client : LlmConfig → Result LlmClient
new_openai_client cfg =
    if is_empty cfg.model then err (foreign 0) else ok (openai_client (endpoint_of cfg) cfg.model)

-- `newLLMClient`
unfoldable pub new_llm_client : LlmConfig → Result LlmClient
new_llm_client cfg =
    if is_empty cfg.provider || text_eq cfg.provider (codes "anthropic")
    then ok (new_anthropic_client cfg)
    else if text_eq cfg.provider (codes "openai")
    then new_openai_client cfg
    else err (foreign 1)

-- What a request sets, beside the prompt and the schema: the caption as the user's message, under
-- a deadline, with the record_recipe tool forced.
pub record ModelRequest : Type 0 where
  pub model : Text
  pub max_tokens : ℕ
  pub temperature : ℕ
  pub user : Text
  pub tool_choice : Text
  pub timeout : ℕ

-- A block of a message: the input of a tool's use, or another one.
pub data Block (Raw : Type 0) : Type 0 where
  tool_use : Raw → Block Raw
  other_block : Block Raw

-- The calls of the SDKs; a choice of the second is the arguments of its tool calls.
pub record Sdk (Raw W : Type 0) : Type 0 where
  pub messages_new : Endpoint → ModelRequest → W → Result (List (Block Raw)) × W
  pub chat_completions_new : Endpoint → ModelRequest → W → Result (List (List Raw)) × W

-- The first block that is a tool's use.
unfoldable pub first_tool_use : {Raw : Type 0} → List (Block Raw) → Option Raw
first_tool_use [] = none
first_tool_use (tool_use raw ∷ blocks) = some raw
first_tool_use (other_block ∷ blocks) = first_tool_use blocks

-- The first tool call of the first choice.
unfoldable pub first_tool_call : {Raw : Type 0} → List (List Raw) → Option Raw
first_tool_call [] = none
first_tool_call ([] ∷ choices) = none
first_tool_call ((raw ∷ calls) ∷ choices) = some raw

-- `<= 0` is the default.
abbrev pub timeout_or_default : ℤ → ℕ
timeout_or_default (pos zero) = default_llm_timeout
timeout_or_default (pos (suc n)) = suc n
timeout_or_default (negsuc n) = default_llm_timeout

-- The request with which both transports send a caption.
abbrev pub recording : Text → ℕ → Text → ModelRequest
recording model timeout caption = record {
  model = model;
  max_tokens = 2048;
  temperature = 0;
  user = caption;
  tool_choice = codes "record_recipe";
  timeout = timeout;
}

abbrev pub picked : {Raw : Type 0} → Option Raw → Result Raw
picked none = err (foreign 2)
picked (some raw) = ok raw

abbrev pub tool_input : {A Raw W : Type 0} → (A → Option Raw) → Result A × W → Result Raw × W
tool_input pick (err e, w) = (err (wrap e), w)
tool_input pick (ok answer, w) = (picked (pick answer), w)

-- The methods `recordRecipe`
unfoldable pub record_recipe :
    {Raw W : Type 0} → Sdk Raw W → LlmClient → ℕ → Text → W → Result Raw × W
record_recipe sdk (anthropic_client at model) timeout caption w =
    tool_input first_tool_use (sdk.messages_new at (recording model timeout caption) w)
record_recipe sdk (openai_client at model) timeout caption w =
    tool_input first_tool_call (sdk.chat_completions_new at (recording model timeout caption) w)

module _ {F Raw W : Type 0} (sdk : Sdk Raw W) (fl : Float F)
    (unmarshal : Raw → Result (ToolInput F)) where
  abbrev pub extractor_over : ℕ → Result LlmClient → Result (Extractor F W)
  extractor_over timeout (err e) = err e
  extractor_over timeout (ok client) =
      ok (llm_extract fl unmarshal (record_recipe sdk client timeout))

  -- `NewLLMExtractor`
  unfoldable pub new_llm_extractor : LlmConfig → Result (Extractor F W)
  new_llm_extractor cfg = extractor_over (timeout_or_default cfg.timeout) (new_llm_client cfg)
