-- ===== src/Config.antt =====
-- internal/config/config.go: the settings behind the flags and the environment, their validation
-- and what is derived from them. Filling the fields in from the flags is kong's; durations are in
-- nanoseconds.
pub mod Addresses
pub mod Guard
use recipe_reader.Common.{
  ℕ, zero, suc, ◌≤◌, ℤ, pos, negsuc, Bool, true, false, ◌&&◌, not, List, Option, none, some,
  if◌then◌else◌,
}
use recipe_reader.Text.{Text, codes, is_empty, text_eq}
use recipe_reader.Float.{Float}
use recipe_reader.Config.Addresses.{is_loopback_addr}

-- `HTTP` with `Listen`
pub record Http : Type 0 where
  pub addr : Text
  pub cors_origins : List Text
  pub api_token : Text

pub record Database : Type 0 where
  pub dsn : Text

pub record Instagram : Type 0 where
  pub username : Text
  pub password : Text
  pub session_path : Text
  pub collection : Text

pub record Extraction (F : Type 0) : Type 0 where
  pub mode : Text
  pub threshold : F
  pub publish_threshold : F

pub record Llm : Type 0 where
  pub provider : Text
  pub api_key : Text
  pub model : Text
  pub base_url : Text
  pub timeout : ℤ
  pub anthropic_api_key : Text
  pub anthropic_model : Text

pub record ImportLimits : Type 0 where
  pub max_items : ℤ
  pub max_pages : ℤ

pub record Import : Type 0 where
  pub interval : ℤ
  pub limits : ImportLimits

pub record Config (F : Type 0) : Type 0 where
  pub http : Http
  pub database : Database
  pub instagram : Instagram
  pub extraction : Extraction F
  pub llm : Llm
  pub import : Import

-- The errors of the validation.
pub data ConfigError : Type 0 where
  token_required max_items_too_small max_pages_too_small interval_not_positive : ConfigError
  threshold_out_of_range : Text → ConfigError

-- The hooks `BeforeApply`, which read the credentials with `os.Getenv`.
module _ (getenv : Text → Text) where
  unfoldable pub http_before_apply : Http → Http
  http_before_apply h = record h { api_token = getenv (codes "API_TOKEN") }

  unfoldable pub instagram_before_apply : Instagram → Instagram
  instagram_before_apply i = record i { password = getenv (codes "INSTAGRAM_PASSWORD") }

  unfoldable pub llm_before_apply : Llm → Llm
  llm_before_apply l = record l {
    api_key = getenv (codes "LLM_API_KEY");
    anthropic_api_key = getenv (codes "ANTHROPIC_API_KEY");
  }

-- `HTTP.Validate`
unfoldable pub validate_http : (Text → Bool) → Http → Option ConfigError
validate_http is_loopback_ip h =
    if is_empty h.api_token && not (is_loopback_addr is_loopback_ip h.addr)
    then some token_required
    else none

-- Below 1, as an `int` or a duration.
abbrev pub below_one : ℤ → Bool
below_one (pos zero) = true
below_one (pos (suc n)) = false
below_one (negsuc n) = true

-- `ImportLimits.Validate`
unfoldable pub validate_limits : ImportLimits → Option ConfigError
validate_limits i =
    if below_one i.max_items
    then some max_items_too_small
    else if below_one i.max_pages
    then some max_pages_too_small
    else none

-- `Import.Validate`
unfoldable pub validate_import : Import → Option ConfigError
validate_import i = if below_one i.interval then some interval_not_positive else none

module _ {F : Type 0} (fl : Float F) where
  -- `validateThreshold`
  unfoldable pub validate_threshold : Text → F → Option ConfigError
  validate_threshold name v =
      if not (fl.le fl.zero v && fl.le v fl.one) then some (threshold_out_of_range name) else none

  abbrev or_else : Option ConfigError → Option ConfigError → Option ConfigError
  or_else none e = e
  or_else (some e) e' = some e

  -- `Extraction.Validate`
  unfoldable pub validate_extraction : Extraction F → Option ConfigError
  validate_extraction e =
      or_else (validate_threshold (codes "EXTRACTION_CONFIDENCE_THRESHOLD") e.threshold)
        (validate_threshold (codes "EXTRACTION_PUBLISH_THRESHOLD") e.publish_threshold)

pub record LlmSettings : Type 0 where
  pub provider : Text
  pub api_key : Text
  pub model : Text
  pub base_url : Text
  pub timeout : ℤ

abbrev pub or_text : Text → Text → Text
or_text t fallback = if is_empty t then fallback else t

abbrev pub anthropic : Text
anthropic = codes "anthropic"

-- `LLM.Settings`
unfoldable pub llm_settings : Llm → LlmSettings × Bool
llm_settings l =
    let provider = or_text l.provider anthropic in
    let is_anthropic = text_eq provider anthropic in
    let key = if is_anthropic then or_text l.api_key l.anthropic_api_key else l.api_key in
    (
      record {
        provider = provider;
        api_key = key;
        model = if is_anthropic then or_text l.model l.anthropic_model else l.model;
        base_url = l.base_url;
        timeout = l.timeout;
      },
      not (is_empty key),
    )
