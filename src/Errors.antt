-- ===== src/Errors.antt =====
-- Go's error values: the sentinels of the repository and of the packages context and pgx, and the wrapping of
-- fmt.Errorf. The text of a message is not modelled; what errors.Is can find in a chain is.
-- Sentinels: internal/instagram, internal/pipeline, internal/extraction, internal/repository.
use recipe_reader.Common.{ℕ, Bool, ◌||◌, Option, none, some, ◌==◌, ◌≡◌, refl, ◌⊎◌, inl, inr, arith}

pub data Sentinel : Type 0 where
  rate_limited reauth_required schema_drift no_media_code : Sentinel
  fetch login import_in_progress : Sentinel
  no_recipe : Sentinel
  duplicate_source not_found no_rows : Sentinel
  canceled deadline_exceeded : Sentinel

-- Sentinels are compared by identity.
abbrev pub tag : Sentinel → ℕ
tag Sentinel.rate_limited = 0
tag Sentinel.reauth_required = 1
tag Sentinel.schema_drift = 2
tag Sentinel.no_media_code = 3
tag Sentinel.fetch = 4
tag Sentinel.login = 5
tag Sentinel.import_in_progress = 6
tag Sentinel.no_recipe = 7
tag Sentinel.duplicate_source = 8
tag Sentinel.not_found = 9
tag Sentinel.canceled = 10
tag Sentinel.deadline_exceeded = 11
tag Sentinel.no_rows = 12

-- The error types of the dependency github.com/felipeinf/instago that the client tells apart.
pub data ApiError : Type 0 where
  login_required client_throttled rate_limit please_wait : ApiError
  challenge_required two_factor_required bad_password : ApiError

-- `foreign` is an error of code outside the repository, `wrap` an error with one %w in its format
-- and `wrap2` one with two.
pub data Error : Type 0 where
  sentinel : Sentinel → Error
  api : ApiError → Error
  foreign : ℕ → Error
  wrap : Error → Error
  wrap2 : Error → Error → Error

-- errors.Is
unfoldable pub errors_is : Error → Sentinel → Bool
errors_is (sentinel s) t = tag s == tag t
errors_is (api a) t = Bool.false
errors_is (foreign n) t = Bool.false
errors_is (wrap e) t = errors_is e t
errors_is (wrap2 e f) t = errors_is e t || errors_is f t

-- errors.As for some of the dependency's error types: whether one of them is in the chain.
unfoldable pub errors_as : (ApiError → Bool) → Error → Bool
errors_as p (sentinel s) = Bool.false
errors_as p (api a) = p a
errors_as p (foreign n) = Bool.false
errors_as p (wrap e) = errors_as p e
errors_as p (wrap2 e f) = errors_as p e || errors_as p f

-- fmt.Errorf with %w of an error that may be nil.
abbrev pub wrap_nilable : Option Error → Error
wrap_nilable none = foreign 0
wrap_nilable (some e) = wrap e

-- A value or an error.
pub data Result {ℓ} (A : Type ℓ) : Type ℓ where
  ok : A → Result A
  err : Error → Result A

pub Result-cases {ℓ} :
    {A : Type ℓ} (r : Result A) → ((a : A) × (r ≡ ok a)) ⊎ ((e : Error) × (r ≡ err e))
Result-cases (ok a) = inl (a, refl)
Result-cases (err e) = inr (e, refl)

-- No two sentinels are one.
pub tag-injective : (s t : Sentinel) → tag s ≡ tag t → s ≡ t
tag-injective s t h = ground arith
