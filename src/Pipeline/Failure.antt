-- ===== src/Pipeline/Failure.antt =====
-- internal/pipeline/failure.go: the classification of a failed import.
use recipe_reader.Common.{[], ◌||◌, Option, none, some, if◌then◌else◌}
use recipe_reader.Text.{Text, codes}
use recipe_reader.Errors.{Error, Sentinel, errors_is}

pub data FailureCode : Type 0 where
  failure_none failure_rate_limited failure_auth failure_schema_drift : FailureCode
  failure_fetch failure_cancelled failure_import : FailureCode

-- The values of the constants, which are part of the HTTP contract.
unfoldable pub code_text : FailureCode → Text
code_text failure_none = []
code_text failure_rate_limited = codes "rate_limited"
code_text failure_auth = codes "instagram_auth"
code_text failure_schema_drift = codes "instagram_schema_drift"
code_text failure_fetch = codes "fetch_failed"
code_text failure_cancelled = codes "cancelled"
code_text failure_import = codes "import_failed"

-- `failureMessages`; a code that is not in the map has the empty sentence.
unfoldable pub failure_messages : FailureCode → Text
failure_messages failure_none = []
failure_messages failure_rate_limited =
    codes "Instagram is rate-limiting this account; imports resume after a cooldown."
failure_messages failure_auth =
    codes "Instagram did not accept the configured account; the next import retries the login."
failure_messages failure_schema_drift =
    codes "Instagram returned a response the importer did not recognise."
failure_messages failure_fetch = codes "Fetching saved posts from Instagram failed."
failure_messages failure_cancelled = codes "The import was stopped before it finished."
failure_messages failure_import = codes "The last import run failed."

-- The switch of `Classify`.
unfoldable pub failure_code : Error → FailureCode
failure_code e =
    if errors_is e Sentinel.rate_limited
    then failure_rate_limited
    else if errors_is e Sentinel.reauth_required || errors_is e Sentinel.login
    then failure_auth
    else if errors_is e Sentinel.schema_drift
    then failure_schema_drift
    else if errors_is e Sentinel.canceled || errors_is e Sentinel.deadline_exceeded
    then failure_cancelled
    else if errors_is e Sentinel.fetch
    then failure_fetch
    else failure_import

-- `Classify`
unfoldable pub classify : Option Error → FailureCode × Text
unfolding failure_code failure_messages
classify none = (failure_none, [])
classify (some e) = (failure_code e, failure_messages (failure_code e))
