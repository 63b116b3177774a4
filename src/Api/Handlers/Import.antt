-- ===== src/Api/Handlers/Import.antt =====
-- internal/api/handlers_import.go. The text of a time in RFC 3339 is a parameter. A time is in
-- nanoseconds; `math.Ceil(d.Seconds())` is exact below 2^23 seconds, and no cooldown is longer
-- than 30 minutes.
use recipe_reader.Common.{ℕ, ◌+◌, ◌/◌, ◌%◌, ◌++◌, Option, none, some, if◌then◌else◌, ltb}
use recipe_reader.Text.{Text, codes, is_empty}
use recipe_reader.Text.Decimal.{itoa}
use recipe_reader.Pipeline.Failure.{code_text, classify}
use recipe_reader.Pipeline.Worker.{Status}
use recipe_reader.Api.Http.{ResponseWriter, Panic, Handler}
use recipe_reader.Api.Middleware.{write_json, write_error}
use recipe_reader.Api.Dto.{ImportStatus, Reply, error_reply, started_reply, status_reply}

-- The calls of a `*pipeline.Worker`: `Cooldown`, `Status` and `Trigger`.
pub record ImportWorker (W : Type 0) : Type 0 where
  pub cooldown : W → ℕ × W
  pub status : W → Status × W
  pub trigger : W → W

abbrev pub second : ℕ
second = 1_000_000_000

-- `int(math.Ceil(d.Seconds()))`
abbrev pub seconds_up : ℕ → ℕ
seconds_up d = (d + 999_999_999) / second

-- `d.Round(time.Second)`, in seconds: halves go up.
abbrev pub seconds_round : ℕ → ℕ
seconds_round d = (d + second / 2) / second

-- `Duration.String` of whole seconds
unfoldable pub show_seconds : ℕ → Text
show_seconds n =
    let tail = itoa (n % 60) ++ codes "s" in
    let minutes = itoa (n / 60 % 60) ++ codes "m" ++ tail in
    if ltb n 60
    then tail
    else if ltb n 3600
    then minutes
    else itoa (n / 3600) ++ codes "h" ++ minutes

-- The two fields about a failure, if there is one.
unfoldable pub failure_fields : Status → Option (Text × Text)
failure_fields st =
    let (code, message) = classify st.last_err in
    if is_empty (code_text code) then none else some (code_text code, message)

-- The answer while a rate limit is waited out.
abbrev pub throttled : {F S : Type 0} → ResponseWriter (Reply F) S → ℕ → S → S
throttled out left s =
    write_error out error_reply 429
      (codes "Instagram rate limit: imports resume in " ++ show_seconds (seconds_round left))
      (out.set_header (codes "Retry-After") (itoa (seconds_up left)) s)

-- The answer of `handleImportStatus`.
unfoldable pub import_status : (ℕ → Text) → Status → ℕ → ImportStatus
import_status rfc3339 st left = record {
  running = st.running;
  last_run = rfc3339 st.last_run;
  seen = st.last_result.seen;
  imported = st.last_result.imported;
  skipped = st.last_result.skipped;
  no_recipe = st.last_result.no_recipe;
  degraded = st.last_result.degraded;
  failed = st.last_result.failed;
  error = failure_fields st;
  cooldown = if ltb 0 left then some (rfc3339 st.cooldown_until, seconds_up left) else none;
}

module _ {F S W : Type 0} (out : ResponseWriter (Reply F) S) where
  abbrev not_configured : S → W → (Option Panic × S) × W
  not_configured s w =
      ((none, write_error out error_reply 503 (codes "import worker not configured") s), w)

  -- `handleImportRun`
  unfoldable pub handle_import_run : Option (ImportWorker W) → Handler S W
  handle_import_run none r s w = not_configured s w
  handle_import_run (some worker) r s w =
      let (left, w') = worker.cooldown w in
      if ltb 0 left
      then ((none, throttled out left s), w')
      else ((none, write_json out 202 started_reply s), worker.trigger w')

  -- `handleImportStatus`
  unfoldable pub handle_import_status : (ℕ → Text) → Option (ImportWorker W) → Handler S W
  handle_import_status rfc3339 none r s w = not_configured s w
  handle_import_status rfc3339 (some worker) r s w =
      let (st, w') = worker.status w in
      let (left, w'') = worker.cooldown w' in
      ((none, write_json out 200 (status_reply (import_status rfc3339 st left)) s), w'')
