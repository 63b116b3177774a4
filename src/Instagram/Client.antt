-- ===== src/Instagram/Client.antt =====
-- internal/instagram/client.go. The client of github.com/felipeinf/instago, the deadline and the
-- clock are parameters; the fields of `Client` under its mutex are a record. Times are nanoseconds
-- since Go's zero time, which is 0.
pub mod Spacing
pub mod Naming
use recipe_reader.Common.{
  ℕ, ◌-◌, ◌*◌, Bool, true, false, ◌||◌, Option, none, some, if◌then◌else◌, ltb, not,
}
use recipe_reader.Text.{Text, is_empty}
use recipe_reader.Errors.{
  Error, ApiError, Result, ok, err, Sentinel, sentinel, errors_as, foreign, wrap, wrap2,
}

-- 15 minutes
abbrev pub min_relogin_interval : ℕ
min_relogin_interval = 15 * 60 * 1_000_000_000

pub record Client : Type 0 where
  pub username : Text
  pub password : Text
  pub session_path : Text
  pub last_login : ℕ
  pub has_session : Bool

-- The dependency's calls, the two waits of `run` (for the slot, and for the call: an error is that
-- of the context that ended the wait) and the clock.
pub record Api (W Opts Body : Type 0) : Type 0 where
  pub private_request : Opts → W → Result Body × W
  pub raw_login : Text → Text → W → Option Error × W
  pub dump_settings : Text → W → Option Error × W
  pub load_settings : Text → W → Option Error × W
  pub await_slot : W → Option Error × W
  pub await_call : W → Option Error × W
  pub clock : W → ℕ × W

abbrev login_required : ApiError → Bool
login_required ApiError.login_required = true
login_required _ = false

abbrev throttling : ApiError → Bool
throttling ApiError.client_throttled = true
throttling ApiError.rate_limit = true
throttling ApiError.please_wait = true
throttling _ = false

abbrev terminal : ApiError → Bool
terminal ApiError.challenge_required = true
terminal ApiError.two_factor_required = true
terminal ApiError.bad_password = true
terminal _ = false

-- `isSessionExpired`
unfoldable pub is_session_expired : Error → Bool
is_session_expired e = errors_as login_required e

-- `isRateLimited`
unfoldable pub is_rate_limited : Error → Bool
is_rate_limited e = errors_as throttling e

-- `isTerminalAuthError`
unfoldable pub is_terminal_auth_error : Error → Bool
is_terminal_auth_error e = errors_as terminal e

-- What a login returns.
abbrev pub Answer : Type 0
Answer = Result {0} Unit

unfoldable pub is_ok : Answer → Bool
is_ok (ok a) = true
is_ok (err e) = false

module _ {W Opts Body : Type 0} (api : Api W Opts Body) where
  -- `run`: a call that is given up on has run all the same.
  unfoldable pub run_bounded : {A : Type 0} → (W → Result A × W) → W → Result A × W
  run_bounded call w =
      let slot = api.await_slot w in
      elim slot.0 [
        | some e ↦ (err (wrap e), slot.1)
        | none ↦
            let answer = call slot.1 in
            let wait = api.await_call answer.1 in
            elim wait.0 [ some e ↦ (err (wrap e), wait.1) | none ↦ (answer.0, wait.1) ]
      ]

  -- The function that `login` runs.
  unfoldable pub log_in_and_save : Text → Text → Text → W → Answer × W
  log_in_and_save username password session_path w =
      let answer = api.raw_login username password w in
      elim answer.0 [
        | some e ↦ (err (wrap e), answer.1)
        | none ↦
            let saved = api.dump_settings session_path answer.1 in
            elim saved.0 [ some e ↦ (err (wrap e), saved.1) | none ↦ (ok tt, saved.1) ]
      ]

  unfoldable pub login : Text → Text → Text → Client → W → (Answer × Client) × W
  unfolding run_bounded log_in_and_save
  login username password session_path c w =
      let now = api.clock w in
      let done = run_bounded (log_in_and_save username password session_path) now.1 in
      ((done.0, record c { last_login = now.0; has_session = is_ok done.0 }), done.1)

  unfoldable pub reauthenticate : Client → W → (Answer × Client) × W
  unfolding login
  reauthenticate c w =
      let now = api.clock w in
      if is_empty c.username
      then ((err (foreign 1), c), now.1)
      else if ltb (now.0 - c.last_login) min_relogin_interval
      then ((err (foreign 2), c), now.1)
      else login c.username c.password c.session_path c now.1

  -- `LoginOrRestore`
  unfoldable pub login_or_restore : Text → Text → Text → Client → W → (Answer × Client) × W
  unfolding login
  login_or_restore username password session_path c w =
      let c' : Client = record c {
        username = username;
        password = password;
        session_path = session_path;
      } in
      let loaded = api.load_settings session_path w in
      elim loaded.0 [
        | none ↦ ((ok tt, record c' { has_session = true }), loaded.1)
        | some e ↦ login username password session_path c' loaded.1
      ]

  unfoldable pub request : Opts → W → Result Body × W
  unfolding run_bounded
  request opts w = run_bounded (api.private_request opts) w

  -- What `do` makes of the answer to the second request.
  unfoldable pub second_answer : Result Body → Result Body
  second_answer (ok body) = ok body
  second_answer (err e) =
      if is_rate_limited e
      then err (wrap2 (sentinel Sentinel.rate_limited) e)
      else if is_session_expired e || is_terminal_auth_error e
      then err (wrap2 (sentinel Sentinel.reauth_required) e)
      else err e

  -- `do` after the login that a stale session calls for.
  unfoldable pub retried : Opts → Answer → Client → W → (Result Body × Client) × W
  retried opts (err e) c w = ((err (wrap2 (sentinel Sentinel.reauth_required) e), c), w)
  retried opts (ok done) c w =
      let answer = request opts w in ((second_answer answer.0, c), answer.1)

  -- `do` once the session has turned out to be stale.
  unfoldable pub renew_and_retry : Opts → Client → W → (Result Body × Client) × W
  renew_and_retry opts c w =
      let renewed = reauthenticate c w in retried opts renewed.0.0 renewed.0.1 renewed.1

  -- What `do` makes of the answer to the first request.
  unfoldable pub first_answer : Opts → Client → Result Body → W → (Result Body × Client) × W
  first_answer opts c (ok body) w = ((ok body, c), w)
  first_answer opts c (err e) w =
      if is_rate_limited e
      then ((err (wrap2 (sentinel Sentinel.rate_limited) e), c), w)
      else if is_terminal_auth_error e
      then ((err (wrap2 (sentinel Sentinel.reauth_required) e), c), w)
      else if not (is_session_expired e)
      then ((err e, c), w)
      else renew_and_retry opts c w

  -- `do` with a session.
  unfoldable pub send_request : Opts → Client → W → (Result Body × Client) × W
  send_request opts c w = let answer = request opts w in first_answer opts c answer.0 answer.1

  -- `do` after the login of a client that had no session.
  unfoldable pub started : Opts → Answer → Client → W → (Result Body × Client) × W
  started opts (err e) c w = ((err (wrap2 (sentinel Sentinel.reauth_required) e), c), w)
  started opts (ok done) c w = send_request opts c w

  -- `do`
  unfoldable pub perform : Opts → Client → W → (Result Body × Client) × W
  perform opts c w =
      if c.has_session
      then send_request opts c w
      else let first = reauthenticate c w in started opts first.0.0 first.0.1 first.1
