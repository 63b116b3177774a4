-- ===== src/Api/Middleware.antt =====
-- internal/api/middleware.go, `NewRouter` of internal/api/router.go around its mux, and
-- `writeJSON` and `writeError` of internal/api/dto.go. The log, package mime and the mux are
-- parameters.
pub mod Guards
pub mod Recording
use recipe_reader.Common.{
  ℕ, Bool, false, ◌&&◌, ◌||◌, not, List, [], ◌∷◌, map, Option, none, some, if◌then◌else◌, leb, ◌==◌,
  ◌+◌, take, drop,
}
use recipe_reader.Text.{Text, codes, is_empty, text_eq, trim_space}
use recipe_reader.Api.Http.{
  Request, ResponseWriter, Writer, server_writer, Panic, abort_handler, other_panic, Handler,
}

abbrev pub health_path : Text
health_path = codes "/api/healthz"

pub record Security : Type 0 where
  pub token : Text
  pub allowed_origins : List Text

-- `isMutating`
unfoldable pub is_mutating : Text → Bool
is_mutating method =
    text_eq method (codes "POST")
    || text_eq method (codes "PUT")
    || text_eq method (codes "PATCH")
    || text_eq method (codes "DELETE")

abbrev lower_ascii : ℕ → ℕ
lower_ascii c = if leb b'A' c && leb c b'Z' then c + 32 else c

-- `bearerToken`: seven runes that match the scheme are seven bytes.
unfoldable pub bearer_token : Request → Text
bearer_token r =
    if text_eq (map lower_ascii (take 7 r.authorization)) (codes "bearer ")
    then trim_space (drop 7 r.authorization)
    else []

-- A media type that could be read, and is that of JSON.
unfoldable pub is_json : Option Text → Bool
is_json none = false
is_json (some media) = text_eq media (codes "application/json")

-- `statusRecorder`
pub record StatusRecorder (S : Type 0) : Type 0 where
  pub writer : S
  pub status : ℕ

-- `statusRecorder.WriteHeader`
unfoldable pub record_header :
    {B S : Type 0} → ResponseWriter B S → ℕ → StatusRecorder S → StatusRecorder S
record_header out code s = record {
  writer = out.write_header code s.writer;
  status = if (s.status == 0) && leb 200 code then code else s.status;
}

-- `statusRecorder.Write`
unfoldable pub record_write :
    {B S : Type 0} → ResponseWriter B S → B → StatusRecorder S → StatusRecorder S
record_write out b s = record {
  writer = out.write b s.writer;
  status = if s.status == 0 then 200 else s.status;
}

abbrev pub recorder : {B S : Type 0} → ResponseWriter B S → ResponseWriter B (StatusRecorder S)
recorder out = record {
  set_header = λ k v s. record s { writer = out.set_header k v s.writer };
  add_header = λ k v s. record s { writer = out.add_header k v s.writer };
  write_header = record_header out;
  write = record_write out;
}

-- `statusRecorder.statusCode`
unfoldable pub status_code : {S : Type 0} → StatusRecorder S → ℕ
status_code s = if s.status == 0 then 200 else s.status

-- The keys of `index`.
unfoldable pub is_allowed : List Text → Text → Bool
is_allowed [] origin = false
is_allowed (o ∷ allowed) origin =
    (not (is_empty (trim_space o)) && text_eq (trim_space o) origin) || is_allowed allowed origin

-- `writeJSON`; a body is the value that is encoded.
unfoldable pub write_json : {B S : Type 0} → ResponseWriter B S → ℕ → B → S → S
write_json out status body s =
    out.write body
      (out.write_header status (out.set_header (codes "Content-Type") (codes "application/json") s))

module _ {B S : Type 0} (out : ResponseWriter B S) (error_body : Text → B) where
  -- `writeError`
  unfoldable pub write_error : ℕ → Text → S → S
  unfolding write_json
  write_error status message s = write_json out status (error_body message) s

  -- The headers that `withCORS` sets.
  unfoldable pub cors_headers : List Text → Request → S → S
  cors_headers allowed r s =
      let vary = out.add_header (codes "Vary") (codes "Origin") s in
      if is_allowed allowed r.origin && not (is_empty r.origin)
      then out.set_header (codes "Access-Control-Max-Age") (codes "600") (
          out.set_header (codes "Access-Control-Allow-Headers")
            (codes "Authorization, Content-Type")
            (out.set_header (codes "Access-Control-Allow-Methods")
              (codes "GET, POST, PUT, DELETE, OPTIONS")
              (out.set_header (codes "Access-Control-Allow-Origin") r.origin vary)))
      else vary

module _ {B S W : Type 0} (out : ResponseWriter B S) (error_body : Text → B) where
  -- What `withRecovery` does about a panic.
  unfoldable pub recovered : Option Panic → S → W → (Option Panic × S) × W
  recovered none s w = ((none, s), w)
  recovered (some abort_handler) s w = ((some abort_handler, s), w)
  recovered (some other_panic) s w =
      ((none, write_error out error_body 500 (codes "internal server error") s), w)

  -- `withRecovery`
  unfoldable pub with_recovery : Handler S W → Handler S W
  with_recovery next r s w = let done = next r s w in recovered done.0.0 done.0.1 done.1

  -- `withAuth`
  unfoldable pub with_auth : Text → Handler S W → Handler S W
  with_auth token next r s w =
      if is_empty token || not (is_mutating r.method)
      then next r s w
      else if text_eq (bearer_token r) token
      then next r s w
      else (
        (
          none,
          write_error out error_body 401 (codes "missing or invalid bearer token") (
              out.set_header (codes "WWW-Authenticate") (codes "Bearer realm=\"recipe-reader\"") s),
        ),
        w,
      )

  -- `withJSONWrites`
  unfoldable pub with_json_writes : (Text → Option Text) → Handler S W → Handler S W
  with_json_writes parse_media_type next r s w =
      if not (is_mutating r.method)
      then next r s w
      else if is_json (parse_media_type r.content_type)
      then next r s w
      else (
        (none, write_error out error_body 415 (codes "Content-Type must be application/json") s),
        w,
      )

  -- What `withLogging` does once the handler has run; a panic that goes on unwinding is not logged.
  unfoldable pub logged :
      (Bool → Request → ℕ → W → W)
      → Request
      → Option Panic
      → StatusRecorder S
      → W
      → (Option Panic × S) × W
  logged log r (some p) rec w = ((some p, rec.writer), w)
  logged log r none rec w =
      let status = status_code rec in
      ((none, rec.writer), log (text_eq r.path health_path && (status == 200)) r status w)

  -- `withLogging`
  unfoldable pub with_logging :
      (Bool → Request → ℕ → W → W) → Handler (StatusRecorder S) W → Handler S W
  with_logging log next r s w =
      let done = next r (record { writer = s; status = 0 }) w in
      logged log r done.0.0 done.0.1 done.1

  -- `withCORS`
  unfoldable pub with_cors : List Text → Handler S W → Handler S W
  with_cors allowed next r s w =
      let s' = cors_headers out error_body allowed r s in
      if text_eq r.method (codes "OPTIONS")
      then ((none, out.write_header 204 s'), w)
      else next r s' w

-- `NewRouter`
unfoldable pub new_router :
    {B W : Type 0}
    → (Text → B)
    → (Text → Option Text)
    → (Bool → Request → ℕ → W → W)
    → Security
    → Handler (StatusRecorder (Writer B)) W
    → Handler (Writer B) W
new_router error_body parse_media_type log sec mux =
    let inner = recorder server_writer in
    with_cors server_writer error_body sec.allowed_origins (
      with_logging server_writer error_body log (
        with_recovery inner error_body (
          with_auth inner error_body sec.token
            (with_json_writes inner error_body parse_media_type mux))))
