-- ===== src/Api/Middleware/Guards.antt =====
-- The guards of `NewRouter`: which requests the mux is asked about.
use recipe_reader.Common.{
  ℕ, ◌≤◌, ◌≡◌, refl, sym, ◌∙◌, inl, inr, Bool, true, false, ◌&&◌, ◌||◌, not, List, Option, none,
  if◌then◌else◌, Bool-cases, arith,
}
use recipe_reader.Text.{Text, codes, is_empty, text_eq}
use recipe_reader.Text.Equality.{text_eq_sound}
use recipe_reader.Api.Http.{Request, ResponseWriter, Writer, server_writer, send_status, Handler}
use recipe_reader.Api.Middleware.Recording.{send_status-status}
use recipe_reader.Api.Middleware.{
  Security, StatusRecorder, recorder, is_mutating, is_allowed, bearer_token, is_json, write_error,
  cors_headers, with_auth, with_json_writes, with_recovery, with_logging, with_cors, new_router,
  recovered, logged, record_header, record_write,
}

-- The request carries the token, where there is one.
abbrev pub authorized : Security → Request → Bool
authorized sec r = is_empty sec.token || text_eq (bearer_token r) sec.token

-- The preflight of CORS is no state-changing request.
is_mutating-not_options :
    (r : Request) → is_mutating r.method ≡ true → text_eq r.method (codes "OPTIONS") ≡ false
unfolding is_mutating
is_mutating-not_options r h = elim (Bool-cases (text_eq r.method (codes "OPTIONS"))) [
  | inr e ↦ e
  | inl e ↦ let q = text_eq_sound r.method (codes "OPTIONS") e in cc (rw q at h)
]

-- What the two guards do with a request that they refuse.
abbrev refusal : {B S : Type 0} → ResponseWriter B S → (Text → B) → Security → Request → S → S
refusal out error_body sec r s =
    if authorized sec r
    then write_error out error_body 415 (codes "Content-Type must be application/json") s
    else write_error out error_body 401 (codes "missing or invalid bearer token")
        (out.set_header (codes "WWW-Authenticate") (codes "Bearer realm=\"recipe-reader\"") s)

module _ {B S W : Type 0} (out : ResponseWriter B S) (error_body : Text → B)
    (parse_media_type : Text → Option Text) (sec : Security) (mux : Handler S W) (r : Request)
    (s : S) (w : W) where
  guarded-refused :
      is_mutating r.method ≡ true
      → (authorized sec r && is_json (parse_media_type r.content_type)) ≡ false
      → with_auth out error_body sec.token
          (with_json_writes out error_body parse_media_type mux)
          r
          s
          w
        ≡ ((none, refusal out error_body sec r s), w)
  unfolding with_auth with_json_writes
  guarded-refused m h = elim (Bool-cases (is_empty sec.token)) [
    | inl e ↦
        let j : is_json (parse_media_type r.content_type) ≡ false = rw e at h in rw (m, e, j) refl
    | inr e ↦ elim (Bool-cases (text_eq (bearer_token r) sec.token)) [
      | inl t ↦
          let j : is_json (parse_media_type r.content_type) ≡ false = rw (e, t) at h in
          rw (m, e, t, j) refl
      | inr t ↦ rw (m, e, t) refl
    ]
  ]

  guarded-admitted :
      (not (is_mutating r.method)
          || (authorized sec r && is_json (parse_media_type r.content_type)))
        ≡ true
      → with_auth out error_body sec.token
          (with_json_writes out error_body parse_media_type mux)
          r
          s
          w
        ≡ mux r s w
  unfolding with_auth with_json_writes
  guarded-admitted h = elim (Bool-cases (is_mutating r.method)) [
    | inr m ↦ elim (Bool-cases (is_empty sec.token)) [
      | inl e ↦ rw (m, e) refl
      | inr e ↦ rw (m, e) refl
    ]
    | inl m ↦ elim (Bool-cases (is_json (parse_media_type r.content_type))) [
      | inr j ↦ elim (Bool-cases (authorized sec r)) [
        | inl a ↦ cc (rw (m, a, j) at h)
        | inr a ↦ cc (rw (m, a) at h)
      ]
      | inl j ↦ elim (Bool-cases (is_empty sec.token)) [
        | inl e ↦ rw (m, e, j) refl
        | inr e ↦ elim (Bool-cases (text_eq (bearer_token r) sec.token)) [
          | inl t ↦ rw (m, e, t, j) refl
          | inr t ↦ cc (rw (m, e, t) at h)
        ]
      ]
    ]
  ]

-- A status and then a body, on a response of which nothing has been sent.
status-sent :
    {B : Type 0} (code : ℕ)
    → 200 ≤ code
    → (s : Writer B) → s.status ≡ 0
    → (send_status 200 (send_status code s)).status ≡ code
status-sent code h s z =
    rw (send_status-status 200 (send_status code s), send_status-status code s, z)
      (ground (arith, h))

module _ {B S W : Type 0} (out : ResponseWriter B S) (error_body : Text → B) where
  with_recovery-cong :
      (next next' : Handler S W) (r : Request) (s : S) (w : W)
      → next r s w ≡ next' r s w
      → with_recovery out error_body next r s w ≡ with_recovery out error_body next' r s w
  unfolding with_recovery
  with_recovery-cong next next' r s w e = rw e refl

  with_logging-cong :
      (log : Bool → Request → ℕ → W → W) (next next' : Handler (StatusRecorder S) W) (r : Request)
      (s : S) (w : W)
      → ((rec : StatusRecorder S) → next r rec w ≡ next' r rec w)
      → with_logging out error_body log next r s w ≡ with_logging out error_body log next' r s w
  unfolding with_logging
  with_logging-cong log next next' r s w e = rw (e (record { writer = s; status = 0 })) refl

  with_cors-cong :
      (allowed : List Text) (next next' : Handler S W) (r : Request) (s : S) (w : W)
      → ((s' : S) → next r s' w ≡ next' r s' w)
      → with_cors out error_body allowed next r s w ≡ with_cors out error_body allowed next' r s w
  unfolding with_cors
  with_cors-cong allowed next next' r s w e = rw (e (cors_headers out error_body allowed r s)) refl

module _ {B W : Type 0} (error_body : Text → B) (parse_media_type : Text → Option Text)
    (log : Bool → Request → ℕ → W → W) (sec : Security) where
  abbrev inner : ResponseWriter B (StatusRecorder (Writer B))
  inner = recorder server_writer

  -- The answer to a request about which the mux is not asked.
  refuse : Handler (StatusRecorder (Writer B)) W
  refuse r s w = ((none, refusal inner error_body sec r s), w)

  -- The router with another handler in the place of the guarded mux.
  around : Handler (StatusRecorder (Writer B)) W → Handler (Writer B) W
  around next =
      with_cors server_writer error_body sec.allowed_origins
        (with_logging server_writer error_body log (with_recovery inner error_body next))

  around-cong :
      (next next' : Handler (StatusRecorder (Writer B)) W) (r : Request) (s : Writer B) (w : W)
      → ((rec : StatusRecorder (Writer B)) → next r rec w ≡ next' r rec w)
      → around next r s w ≡ around next' r s w
  unfolding around
  around-cong next next' r s w e =
      with_cors-cong server_writer error_body sec.allowed_origins _ _ r s w (λ s'.
        with_logging-cong server_writer error_body log _ _ r s' w
          (λ rec. with_recovery-cong inner error_body next next' r rec w (e rec)))

  new_router-refuse :
      (mux : Handler (StatusRecorder (Writer B)) W) (r : Request) (s : Writer B) (w : W)
      → is_mutating r.method ≡ true
      → (authorized sec r && is_json (parse_media_type r.content_type)) ≡ false
      → new_router error_body parse_media_type log sec mux r s w ≡ around refuse r s w
  unfolding new_router around refuse
  new_router-refuse mux r s w m h =
      around-cong _ refuse r s w
        (λ rec. guarded-refused inner error_body parse_media_type sec mux r rec w m h)

  refused-status :
      (r : Request) (rec : StatusRecorder (Writer B))
      → rec.writer.status ≡ 0
      → (refusal inner error_body sec r rec).writer.status ≡ (if authorized sec r then 415 else 401)
  unfolding write_error record_write record_header
  refused-status r rec z = elim (Bool-cases (authorized sec r)) [
    | inl e ↦ rw e (status-sent 415 (omega arith) _ z)
    | inr e ↦ rw e (status-sent 401 (omega arith) _ z)
  ]

  cors_headers-status :
      (allowed : List Text) (r : Request) (s : Writer B)
      → (cors_headers server_writer error_body allowed r s).status ≡ s.status
  unfolding cors_headers
  cors_headers-status allowed r s =
      elim (Bool-cases (is_allowed allowed r.origin && not (is_empty r.origin))) [
        | inl e ↦ rw e refl
        | inr e ↦ rw e refl
      ]

  around-refuse-status :
      (r : Request) (s : Writer B) (w : W)
      → s.status ≡ 0
      → is_mutating r.method ≡ true
      → (around refuse r s w).0.1.status ≡ (if authorized sec r then 415 else 401)
  unfolding around with_cors with_logging with_recovery recovered logged refuse
  around-refuse-status r s w z m =
      rw (is_mutating-not_options r m)
        (refused-status r _ (cors_headers-status sec.allowed_origins r s ∙ z))

-- A state-changing request without the token, where one is configured, or without a JSON body is
-- refused before the mux: whatever the routes and their handlers are, the answer is the same, and
-- its status is 401 without the token and 415 with it. The condition is that no status has been
-- sent.
pub new_router-refuses :
    {B W : Type 0} (error_body : Text → B) (parse_media_type : Text → Option Text)
    (log : Bool → Request → ℕ → W → W) (sec : Security)
    (mux mux' : Handler (StatusRecorder (Writer B)) W) (r : Request) (s : Writer B) (w : W)
    → s.status ≡ 0
    → is_mutating r.method ≡ true
    → (authorized sec r && is_json (parse_media_type r.content_type)) ≡ false
    → (new_router error_body parse_media_type log sec mux r s w
        ≡ new_router error_body parse_media_type log sec mux' r s w)
      × ((new_router error_body parse_media_type log sec mux r s w).0.1.status
          ≡ (if authorized sec r then 415 else 401))
new_router-refuses error_body parse_media_type log sec mux mux' r s w z m h =
    let e = new_router-refuse error_body parse_media_type log sec mux r s w m h in
    let e' = new_router-refuse error_body parse_media_type log sec mux' r s w m h in
    (e ∙ sym e', rw e (around-refuse-status error_body parse_media_type log sec r s w z m))

-- A request that only reads, or that carries the token and declares JSON, reaches the mux as if
-- the two guards were not there.
pub new_router-admits :
    {B W : Type 0} (error_body : Text → B) (parse_media_type : Text → Option Text)
    (log : Bool → Request → ℕ → W → W) (sec : Security)
    (mux : Handler (StatusRecorder (Writer B)) W) (r : Request) (s : Writer B) (w : W)
    → (not (is_mutating r.method)
        || (authorized sec r && is_json (parse_media_type r.content_type)))
      ≡ true
    → new_router error_body parse_media_type log sec mux r s w
      ≡ with_cors server_writer error_body sec.allowed_origins
          (with_logging server_writer error_body log
            (with_recovery (recorder server_writer) error_body mux))
          r
          s
          w
unfolding new_router around
new_router-admits error_body parse_media_type log sec mux r s w h =
    around-cong error_body parse_media_type log sec _ mux r s w (λ rec.
      guarded-admitted (recorder server_writer) error_body parse_media_type sec mux r rec w h)
