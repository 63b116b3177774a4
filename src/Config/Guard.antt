-- ===== src/Config/Guard.antt =====
-- What a configuration that passes its validation, internal/config/config.go, means for the server
-- that `newHTTPServer`, internal/server/http.go, builds from it and for the walk over the feed.
use recipe_reader.Common.{
  arith, ◌==◌, ℕ, suc, zero, ◌≡◌, refl, inl, inr, Bool, true, false, ◌&&◌, Option, none, ℤ, pos,
  negsuc, Bool-cases,
}
use recipe_reader.Text.{Text, is_empty, text_eq}
use recipe_reader.Api.Http.{Request, Writer, Handler}
use recipe_reader.Api.Middleware.{
  Security, StatusRecorder, is_mutating, bearer_token, is_json, new_router,
}
use recipe_reader.Api.Middleware.Guards.{authorized, new_router-refuses}
use recipe_reader.Config.{Http, ImportLimits, validate_http, validate_limits, below_one}
use recipe_reader.Config.Addresses.{is_loopback_addr}
use recipe_reader.Instagram.Saved.{or_default}

-- The security of the router in `newHTTPServer`.
unfoldable pub security_of : Http → Security
security_of h = record { token = h.api_token; allowed_origins = h.cors_origins }

validate_http-token :
    (ip : Text → Bool) (h : Http)
    → validate_http ip h ≡ none
    → is_loopback_addr ip h.addr ≡ false
    → is_empty h.api_token ≡ false
unfolding validate_http
validate_http-token ip h v l = elim (Bool-cases (is_empty h.api_token)) [
  | inr e ↦ e
  | inl e ↦ cc (rw (e, l) at v)
]

unauthorized :
    (h : Http) (r : Request)
    → is_empty h.api_token ≡ false
    → text_eq (bearer_token r) h.api_token ≡ false
    → authorized (security_of h) r ≡ false
unfolding security_of
unauthorized h r e t = rw (e, t) refl

-- With a configuration that passes its validation and listens beyond the loopback interface, a
-- state-changing request that does not carry the configured token is answered with 401, and
-- whatever the routes and their handlers are, they have no part in the answer or in what becomes
-- of the world. The condition is that no status has been sent.
pub validate_http-guards :
    {B W : Type 0} (error_body : Text → B) (parse_media_type : Text → Option Text)
    (log : Bool → Request → ℕ → W → W) (ip : Text → Bool) (h : Http)
    (mux mux' : Handler (StatusRecorder (Writer B)) W) (r : Request) (s : Writer B) (w : W)
    → validate_http ip h ≡ none
    → is_loopback_addr ip h.addr ≡ false
    → s.status ≡ 0
    → is_mutating r.method ≡ true
    → text_eq (bearer_token r) h.api_token ≡ false
    → (new_router error_body parse_media_type log (security_of h) mux r s w
        ≡ new_router error_body parse_media_type log (security_of h) mux' r s w)
      × ((new_router error_body parse_media_type log (security_of h) mux r s w).0.1.status ≡ 401)
validate_http-guards error_body parse_media_type log ip h mux mux' r s w v l z m t =
    let a : authorized (security_of h) r ≡ false =
      unauthorized h r (validate_http-token ip h v l) t in
    let refused : (authorized (security_of h) r && is_json (parse_media_type r.content_type))
        ≡ false =
      rw a refl in
    let both =
      new_router-refuses error_body parse_media_type log (security_of h) mux mux' r s w z m
        refused in
    (both.0, rw a at both.1)

at_least_one : (d : ℕ) (z : ℤ) → below_one z ≡ false → z ≡ pos (or_default d z)
unfolding or_default
at_least_one d (pos zero) h = cc h
at_least_one d (pos (suc n)) h = let e : (suc n == 0) ≡ false = ground arith in rw e refl
at_least_one d (negsuc n) h = cc h

-- Limits that pass their validation are those of the walk over the feed: none is replaced by the
-- default.
pub validate_limits-kept :
    (i : ImportLimits) (items pages : ℕ)
    → validate_limits i ≡ none
    → (i.max_items ≡ pos (or_default items i.max_items))
      × (i.max_pages ≡ pos (or_default pages i.max_pages))
unfolding validate_limits
validate_limits-kept i items pages v = elim (Bool-cases (below_one i.max_items)) [
  | inl e ↦ cc (rw e at v)
  | inr e ↦ elim (Bool-cases (below_one i.max_pages)) [
    | inl f ↦ cc (rw (e, f) at v)
    | inr f ↦ (at_least_one items i.max_items e, at_least_one pages i.max_pages f)
  ]
]
