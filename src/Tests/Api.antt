-- ===== src/Tests/Api.antt =====
-- internal/api at concrete requests.
use recipe_reader.Common.{ℕ, ◌+◌, ◌≡◌, refl, Bool, if◌then◌else◌, [], Option, none, some}
use recipe_reader.Text.{Text, codes}
use recipe_reader.Api.Http.{Request, Writer, server_writer, Handler}
use recipe_reader.Api.Middleware.{
  Security, StatusRecorder, recorder, new_router, with_cors, with_logging, with_recovery,
  is_mutating, bearer_token, is_json,
}
use recipe_reader.Api.Middleware.Guards.{authorized, new_router-refuses, new_router-admits}

abbrev pub fresh : Writer Text
fresh = record { headers = []; status = 0; body = [] }

-- A mux that counts what reaches it, and one that does nothing.
abbrev pub counting_mux : Handler (StatusRecorder (Writer Text)) ℕ
counting_mux r s w = ((none, s), w + 1)

abbrev pub silent_mux : Handler (StatusRecorder (Writer Text)) ℕ
silent_mux r s w = ((none, s), w)

abbrev pub read_media_type : Text → Option Text
read_media_type t = some t

abbrev pub no_log : Bool → Request → ℕ → ℕ → ℕ
no_log quiet r status w = w

abbrev pub guarded_security : Security
guarded_security = record { token = codes "geheim"; allowed_origins = [] }

abbrev pub deletion : Request
deletion = record {
  method = codes "DELETE";
  path = codes "/api/recipes/1";
  origin = [];
  content_type = codes "application/json";
  authorization = codes "Basic geheim";
}

abbrev pub authorized_deletion : Request
authorized_deletion = record deletion { authorization = codes "BEARER geheim" }

new_router-refuses_example :
    (new_router (λ m. m) read_media_type no_log guarded_security counting_mux deletion fresh 0
      ≡ new_router (λ m. m) read_media_type no_log guarded_security silent_mux deletion fresh 0)
    × ((new_router
          (λ m. m)
          read_media_type
          no_log
          guarded_security
          counting_mux
          deletion
          fresh
          0).0.1.status
        ≡ (if authorized guarded_security deletion then 415 else 401))
unfolding is_mutating bearer_token is_json
new_router-refuses_example =
    new_router-refuses (λ m. m) read_media_type no_log guarded_security counting_mux silent_mux
      deletion fresh 0 refl refl refl

new_router-admits_example :
    new_router
      (λ m. m)
      read_media_type
      no_log
      guarded_security
      counting_mux
      authorized_deletion
      fresh
      0
    ≡ with_cors server_writer
        (λ m. m)
        []
        (with_logging server_writer
          (λ m. m)
          no_log
          (with_recovery (recorder server_writer) (λ m. m) counting_mux))
        authorized_deletion
        fresh
        0
unfolding is_mutating bearer_token is_json
new_router-admits_example =
    new_router-admits (λ m. m) read_media_type no_log guarded_security counting_mux
      authorized_deletion fresh 0 refl
