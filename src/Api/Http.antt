-- ===== src/Api/Http.antt =====
-- What internal/api uses of net/http: requests, and the writing of a response. A handler is a
-- function on the state `S` of its response writer and the state `W` of the world; it may panic.
use recipe_reader.Common.{ℕ, List, [], ◌∷◌, ◌++◌, Option, if◌then◌else◌, ltb, ◌==◌}
use recipe_reader.Text.{Text, text_eq}

-- A header that is absent is empty.
pub record Request : Type 0 where
  pub method : Text
  pub path : Text
  pub origin : Text
  pub content_type : Text
  pub authorization : Text

pub record Header : Type 0 where
  pub key : Text
  pub value : Text

-- The interface http.ResponseWriter, with bodies of type `B`.
pub record ResponseWriter (B S : Type 0) : Type 0 where
  pub set_header : Text → Text → S → S
  pub add_header : Text → Text → S → S
  pub write_header : ℕ → S → S
  pub write : B → S → S

-- The server's response writer; the status is 0 until one is sent.
pub record Writer (B : Type 0) : Type 0 where
  pub headers : List Header
  pub status : ℕ
  pub body : List B

-- `http.Header.Del`
unfoldable pub without : Text → List Header → List Header
without key [] = []
without key (h ∷ hs) = let rest = without key hs in if text_eq h.key key then rest else h ∷ rest

-- The first final status counts; an informational one is followed by it.
unfoldable pub send_status : {B : Type 0} → ℕ → Writer B → Writer B
send_status code s =
    if ltb code 200 then s else if s.status == 0 then record s { status = code } else s

-- A body that is written before any status sends 200.
abbrev pub server_writer : {B : Type 0} → ResponseWriter B (Writer B)
server_writer = record {
  set_header = λ k v s. record s { headers = record { key = k; value = v } ∷ without k s.headers };
  add_header = λ k v s. record s { headers = record { key = k; value = v } ∷ s.headers };
  write_header = send_status;
  write = λ b s. let sent = send_status 200 s in record sent { body = sent.body ++ b ∷ [] };
}

-- http.ErrAbortHandler, or any other value.
pub data Panic : Type 0 where
  abort_handler other_panic : Panic

abbrev pub Handler : Type 0 → Type 0 → Type 0
Handler S W = Request → S → W → (Option Panic × S) × W
