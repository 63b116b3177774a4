-- ===== src/Api/Middleware/Recording.antt =====
-- `statusRecorder`: the status that is logged is the status that is sent.
use recipe_reader.Common.{
  ℕ, ◌≡◌, refl, sym, inl, inr, Bool-cases, List, [], ◌∷◌, if◌then◌else◌, ltb, ◌==◌, arith,
}
use recipe_reader.Text.{Text}
use recipe_reader.Api.Http.{ResponseWriter, Writer, server_writer, send_status}
use recipe_reader.Api.Middleware.{
  StatusRecorder, recorder, record_header, record_write, status_code,
}

-- What a handler can do to its response.
pub data WriteOp (B : Type 0) : Type 0 where
  sets adds : Text → Text → WriteOp B
  sends : ℕ → WriteOp B
  writes : B → WriteOp B

-- One step of a handler on its response writer, and all of them in turn.
unfoldable pub perform_op : {B S : Type 0} → ResponseWriter B S → WriteOp B → S → S
perform_op out (sets k v) s = out.set_header k v s
perform_op out (adds k v) s = out.add_header k v s
perform_op out (sends code) s = out.write_header code s
perform_op out (writes b) s = out.write b s

unfoldable pub replay : {B S : Type 0} → ResponseWriter B S → List (WriteOp B) → S → S
replay out [] s = s
replay out (op ∷ ops) s = replay out ops (perform_op out op s)

-- The status that net/http sends: 200 if the handler sent none.
abbrev pub sent_status : {B : Type 0} → Writer B → ℕ
sent_status s = if s.status == 0 then 200 else s.status

pub send_status-status :
    {B : Type 0} (code : ℕ) (s : Writer B)
    → (send_status code s).status
      ≡ (if ltb code 200 then s.status else if s.status == 0 then code else s.status)
unfolding send_status
send_status-status code s = elim (Bool-cases (ltb code 200)) [
  | inl e ↦ rw e refl
  | inr e ↦ elim (Bool-cases (s.status == 0)) [ inl f ↦ rw (e, f) refl | inr f ↦ rw (e, f) refl ]
]

record_header-agrees :
    {B : Type 0} (code : ℕ) (s : StatusRecorder (Writer B))
    → s.status ≡ s.writer.status
    → (record_header server_writer code s).status
      ≡ (record_header server_writer code s).writer.status
unfolding record_header
record_header-agrees code s h = rw (send_status-status code s.writer) (ground (arith, h))

record_write-agrees :
    {B : Type 0} (b : B) (s : StatusRecorder (Writer B))
    → s.status ≡ s.writer.status
    → (record_write server_writer b s).status ≡ (record_write server_writer b s).writer.status
unfolding record_write
record_write-agrees b s h = rw (send_status-status 200 s.writer) (ground (arith, h))

replay-agrees :
    {B : Type 0} (ops : List (WriteOp B)) (s : StatusRecorder (Writer B))
    → s.status ≡ s.writer.status
    → (replay (recorder server_writer) ops s).status
      ≡ (replay (recorder server_writer) ops s).writer.status
unfolding replay perform_op
replay-agrees [] s h = h
replay-agrees (sets k v ∷ ops) s h = replay-agrees ops _ h
replay-agrees (adds k v ∷ ops) s h = replay-agrees ops _ h
replay-agrees (sends code ∷ ops) s h = replay-agrees ops _ (record_header-agrees code s h)
replay-agrees (writes b ∷ ops) s h = replay-agrees ops _ (record_write-agrees b s h)

-- Whatever a handler does to a response of which no status has been sent, in any order, the status
-- that the request log records is the one that the client receives.
pub status_code-sent :
    {B : Type 0} (ops : List (WriteOp B)) (s : Writer B)
    → s.status ≡ 0
    → let done = replay (recorder server_writer) ops (record { writer = s; status = 0 }) in
      status_code done ≡ sent_status done.writer
unfolding status_code
status_code-sent ops s h =
    let e = replay-agrees ops (record { writer = s; status = 0 }) (sym h) in rw e refl
