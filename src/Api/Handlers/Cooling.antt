-- ===== src/Api/Handlers/Cooling.antt =====
-- `handleImportRun` of internal/api/handlers_import.go over the worker of
-- internal/pipeline/worker.go.
use recipe_reader.Common.{
  ℕ, ◌+◌, ◌*◌, ◌≤◌, ◌<◌, ◌≡◌, refl, ◌⊎◌, inl, inr, true, false, none, some, ltb, Bool-cases, arith,
  ltb→lt,
}
use recipe_reader.Pipeline.Worker.{Worker, cooldown, status, begin}
use recipe_reader.Pipeline.Worker.Goroutines.{Service, trigger}
use recipe_reader.Api.Http.{Request, ResponseWriter}
use recipe_reader.Text.{Text, codes}
use recipe_reader.Text.Decimal.{itoa}
use recipe_reader.Api.Middleware.{write_json, write_error}
use recipe_reader.Api.Dto.{Reply, error_reply, started_reply}
use recipe_reader.Api.Handlers.Import.{ImportWorker, second, seconds_up, handle_import_run}

-- The worker, as the handlers call it.
abbrev pub import_worker : ImportWorker Service
import_worker = record {
  cooldown = λ s. (cooldown s.worker s.now, s);
  status = λ s. (status s.worker, s);
  trigger = trigger;
}

-- The seconds cover the time and are no more than it needs.
seconds_up-covers :
    (d : ℕ) → 0 < d → (d ≤ seconds_up d * second) × (seconds_up d * second < d + second)
seconds_up-covers d h = (omega arith, omega arith)

cooldown-later :
    (k : Worker) (now later : ℕ) → cooldown k now ≤ later → cooldown k (now + later) ≡ 0
unfolding cooldown
cooldown-later k now later h = ground arith

cooldown-begins :
    (k : Worker) (now : ℕ)
    → cooldown k now ≡ 0
    → k.running ≡ false
    → begin now k ≡ some (record k { running = true })
unfolding cooldown begin
cooldown-begins k now h e = ground arith

module _ {F S : Type 0} (out : ResponseWriter (Reply F) S) (r : Request) (s : S) (w : Service) where
  -- A request for an import while Instagram is waited out starts nothing: it is answered with the
  -- status 429 and a Retry-After of some seconds in decimal digits, behind which no cooldown is
  -- left and which are less than one more than the wait. Any other one is answered with 202 and
  -- triggers a run, which begins unless another run is in flight.
  pub handle_import_run-keeps :
      let left = cooldown w.worker w.now in
      let p = handle_import_run out (some import_worker) r s w in
      ((0 < left)
        × (seconds : ℕ) × (message : Text) × (p ≡ (
          (
            none,
            write_error out error_reply 429 message
                (out.set_header (codes "Retry-After") (itoa seconds) s),
          ),
          w,
        ))
        × (cooldown w.worker (w.now + seconds * second) ≡ 0)
        × (seconds * second < left + second))
      ⊎ ((p ≡ ((none, write_json out 202 started_reply s), trigger w))
          × ((w.worker.running ≡ true)
              ⊎ (begin w.now w.worker ≡ some (record (w.worker) { running = true }))))
  unfolding handle_import_run
  handle_import_run-keeps = elim (Bool-cases (ltb 0 (cooldown w.worker w.now))) [
    | inl e ↦
        let p = ltb→lt 0 (cooldown w.worker w.now) e in
        let c = seconds_up-covers (cooldown w.worker w.now) p in
        rw e (
          inl (
            p,
            seconds_up (cooldown w.worker w.now),
            _,
            refl,
            cooldown-later w.worker w.now _ c.0,
            c.1,
          ))
    | inr e ↦ rw e (
        inr (
          refl,
          elim (Bool-cases w.worker.running) [
            | inl b ↦ inl b
            | inr b ↦ inr (cooldown-begins w.worker w.now (ground arith) b)
          ],
        ))
  ]
