-- ===== src/Instagram/Client/Spacing.antt =====
-- The floor between two login attempts, over a request of `do`.
use recipe_reader.Common.{
  ℕ, ◌+◌, ◌-◌, ◌*◌, ◌≤◌, ◌≡◌, refl, ◌∙◌, ◌⊎◌, Bool, true, false, inl, inr, if◌then◌else◌,
  Option-cases, not, arith,
}
use recipe_reader.Text.{Text, is_empty}
use recipe_reader.Errors.{Result, ok, err}
use recipe_reader.Instagram.Client.{
  Client, Api, Answer, min_relogin_interval, run_bounded, log_in_and_save, login, reauthenticate,
  request, retried, renew_and_retry, first_answer, send_request, started, perform, is_rate_limited,
  is_terminal_auth_error, is_session_expired,
}

-- How the calls move the number of login attempts that have reached Instagram: a login adds one,
-- nothing else does. The clock does not go back between two readings in a row.
pub record LoginLaws {W Opts Body : Type 0} (logins : W → ℕ) (api : Api W Opts Body) : Type 0 where
  pub at_request : (opts : Opts) (w : W) → logins (api.private_request opts w).1 ≡ logins w
  pub at_login :
      (username password : Text) (w : W)
      → logins (api.raw_login username password w).1 ≡ logins w + 1
  pub at_dump : (path : Text) (w : W) → logins (api.dump_settings path w).1 ≡ logins w
  pub at_slot : (w : W) → logins (api.await_slot w).1 ≡ logins w
  pub at_call : (w : W) → logins (api.await_call w).1 ≡ logins w
  pub at_clock : (w : W) → logins (api.clock w).1 ≡ logins w
  pub forward : (w : W) → (api.clock w).0 ≤ (api.clock (api.clock w).1).0

-- From one client and world to another, the client's time of the last attempt has moved on by the
-- floor for each attempt, and it is a reading of the clock if it has moved.
pub record Spaced {W : Type 0} (time logins : W → ℕ) (c : Client) (w : W) (c' : Client) (w' : W)
    : Type 0 where
  pub stamped : (c'.last_login ≡ c.last_login) ⊎ ((v : W) × (c'.last_login ≡ time v))
  pub attempts : logins w ≤ logins w'
  pub floor :
      c.last_login + min_relogin_interval * logins w'
      ≤ c'.last_login + min_relogin_interval * logins w

Spaced-if :
    {W A : Type 0} (time logins : W → ℕ) (c : Client) (w : W) (b : Bool) (x y : (A × Client) × W)
    → (b ≡ true → Spaced time logins c w x.0.1 x.1)
    → (b ≡ false → Spaced time logins c w y.0.1 y.1)
    → Spaced time logins c w (if b then x else y).0.1 (if b then x else y).1
Spaced-if time logins c w true x y hx hy = hx refl
Spaced-if time logins c w false x y hx hy = hy refl

Spaced-trans :
    {W : Type 0} (time logins : W → ℕ) (c d e : Client) (u v w : W)
    → Spaced time logins c u d v
    → Spaced time logins d v e w
    → Spaced time logins c u e w
Spaced-trans time logins c d e u v w p q = record {
  stamped = elim q.stamped [
    | inl h ↦ elim p.stamped [ inl k ↦ inl (h ∙ k) | inr (x, k) ↦ inr (x, h ∙ k) ]
    | inr h ↦ inr h
  ];
  attempts = omega (arith, p.attempts, q.attempts);
  floor = omega (arith, p.floor, q.floor);
}

Spaced-same :
    {W : Type 0} (time logins : W → ℕ) (c : Client) (v w : W)
    → logins w ≡ logins v
    → Spaced time logins c v c w
Spaced-same time logins c v w e = record {
  stamped = inl refl;
  attempts = omega (arith, e);
  floor = omega (arith, e);
}

module _ {W Opts Body : Type 0} (logins : W → ℕ) (api : Api W Opts Body)
    (laws : LoginLaws logins api) where
  -- A call under the deadline makes at most the attempts that the call makes.
  run_bounded-le :
      {A : Type 0} (n : ℕ) (call : W → Result A × W)
      → ((w : W) → (logins w ≤ logins (call w).1) × (logins (call w).1 ≤ logins w + n))
      → (w : W)
      → (logins w ≤ logins (run_bounded api call w).1)
        × (logins (run_bounded api call w).1 ≤ logins w + n)
  unfolding run_bounded
  run_bounded-le n call h w =
      let slot = api.await_slot w in
      elim (Option-cases slot.0) [
        | inr (x, e) ↦
            rw (e, run_bounded) (omega (arith, laws.at_slot w), omega (arith, laws.at_slot w))
        | inl e ↦
            let answer = call slot.1 in
            let at : logins (api.await_call answer.1).1 ≡ logins answer.1 = laws.at_call answer.1 in
            let le = h slot.1 in
            elim (Option-cases (api.await_call answer.1).0) [
              | inr (x, f) ↦
                  rw (e, f, run_bounded)
                    (
                      omega (arith, laws.at_slot w, at, le.0),
                      omega (arith, laws.at_slot w, at, le.1),
                    )
              | inl f ↦
                  rw (e, f, run_bounded)
                    (
                      omega (arith, laws.at_slot w, at, le.0),
                      omega (arith, laws.at_slot w, at, le.1),
                    )
            ]
      ]

  log_in_and_save-le :
      (username password path : Text) (w : W)
      → (logins w ≤ logins (log_in_and_save api username password path w).1)
        × (logins (log_in_and_save api username password path w).1 ≤ logins w + 1)
  unfolding log_in_and_save
  log_in_and_save-le username password path w =
      let answer = api.raw_login username password w in
      let at = laws.at_login username password w in
      elim (Option-cases answer.0) [
        | inr (x, e) ↦ rw (e, log_in_and_save) (omega (arith, at), omega (arith, at))
        | inl e ↦
            let saved = laws.at_dump path answer.1 in
            elim (Option-cases (api.dump_settings path answer.1).0) [
              | inr (x, f) ↦
                  rw (e, f, log_in_and_save) (omega (arith, at, saved), omega (arith, at, saved))
              | inl f ↦
                  rw (e, f, log_in_and_save) (omega (arith, at, saved), omega (arith, at, saved))
            ]
      ]

  logins-request : (opts : Opts) (w : W) → logins (request api opts w).1 ≡ logins w
  unfolding request
  logins-request opts w =
      let le =
        run_bounded-le 0 (api.private_request opts)
          (λ v. (omega (arith, laws.at_request opts v), omega (arith, laws.at_request opts v))) w in
      omega (arith, le.0, le.1)

  login-Spaced :
      (c : Client) (w : W)
      → min_relogin_interval ≤ (api.clock w).0 - c.last_login
      → let now = api.clock w in
        let done = login api c.username c.password c.session_path c now.1 in
        Spaced (λ v. (api.clock v).0) logins c w done.0.1 done.1
  unfolding login
  login-Spaced c w h =
      let now = api.clock w in
      let again = api.clock now.1 in
      let le =
        run_bounded-le 1 (log_in_and_save api c.username c.password c.session_path)
          (log_in_and_save-le c.username c.password c.session_path) again.1 in
      let a : logins again.1 ≡ logins w = omega (arith, laws.at_clock w, laws.at_clock now.1) in
      record {
        stamped = inr (now.1, refl);
        attempts = omega (arith, a, le.0);
        floor = omega (arith, a, le.1, laws.forward w, h);
      }

  reauthenticate-Spaced :
      (c : Client) (w : W)
      → Spaced
          (λ v. (api.clock v).0)
          logins
          c
          w
          (reauthenticate api c w).0.1
          (reauthenticate api c w).1
  unfolding reauthenticate
  reauthenticate-Spaced c w =
      let same = Spaced-same (λ v. (api.clock v).0) logins c w _ (laws.at_clock w) in
      Spaced-if (λ v. (api.clock v).0) logins c w (is_empty c.username) _ _ (λ e. same)
        (λ e.
          Spaced-if (λ v. (api.clock v).0) logins c w _ _ _ (λ f. same)
            (λ f. login-Spaced c w (ground (arith, f))))

  retried-Spaced :
      (opts : Opts) (answer : Answer) (c : Client) (w : W)
      → Spaced
          (λ v. (api.clock v).0)
          logins
          c
          w
          (retried api opts answer c w).0.1
          (retried api opts answer c w).1
  unfolding retried
  retried-Spaced opts (err e) c w = Spaced-same (λ v. (api.clock v).0) logins c w w refl
  retried-Spaced opts (ok done) c w =
      Spaced-same (λ v. (api.clock v).0) logins c w _ (logins-request opts w)

  renew_and_retry-Spaced :
      (opts : Opts) (c : Client) (w : W)
      → Spaced
          (λ v. (api.clock v).0)
          logins
          c
          w
          (renew_and_retry api opts c w).0.1
          (renew_and_retry api opts c w).1
  unfolding renew_and_retry
  renew_and_retry-Spaced opts c w =
      let renewed = reauthenticate api c w in
      Spaced-trans (λ v. (api.clock v).0) logins c renewed.0.1 _ w renewed.1 _
        (reauthenticate-Spaced c w) (retried-Spaced opts renewed.0.0 renewed.0.1 renewed.1)

  first_answer-Spaced :
      (opts : Opts) (c : Client) (answer : Result Body) (w : W)
      → Spaced
          (λ v. (api.clock v).0)
          logins
          c
          w
          (first_answer api opts c answer w).0.1
          (first_answer api opts c answer w).1
  unfolding first_answer
  first_answer-Spaced opts c (ok body) w = Spaced-same (λ v. (api.clock v).0) logins c w w refl
  first_answer-Spaced opts c (err e) w =
      let same = Spaced-same (λ v. (api.clock v).0) logins c w w refl in
      Spaced-if (λ v. (api.clock v).0) logins c w (is_rate_limited e) _ _ (λ h. same)
        (λ h.
          Spaced-if (λ v. (api.clock v).0) logins c w (is_terminal_auth_error e) _ _ (λ i. same)
            (λ i.
              Spaced-if (λ v. (api.clock v).0) logins c w (not (is_session_expired e)) _ _
                (λ j. same) (λ j. renew_and_retry-Spaced opts c w)))

  send_request-Spaced :
      (opts : Opts) (c : Client) (w : W)
      → Spaced
          (λ v. (api.clock v).0)
          logins
          c
          w
          (send_request api opts c w).0.1
          (send_request api opts c w).1
  unfolding send_request
  send_request-Spaced opts c w =
      let answer = request api opts w in
      Spaced-trans (λ v. (api.clock v).0) logins c c _ w answer.1 _
        (Spaced-same (λ v. (api.clock v).0) logins c w _ (logins-request opts w))
        (first_answer-Spaced opts c answer.0 answer.1)

  started-Spaced :
      (opts : Opts) (answer : Answer) (c : Client) (w : W)
      → Spaced
          (λ v. (api.clock v).0)
          logins
          c
          w
          (started api opts answer c w).0.1
          (started api opts answer c w).1
  unfolding started
  started-Spaced opts (err e) c w = Spaced-same (λ v. (api.clock v).0) logins c w w refl
  started-Spaced opts (ok done) c w = send_request-Spaced opts c w

-- Over any request of `do`, however it ends, the floor of 15 minutes holds for every login attempt
-- that it lets through: the client's time of the last attempt moves on by at least 15 minutes for
-- each attempt that reaches Instagram, and if it moves it is a reading of the clock. The conditions
-- are that only the dependency's login counts as an attempt and that the clock does not go back
-- between two readings in a row.
pub perform-Spaced :
    {W Opts Body : Type 0} (logins : W → ℕ) (api : Api W Opts Body) (laws : LoginLaws logins api)
    (opts : Opts) (c : Client) (w : W)
    → Spaced (λ v. (api.clock v).0) logins c w (perform api opts c w).0.1 (perform api opts c w).1
unfolding perform
perform-Spaced logins api laws opts c w =
    let first = reauthenticate api c w in
    Spaced-if (λ v. (api.clock v).0) logins c w c.has_session _ _
      (λ h. send_request-Spaced logins api laws opts c w)
      (λ h.
        Spaced-trans (λ v. (api.clock v).0) logins c first.0.1 _ w first.1 _
          (reauthenticate-Spaced logins api laws c w)
          (started-Spaced logins api laws opts first.0.0 first.0.1 first.1))
