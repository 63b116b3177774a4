-- ===== src/Instagram/Client/Naming.antt =====
-- `do`: the errors that the worker and the operator act on carry their sentinel.
use recipe_reader.Common.{
  ◌≡◌, refl, Bool, true, false, ◌||◌, if◌then◌else◌, inl, inr, Bool-cases, arith,
}
use recipe_reader.Errors.{Error, Result, ok, err, Sentinel, sentinel, errors_is, wrap2}
use recipe_reader.Instagram.Client.{
  Client, Api, Answer, retried, started, is_session_expired, is_rate_limited,
  is_terminal_auth_error, request, second_answer, renew_and_retry, first_answer, send_request,
  perform,
}

-- The error says that the account is throttled, or that only a login or a person can help.
abbrev pub IsActionable : Error → Type 0
IsActionable e = (is_rate_limited e || (is_session_expired e || is_terminal_auth_error e)) ≡ true

abbrev pub IsSaid : Error → Type 0
IsSaid e = (errors_is e Sentinel.rate_limited || errors_is e Sentinel.reauth_required) ≡ true

-- An error that is actionable carries one of the two sentinels.
abbrev pub IsNamed {ℓ} : {A : Type ℓ} → Result A → Type 0
IsNamed (ok body) = Unit
IsNamed (err e) = IsActionable e → IsSaid e

IsSaid-rate_limited : (e : Error) → IsSaid (wrap2 (sentinel Sentinel.rate_limited) e)
unfolding errors_is
IsSaid-rate_limited e = refl

IsSaid-reauth_required : (e : Error) → IsSaid (wrap2 (sentinel Sentinel.reauth_required) e)
unfolding errors_is
IsSaid-reauth_required e = elim (Bool-cases (errors_is e Sentinel.rate_limited)) [
  | inl h ↦ rw h refl
  | inr h ↦ rw h refl
]

Unsaid :
    (e : Error)
    → is_rate_limited e ≡ false
    → (is_session_expired e || is_terminal_auth_error e) ≡ false
    → IsActionable e
    → IsSaid e
Unsaid e t a h = ground arith

IsNamed-if :
    {A B C : Type 0} (b : Bool) (x y : (Result A × B) × C)
    → IsNamed x.0.0
    → IsNamed y.0.0
    → IsNamed (if b then x else y).0.0
IsNamed-if true x y hx hy = hx
IsNamed-if false x y hx hy = hy

module _ {W Opts Body : Type 0} (api : Api W Opts Body) where
  second_answer-IsNamed : (answer : Result Body) → IsNamed (second_answer api answer)
  unfolding second_answer
  second_answer-IsNamed (ok body) = tt
  second_answer-IsNamed (err e) = elim (Bool-cases (is_rate_limited e)) [
    | inl t ↦ rw t (λ h. IsSaid-rate_limited e)
    | inr t ↦ elim (Bool-cases (is_session_expired e || is_terminal_auth_error e)) [
      | inl a ↦ rw (t, a) (λ h. IsSaid-reauth_required e)
      | inr a ↦ rw (t, a) (λ h. Unsaid e t a h)
    ]
  ]

  retried-IsNamed :
      (opts : Opts) (answer : Answer) (c : Client) (w : W)
      → IsNamed (retried api opts answer c w).0.0
  unfolding retried
  retried-IsNamed opts (err e) c w = λ h. IsSaid-reauth_required e
  retried-IsNamed opts (ok done) c w = second_answer-IsNamed (request api opts w).0

  renew_and_retry-IsNamed :
      (opts : Opts) (c : Client) (w : W) → IsNamed (renew_and_retry api opts c w).0.0
  unfolding renew_and_retry
  renew_and_retry-IsNamed opts c w = retried-IsNamed opts _ _ _

  first_answer-IsNamed :
      (opts : Opts) (c : Client) (answer : Result Body) (w : W)
      → IsNamed (first_answer api opts c answer w).0.0
  unfolding first_answer
  first_answer-IsNamed opts c (ok body) w = tt
  first_answer-IsNamed opts c (err e) w = elim (Bool-cases (is_rate_limited e)) [
    | inl t ↦ rw t (λ h. IsSaid-rate_limited e)
    | inr t ↦ elim (Bool-cases (is_terminal_auth_error e)) [
      | inl a ↦ rw (t, a) (λ h. IsSaid-reauth_required e)
      | inr a ↦ elim (Bool-cases (is_session_expired e)) [
        | inl b ↦ rw (t, a, b) (renew_and_retry-IsNamed opts c w)
        | inr b ↦ rw (t, a, b) (λ h. Unsaid e t (rw (b, a) refl) h)
      ]
    ]
  ]

  send_request-IsNamed :
      (opts : Opts) (c : Client) (w : W) → IsNamed (send_request api opts c w).0.0
  unfolding send_request
  send_request-IsNamed opts c w = first_answer-IsNamed opts c _ _

  started-IsNamed :
      (opts : Opts) (answer : Answer) (c : Client) (w : W)
      → IsNamed (started api opts answer c w).0.0
  unfolding started
  started-IsNamed opts (err e) c w = λ h. IsSaid-reauth_required e
  started-IsNamed opts (ok done) c w = send_request-IsNamed opts c w

  -- Whatever `do` returns, an error that says the account is throttled, its session has expired or
  -- a person is needed is one of the two that the import names.
  pub perform-IsNamed : (opts : Opts) (c : Client) (w : W) → IsNamed (perform api opts c w).0.0
  unfolding perform
  perform-IsNamed opts c w =
      IsNamed-if c.has_session _ _ (send_request-IsNamed opts c w) (started-IsNamed opts _ _ _)
