-- ===== src/Oauth1/Granting.antt =====
-- What the two requests of gdata/gdata-oauth1-authorizer.c for a token come to, and which domains are
-- authorized behind them.
use libgdata.Base.{
  ◌≤◌, ◌≡◌, ◌≢◌, refl, ap, ◌∙◌, ◌⊎◌, inl, inr, Bool, true, false, Option, none, some, [], ◌∷◌, ◌++◌,
  Text, codes, arith, Bool-cases, Option-cases,
}
use libgdata.Oauth1.{Library}
use libgdata.Oauth1.Authorizer.{Authorizer}
use libgdata.Oauth1.Requests.{
  Forms, both_given, malformed, store_token, read_access_answer, access_request,
  request_authorization,
}
use libgdata.Service.{exchange_for, Surroundings, Exchange, set_error, actually_send_message}
use libgdata.Service.Sending.{
  IsDocumented, actually_send_message_lem, errors_of, errors_of-not_cancelled,
}
use libgdata.Service.Errors.{
  Status, status_none, status_cancelled, status_cant_resolve, status_cant_resolve_proxy,
  status_cant_connect, status_cant_connect_proxy, status_ssl_failed, status_io_error,
  status_malformed, code, ServiceError, cancelled_error, protocol_error, forbidden,
  is_cancelled_status, is_code,
}

-- Two texts that are both there and not empty.
pub both_given-some :
    (o p : Option Text) (t s : Text)
    → both_given o p ≡ some (t, s)
    → (o ≡ some t) × (p ≡ some s) × (t ≢ []) × (s ≢ [])
unfolding both_given
both_given-some (some (c ∷ t)) (some (e ∷ s)) t' s' h = (cc, cc, λ k. cc, λ k. cc)
both_given-some (some (c ∷ t)) (some []) t' s' h = cc
both_given-some (some (c ∷ t)) none t' s' h = cc
both_given-some (some []) p t' s' h = cc
both_given-some none p t' s' h = cc

-- The error that a request leaves, by the exchange `x` that its message came back with: the one of a
-- cancellation, `denied` for a status that is no success, or the one for an answer that is not
-- understood.
abbrev pub Refused : ServiceError → Exchange → Exchange → Type 0
Refused denied x x' =
    ((x.status ≡ status_cancelled) × (x'.errors ≡ cancelled_error ∷ []))
    ⊎ (((is_code 200 x.status ≡ false)
          × (is_cancelled_status x.status ≡ false)
          × (x'.errors ≡ denied ∷ []))
        ⊎ ((is_code 200 x.status ≡ true) × (x'.errors ≡ malformed ∷ [])))

pub is_cancelled_status-eq : (s : Status) → is_cancelled_status s ≡ true → s ≡ status_cancelled
is_cancelled_status-eq status_cancelled h = refl
is_cancelled_status-eq (code n) h = cc
is_cancelled_status-eq status_none h = cc
is_cancelled_status-eq status_cant_resolve h = cc
is_cancelled_status-eq status_cant_resolve_proxy h = cc
is_cancelled_status-eq status_cant_connect h = cc
is_cancelled_status-eq status_cant_connect_proxy h = cc
is_cancelled_status-eq status_ssl_failed h = cc
is_cancelled_status-eq status_io_error h = cc
is_cancelled_status-eq status_malformed h = cc

pub errors_of-cancelled :
    (s : Status) → is_cancelled_status s ≡ true → errors_of s ≡ cancelled_error ∷ []
errors_of-cancelled s h = ap errors_of (is_cancelled_status-eq s h)

abbrev pub denied : ServiceError
denied = forbidden (codes "Access was denied by the user or server.")

abbrev pub rejected : ServiceError
rejected = protocol_error (codes "The server rejected the temporary credentials request.")

module _ (forms : Forms) where
  -- How the request for an access token comes out, with the authorizer `a` before and the exchange `x`
  -- that its message came back with. It is granted: the answer names a token and a secret, and the
  -- authorizer has exactly these. Or it is refused, with one error and the authorizer as it was. Or
  -- the answer has no body, and an assertion fails.
  pub data AccessResult (a : Authorizer) (x : Exchange)
      : Option (Exchange × Bool × Authorizer) → Type 0 where
    granted :
        (body t s : Text)
        → is_code 200 x.status ≡ true
        → x.errors ≡ []
        → x.body ≡ some body
        → forms.decode body (codes "oauth_token") ≡ some t
        → forms.decode body (codes "oauth_token_secret") ≡ some s
        → t ≢ []
        → s ≢ []
        → AccessResult a x (some (x, true, record a { token = some t; token_secret = some s }))
    refused : (x' : Exchange) → Refused denied x x' → AccessResult a x (some (x', false, a))
    no_body : is_code 200 x.status ≡ true → x.errors ≡ [] → x.body ≡ none → AccessResult a x none

module _ (library : Library) (forms : Forms) (around : Surroundings) where
  AccessResult-store :
      (a : Authorizer) (x : Exchange) (body : Text)
      → is_code 200 x.status ≡ true
      → x.errors ≡ []
      → x.body ≡ some body
      → AccessResult forms a x (some (store_token library forms around a body x))
  unfolding store_token
  AccessResult-store a x body good clear held =
      elim (Option-cases (
        both_given (forms.decode body (codes "oauth_token"))
          (forms.decode body (codes "oauth_token_secret")))) [
            | inl wrong ↦
                rw (wrong, store_token)
                  (refused (set_error x malformed)
                    (inr (inr (good, ap (λ es. es ++ malformed ∷ []) clear))))
            | inr ((t, s), right) ↦
                let (token, secret, some_token, some_secret) = both_given-some _ _ t s right in
                rw (right, store_token)
                  (granted body t s good clear held token secret some_token some_secret)
          ]

  AccessResult-read :
      (a : Authorizer) (x : Exchange)
      → x.errors ≡ errors_of x.status
      → AccessResult forms a x (read_access_answer library forms around a x)
  unfolding read_access_answer
  AccessResult-read a x told = elim (Bool-cases (is_cancelled_status x.status)) [
    | inl stop ↦ simp stop (
        refused x
          (inl (is_cancelled_status-eq x.status stop, told ∙ errors_of-cancelled x.status stop)))
    | inr on ↦
        let clear = told ∙ errors_of-not_cancelled x.status on in
        elim (Bool-cases (is_code 200 x.status)) [
          | inr bad ↦
              simp (on, bad)
                (refused (set_error x denied)
                  (inr (inl (bad, on, ap (λ es. es ++ denied ∷ []) clear))))
          | inl good ↦ elim (Option-cases x.body) [
            | inl nothing ↦ simp (on, good, nothing) (no_body good clear nothing)
            | inr (body, held) ↦ simp (on, good, held) (AccessResult-store a x body good clear held)
          ]
        ]
  ]

  module _ (documented : IsDocumented around) where
    pub request_authorization-AccessResult :
        (a : Authorizer) (token token_secret verifier : Text) (cancelled : Bool)
        (nonce timestamp : Text)
        → token ≢ []
        → token_secret ≢ []
        → verifier ≢ []
        → (x : Exchange) × (actually_send_message around (
              exchange_for
                (access_request library forms around token token_secret verifier nonce
                  timestamp).uri
                cancelled)
            ≡ some x)
          × (x.sends ≤ 1)
          × AccessResult forms a x (
              request_authorization library forms around a token token_secret verifier cancelled
                nonce timestamp)
    unfolding request_authorization
    request_authorization-AccessResult a [] s v c n t h k l = absurd (h refl)
    request_authorization-AccessResult a (x ∷ token) [] v c n t h k l = absurd (k refl)
    request_authorization-AccessResult a (x ∷ token) (y ∷ s) [] c n t h k l = absurd (l refl)
    request_authorization-AccessResult a (x ∷ token) (y ∷ s) (z ∷ v) c n t h k l =
        let (x', sent, few, settled) =
          actually_send_message_lem around documented
            (exchange_for (access_request library forms around (x ∷ token) (y ∷ s) (z ∷ v) n t).uri
              c)
            refl in
        (x', sent, omega arith, rw sent (AccessResult-read a x' settled.reported))
