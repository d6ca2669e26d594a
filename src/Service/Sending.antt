-- ===== src/Service/Sending.antt =====
-- `_gdata_service_send_message` of gdata/gdata-service.c: how often it sends, and which errors it sets.
use libgdata.Base.{
  ℕ, suc, ◌+◌, ◌≤◌, ◌≡◌, ◌⊎◌, inl, inr, refl, Bool, true, false, Option, none, some, List, [], ◌∷◌,
  Text, codes, arith, Bool-cases, leb, ltb, ◌&&◌, ◌||◌, ◌∙◌, sym,
}
use libgdata.Service.Errors.{
  Status, status_none, status_cancelled, status_cant_resolve, status_cant_resolve_proxy,
  status_cant_connect, status_cant_connect_proxy, status_ssl_failed, status_io_error,
  status_malformed, code, ServiceError, cancelled_error, protocol_error, is_none_status,
  is_cancelled_status, is_unauthorized, is_connection_failure,
}
use libgdata.Service.{
  Message, Surroundings, Exchange, send_or_cancel, set_cancelled, actually_send_message, send_again,
  send_to, send_refreshed, send_redirected, send_message, set_error,
}

abbrev pub is_3xx : Status → Bool
is_3xx (code n) = leb 300 n && ltb n 400
is_3xx _ = false

-- libsoup leaves a status behind when a message has been sent, and its test for a redirection is
-- for the statuses 3xx.
pub record IsDocumented (around : Surroundings) : Type 0 where
  pub answered : (n : ℕ) (m : Message) → is_none_status (around.answer n m).status ≡ false
  pub redirection : (s : Status) → around.is_redirection s ≡ is_3xx s

-- The one error that a status stands for, if it was sent to the end.
abbrev pub errors_of : Status → List ServiceError
errors_of status_cancelled = cancelled_error ∷ []
errors_of _ = []

-- The errors that a call may leave with the status it returns: a redirect that leads nowhere is the
-- status none, with an error if there was a place to go.
abbrev pub Reported : Status → List ServiceError → Type 0
Reported status_none es =
    (es ≡ []) ⊎ (es ≡ protocol_error (codes "Invalid redirect URI: (null)") ∷ [])
Reported s es = es ≡ errors_of s

neither_of : (x y : Bool) → (x || y) ≡ false → x ≡ false
neither_of x y h = ground arith

pub errors_of-not_cancelled : (s : Status) → is_cancelled_status s ≡ false → errors_of s ≡ []
errors_of-not_cancelled status_cancelled h = cc
errors_of-not_cancelled status_none h = refl
errors_of-not_cancelled status_cant_resolve h = refl
errors_of-not_cancelled status_cant_resolve_proxy h = refl
errors_of-not_cancelled status_cant_connect h = refl
errors_of-not_cancelled status_cant_connect_proxy h = refl
errors_of-not_cancelled status_ssl_failed h = refl
errors_of-not_cancelled status_io_error h = refl
errors_of-not_cancelled status_malformed h = refl
errors_of-not_cancelled (code n) h = refl

Reported-errors_of :
    (s : Status) (es : List ServiceError)
    → is_none_status s ≡ false
    → es ≡ errors_of s
    → Reported s es
Reported-errors_of status_none es h e = absurd (cc)
Reported-errors_of status_cancelled es h e = e
Reported-errors_of status_cant_resolve es h e = e
Reported-errors_of status_cant_resolve_proxy es h e = e
Reported-errors_of status_cant_connect es h e = e
Reported-errors_of status_cant_connect_proxy es h e = e
Reported-errors_of status_ssl_failed es h e = e
Reported-errors_of status_io_error es h e = e
Reported-errors_of status_malformed es h e = e
Reported-errors_of (code n) es h e = e

module _ (around : Surroundings) (documented : IsDocumented around) where
  -- The state behind a send that went through.
  pub record IsSettled (x' : Exchange) : Type 0 where
    pub answered : is_none_status x'.status ≡ false
    pub reported : x'.errors ≡ errors_of x'.status

  set_cancelled_lem :
      (x : Exchange)
      → x.errors ≡ []
      → is_none_status x.status ≡ false
      → (x' : Exchange) × (set_cancelled around x ≡ some x') × (x'.sends ≡ x.sends) × IsSettled x'
  unfolding set_cancelled
  set_cancelled_lem x clear sent =
      elim (Bool-cases (
        is_cancelled_status x.status
        || (is_connection_failure x.status && (around.has_cancellable && x.cancelled)))) [
          | inl stop ↦ (
            record (set_error x cancelled_error) { status = status_cancelled },
            rw (sent, stop) refl,
            refl,
            record { answered = refl; reported = rw clear refl },
          )
          | inr go ↦ (
            x,
            rw (sent, go) refl,
            refl,
            record {
              answered = sent;
              reported = clear ∙ sym (errors_of-not_cancelled x.status (neither_of _ _ go));
            },
          )
        ]

  send_or_cancel_lem :
      (x : Exchange)
      → ((send_or_cancel around x).sends ≤ suc x.sends)
        × (is_none_status (send_or_cancel around x).status ≡ false)
        × ((send_or_cancel around x).errors ≡ x.errors)
  unfolding send_or_cancel
  send_or_cancel_lem x = elim (Bool-cases (around.has_cancellable && x.cancelled)) [
    | inl stop ↦ simp stop (omega arith, refl, refl)
    | inr go ↦ simp go (omega arith, documented.answered x.sends x.message, refl)
  ]

  -- One send, with no error set before: it goes through, at most once over the network, and the
  -- cancelled status alone leaves an error.
  pub actually_send_message_lem :
      (x : Exchange)
      → x.errors ≡ []
      → (x' : Exchange) × (actually_send_message around x ≡ some x')
        × (x'.sends ≤ suc x.sends)
        × IsSettled x'
  unfolding actually_send_message
  actually_send_message_lem x clear =
      let (bound, sent, same) = send_or_cancel_lem x in
      let (x', run, count, settled) =
        set_cancelled_lem (send_or_cancel around x) (same ∙ clear) sent in
      (x', run, omega arith, settled)

  IsSettled-Reported : (x : Exchange) → IsSettled x → Reported x.status x.errors
  IsSettled-Reported x h = Reported-errors_of x.status x.errors h.answered h.reported

  -- How a part of the call that sends at most `n` times ends.
  abbrev Ended : ℕ → Exchange → Option (Status × Exchange) → Type 0
  Ended n x run =
      (s : Status) × (x' : Exchange) × (run ≡ some (s, x'))
      × (x'.sends ≤ x.sends + n)
      × Reported s x'.errors

  send_again_lem :
      (r : Option (Bool × Bool)) (x : Exchange) → IsSettled x → Ended 1 x (send_again around r x)
  unfolding send_again
  send_again_lem none x h = (x.status, x, refl, omega arith, IsSettled-Reported x h)
  send_again_lem (some (false, cancels)) x h =
      (x.status, _, refl, omega arith, IsSettled-Reported x h)
  send_again_lem (some (true, cancels)) x h =
      let y = record x {
        message = record x.message { processed = suc x.message.processed };
        cancelled = x.cancelled || cancels;
        errors = [];
      } in
      let (x', run, count, h') = actually_send_message_lem y refl in
      (x'.status, x', rw run refl, omega arith, IsSettled-Reported x' h')

  send_refreshed_lem : (x : Exchange) → IsSettled x → Ended 1 x (send_refreshed around x)
  unfolding send_refreshed
  send_refreshed_lem x h = elim (Bool-cases (is_unauthorized x.status)) [
    | inl denied ↦ rw denied (send_again_lem around.refresh x h)
    | inr fine ↦ rw fine (x.status, x, refl, omega arith, IsSettled-Reported x h)
  ]

  send_to_lem : (u : Option Text) (x : Exchange) → x.errors ≡ [] → Ended 2 x (send_to around u x)
  unfolding send_to
  send_to_lem none x clear = (status_none, _, refl, omega arith, inr (rw clear refl))
  send_to_lem (some u) x clear =
      let y = record x { message = record x.message { uri = around.with_port u } } in
      let (x', run, count, h) = actually_send_message_lem y clear in
      let (s, x'', run', count', reported) = send_refreshed_lem x' h in
      (s, x'', rw run run', omega arith, reported)

  send_redirected_lem :
      (l : Option Text) (x : Exchange) → x.errors ≡ [] → Ended 2 x (send_redirected around l x)
  unfolding send_redirected
  send_redirected_lem none x clear = (status_none, x, refl, omega arith, inl clear)
  send_redirected_lem (some l) x clear = send_to_lem (around.with_base x.message.uri l) x clear

  redirection_clear : (s : Status) → is_3xx s ≡ true → errors_of s ≡ []
  redirection_clear s h = errors_of-not_cancelled s (apart s h)
    where
      apart : (s : Status) → is_3xx s ≡ true → is_cancelled_status s ≡ false
      apart status_cancelled h = cc
      apart status_none h = refl
      apart status_cant_resolve h = refl
      apart status_cant_resolve_proxy h = refl
      apart status_cant_connect h = refl
      apart status_cant_connect_proxy h = refl
      apart status_ssl_failed h = refl
      apart status_io_error h = refl
      apart status_malformed h = refl
      apart (code n) h = refl

  -- With no error set before, and whatever the server, the network and the authorizer do, a message
  -- goes out at most three times, the call returns, and the error that it leaves tells the status: a
  -- cancelled one has the cancellation error and no other; the status none has the error for an
  -- invalid redirect or none; every other status has none.
  pub send_message_lem :
      (x : Exchange)
      → x.errors ≡ []
      → (s : Status) × (x' : Exchange) × (send_message around x ≡ some (s, x'))
        × (x'.sends ≤ x.sends + 3)
        × Reported s x'.errors
  unfolding send_message
  send_message_lem x clear =
      let (x1, run1, count1, h1) = actually_send_message_lem x clear in
      elim (Bool-cases (around.is_redirection x1.status)) [
        | inl away ↦
            let clear1 =
              h1.reported
              ∙ redirection_clear x1.status (sym (documented.redirection x1.status) ∙ away) in
            let (s, x', run, count, reported) = send_redirected_lem x1.location x1 clear1 in
            (s, x', rw run1 (rw away run), omega arith, reported)
        | inr here ↦
            let (s, x', run, count, reported) = send_refreshed_lem x1 h1 in
            (s, x', rw run1 (rw here run), omega arith, reported)
      ]
