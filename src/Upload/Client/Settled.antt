-- ===== src/Upload/Client/Settled.antt =====
-- `gdata_upload_stream_close` of gdata/gdata-upload-stream.c, and what the stream answers after it.
use libgdata.Base.{
  ◌≡◌, refl, Bool, true, false, not, Option, none, some, Text, length, ◌⊎◌, Bool-cases, inl, inr,
}
use libgdata.Buffer.{Outcome, ok, overrun, assertion, blocked, ◌>>=◌}
use libgdata.Service.Errors.{Status, status_none, status_cancelled, is_none_status, ServiceError}
use libgdata.Upload.{Upload}
use libgdata.Upload.Client.{
  cancelled, closed, Closing, CloseError, stream_error, service_error, start_close, settle, close,
  get_response,
}

-- The upload has finished, with an answer, or the call is cancelled before.
abbrev pub HasEnded : Closing → Type 0
HasEnded c =
    ((c.is_finished ≡ true) × (is_none_status c.status ≡ false))
    ⊎ ((c.is_finished ≡ false) × (c.is_cancelled ≡ true))

abbrev pub WakesEnded : Option Closing → Type 0
WakesEnded none = Unit
WakesEnded (some c) = HasEnded c

-- A close returns what satisfies `P`, or is never woken up.
abbrev pub Comes :
    (Upload × Option CloseError × Status → Type 0)
    → Option Closing
    → Outcome (Upload × Option CloseError × Status)
    → Type 0
Comes P wake (ok r) = P r
Comes P wake blocked = wake ≡ none
Comes P wake overrun = ⊥
Comes P wake assertion = ⊥

module _ (is_successful : Status → Bool) (parse_error : Status → Text → Option Text → ServiceError)
    (cancelled_failure : is_successful status_cancelled ≡ false) where
  -- What a response is where the close has come out with `e`: the body, or nothing but its length 0.
  abbrev pub AnswersAs : Text → Option CloseError → Status → Type 0
  AnswersAs body none status =
      get_response is_successful status body ≡ (some (length body), some body)
  AnswersAs body (some e) status = get_response is_successful status body ≡ (some 0, none)

  abbrev IsSettled : Text → Option CloseError × Status → Type 0
  IsSettled body r = (is_none_status r.1 ≡ false) × AnswersAs body r.0 r.1

  settle-IsSettled :
      (body : Text) (c : Closing)
      → HasEnded c
      → (r : Option CloseError × Status) × (settle is_successful parse_error c ≡ ok r)
        × IsSettled body r
  unfolding settle get_response
  settle-IsSettled body c (inr (running, stopped)) = (
    (some (stream_error cancelled), status_cancelled),
    rw (running, stopped) refl,
    (refl, rw cancelled_failure refl),
  )
  settle-IsSettled body c (inl (over, known)) = elim (Bool-cases (not (is_successful c.status))) [
    | inl bad ↦ (
      (some (service_error (parse_error c.status c.reason c.response)), c.status),
      rw (over, known, bad) refl,
      (known, rw (known, bad) refl),
    )
    | inr good ↦ ((none, c.status), rw (over, known, good) refl, (known, rw (known, good) refl))
  ]

  -- With the same upload, whatever is seen the second time.
  close_again :
      (entry whole : Bool) (status : Status) (before now : Closing) (wake : Option Closing)
      (u : Upload)
      → is_none_status status ≡ false
      → close is_successful parse_error true entry whole status before now wake u
        ≡ ok (u, some (stream_error closed), status)
  unfolding close
  close_again entry whole status before now wake u known = rw known refl

  module _ (body : Text) (entry' whole' : Bool) (before' now' : Closing)
      (wake' : Option Closing) where
    -- What is left of a stream by a close, and what a second close makes of it.
    abbrev pub IsClosed : Upload × Option CloseError × Status → Type 0
    IsClosed r =
        AnswersAs body r.1 r.2
        × (close is_successful parse_error true entry' whole' r.2 before' now' wake' r.0
            ≡ ok (r.0, some (stream_error closed), r.2))

    settle-IsClosed :
        (c : Closing) (u : Upload) (wake : Option Closing)
        → HasEnded c
        → Comes IsClosed wake (settle is_successful parse_error c >>= λ r. ok (u, r.0, r.1))
    settle-IsClosed c u wake ended =
        let (r, run, (known, answers)) = settle-IsSettled body c ended in
        rw run (answers, close_again entry' whole' r.1 before' now' wake' u known)

    -- The first close of a stream that has its thread, where the upload has finished with an answer,
    -- or the call is cancelled before, when the close has waited, returns and sets a response status;
    -- or it is never woken up. By the status the stream answers with the whole response body if the
    -- close had no error, and with no response if it had one; and a second close fails, as closed,
    -- and changes nothing. No assertion fails.
    pub close-get_response :
        (entry whole : Bool) (before now : Closing) (wake : Option Closing) (u : Upload)
        → HasEnded now
        → WakesEnded wake
        → Comes IsClosed wake
            (close is_successful parse_error true entry whole status_none before now wake u)
    unfolding close
    close-get_response entry whole before now wake u ended woken =
        elim (Bool-cases before.is_finished) [
          | inl finished ↦ rw finished (settle-IsClosed now u wake ended)
          | inr running ↦ elim (Bool-cases before.is_cancelled) [
            | inl stopped ↦
                rw (running, stopped) (settle-IsClosed now (start_close entry whole u) wake ended)
            | inr waits ↦ rw (running, waits) (after_wait wake woken)
          ]
        ]
      where
        after_wait :
            (wake : Option Closing)
            → WakesEnded wake
            → Comes IsClosed wake (elim wake [
              | none ↦ blocked
              | some c ↦ settle is_successful parse_error c >>= λ r.
                  ok (start_close entry whole u, r.0, r.1)
            ])
        after_wait none woken = refl
        after_wait (some c) woken = settle-IsClosed c (start_close entry whole u) (some c) woken
