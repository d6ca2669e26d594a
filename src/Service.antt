-- ===== src/Service.antt =====
-- gdata/gdata-service.c: how a message is sent, sent again after a redirect or a refreshed
-- authorization, and what a query makes of the answer. What the server and the network do is the
-- parameter `answer`, which depends on the number of sends before and on the message; what libsoup
-- says of a status and of a URI, and what the authorizer says, are in the record `Surroundings`.
pub mod Errors
pub mod Sending
pub mod Querying
pub mod Uris
pub mod Templates
pub mod Entries
pub mod Outcomes
pub mod Updates
pub mod Feeds
pub mod Fetched
use libgdata.Base.{
  ℕ, suc, Bool, true, false, ◌&&◌, ◌||◌, Option, none, some, List, [], ◌∷◌, ◌++◌, Text, codes,
  if◌then◌else◌,
}
use libgdata.Service.Errors.{
  Status, status_none, status_cancelled, code, ServiceError, cancelled_error, protocol_error,
  is_cancelled_status, is_connection_failure, is_none_status, is_unauthorized, is_not_modified,
  is_ok, parse_error_response, OperationType, query,
}

infixl 5 ◌>>=◌
abbrev pub ◌>>=◌ {ℓ κ} : {A : Type ℓ} {B : Type κ} → Option A → (A → Option B) → Option B
none >>= f = none
some a >>= f = f a

pub record Message : Type 0 where
  pub uri : Text
  pub processed : ℕ

pub record Response : Type 0 where
  pub status : Status
  pub location : Option Text
  pub reason : Text
  pub body : Option Text
  pub cancels : Bool

-- `is_redirection` is `SOUP_STATUS_IS_REDIRECTION`, and `number` is the number of a status;
-- `with_base` is `soup_uri_new_with_base`, and `with_port` puts the HTTPS port into a URI. `refresh`
-- is what `gdata_authorizer_refresh_authorization` returns, with whether the cancellable is cancelled
-- meanwhile; it is `none` where the service has no authorizer.
pub record Surroundings : Type 0 where
  pub has_cancellable : Bool
  pub answer : ℕ → Message → Response
  pub is_redirection : Status → Bool
  pub number : Status → ℕ
  pub with_base : Text → Text → Option Text
  pub with_port : Text → Text
  pub refresh : Option (Bool × Bool)

-- The message with the answer to it, whether the cancellable is cancelled by now, how often the
-- message went out, and the errors that were set since `*error` was last clear.
pub record Exchange : Type 0 where
  pub message : Message
  pub status : Status
  pub location : Option Text
  pub reason : Text
  pub body : Option Text
  pub cancelled : Bool
  pub sends : ℕ
  pub errors : List ServiceError

-- A new message to `uri`; `cancelled` is whether the cancellable is cancelled before.
abbrev pub exchange_for : Text → Bool → Exchange
exchange_for uri cancelled = record {
  message = record { uri = uri; processed = 0 };
  status = status_none;
  location = none;
  reason = [];
  body = none;
  cancelled = cancelled;
  sends = 0;
  errors = [];
}

unfoldable pub set_error : Exchange → ServiceError → Exchange
set_error x e = record x { errors = x.errors ++ e ∷ [] }

module _ (around : Surroundings) where
  -- `soup_session_send_message`, or a cancelled status without it.
  unfoldable pub send_or_cancel : Exchange → Exchange
  send_or_cancel x =
      let r = around.answer x.sends x.message in
      if around.has_cancellable && x.cancelled
      then record x { status = status_cancelled }
      else record x {
        status = r.status;
        location = r.location;
        reason = r.reason;
        body = r.body;
        cancelled = x.cancelled || r.cancels;
        sends = suc x.sends;
      }

  -- The part of `_gdata_service_actually_send_message` behind the clean-up; `none` is a failed
  -- `g_assert`.
  unfoldable pub set_cancelled : Exchange → Option Exchange
  unfolding set_error
  set_cancelled x =
      if is_none_status x.status
      then none
      else if is_cancelled_status x.status
          || (is_connection_failure x.status && (around.has_cancellable && x.cancelled))
      then some (record (set_error x cancelled_error) { status = status_cancelled })
      else some x

  -- `_gdata_service_actually_send_message`
  unfoldable pub actually_send_message : Exchange → Option Exchange
  unfolding send_or_cancel set_cancelled
  actually_send_message x = set_cancelled (send_or_cancel x)

  -- A denied message, by what the refresh of the authorization comes to.
  unfoldable pub send_again : Option (Bool × Bool) → Exchange → Option (Status × Exchange)
  send_again none x = some (x.status, x)
  send_again (some (false, cancels)) x =
      some (x.status, record x { cancelled = x.cancelled || cancels })
  send_again (some (true, cancels)) x = do
    x' ← actually_send_message (record x {
      message = record x.message { processed = suc x.message.processed };
      cancelled = x.cancelled || cancels;
      errors = [];
    })
    some (x'.status, x')

  -- The end of `_gdata_service_send_message`, from the test for `SOUP_STATUS_UNAUTHORIZED` on.
  unfoldable pub send_refreshed : Exchange → Option (Status × Exchange)
  unfolding send_again
  send_refreshed x =
      if is_unauthorized x.status then send_again around.refresh x else some (x.status, x)

  -- A redirect to `new_uri`; the message of the error shows a URI that is NULL.
  unfoldable pub send_to : Option Text → Exchange → Option (Status × Exchange)
  unfolding set_error
  send_to none x =
      some (status_none, set_error x (protocol_error (codes "Invalid redirect URI: (null)")))
  send_to (some new_uri) x = do
    x' ←
        actually_send_message
          (record x { message = record x.message { uri = around.with_port new_uri } })
    send_refreshed x'

  -- The part that a redirect takes, by the header `Location`.
  unfoldable pub send_redirected : Option Text → Exchange → Option (Status × Exchange)
  unfolding send_to
  send_redirected none x = some (status_none, x)
  send_redirected (some location) x = send_to (around.with_base x.message.uri location) x

  -- `_gdata_service_send_message`: the status it returns, and what it leaves.
  unfoldable pub send_message : Exchange → Option (Status × Exchange)
  send_message x = do
    x' ← actually_send_message x
    if around.is_redirection x'.status then send_redirected x'.location x' else send_refreshed x'

  -- What `_gdata_service_query` makes of the status: whether it returns the message.
  unfoldable pub read_status : Status → Exchange → Bool × Exchange
  unfolding set_error
  read_status status x =
      if is_not_modified status || is_cancelled_status status
      then (false, x)
      else if is_ok status
      then (true, x)
      else (
        false,
        set_error x (parse_error_response query (around.number status) status x.reason x.body),
      )

  -- `_gdata_service_query` once the message is built.
  unfoldable pub send_query : Exchange → Option (Bool × Exchange)
  unfolding read_status
  send_query x = send_message x >>= λ t. some (read_status t.0 t.1)
