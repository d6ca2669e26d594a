-- ===== src/Upload/Client.antt =====
-- The client's side of gdata/gdata-upload-stream.c: `gdata_upload_stream_write`, `_flush` and
-- `_close`, and `gdata_upload_stream_get_response`. What a call sees of the fields that the network
-- thread changes is a list of snapshots: one at the first time that the call holds the mutex, and one
-- for each wake-up of its wait.
pub mod Waiting
pub mod Settled
use libgdata.Base.{
  ℕ, ◌^◌, Bool, true, false, not, ◌&&◌, ◌||◌, Option, none, some, List, [], ◌∷◌, ◌++◌, Text, codes,
  length, min, ltb, leb, if◌then◌else◌,
}
use libgdata.Base.Word.{add64, sub64}
use libgdata.Buffer.{Buffer, Pushed, push_data, Outcome, ok, assertion, blocked, ◌>>=◌}
use libgdata.Service.Errors.{
  Status, status_none, status_cancelled, is_none_status, ServiceError, upload, parse_error_response,
}
use libgdata.Upload.{Upload, boundary}

pub record Snapshot : Type 0 where
  pub total_network_bytes_written : ℕ
  pub network_bytes_outstanding : ℕ
  pub is_finished : Bool
  pub is_cancelled : Bool

-- `while (...) g_cond_wait (...)`, with what is seen after it.
unfoldable pub await : (Snapshot → Bool) → Snapshot → List Snapshot → Outcome Snapshot
await waits now [] = if waits now then blocked else ok now
await waits now (next ∷ later) =
    let rest = await waits next later in if waits now then rest else ok now

-- A call that does not return a value sets an error: the cancellable's, `G_IO_ERROR_FAILED`,
-- `G_IO_ERROR_CLOSED`, or the one of `g_thread_try_new`.
pub data StreamError : Type 0 where
  cancelled failed closed no_thread : StreamError

-- A call's answer, or its error.
pub data Answer : Type 0 where
  answer : ℕ → Answer
  error : StreamError → Answer

-- A signed size, as 64 bits, that is less than `k`.
abbrev pub signed_ltb : ℕ → ℕ → Bool
signed_ltb n k = leb (2 ^ 63) n || ltb n k

-- The part of a write before its wait: it counts the bytes, and pushes them.
unfoldable pub start_write : Upload → Pushed → Upload
start_write u p = record u {
  message_bytes_outstanding = add64 u.message_bytes_outstanding p.size;
  buffer = (push_data u.buffer p).0;
}

unfoldable pub is_writing : ℕ → ℕ → Snapshot → Bool
is_writing count old s =
    ltb (sub64 s.total_network_bytes_written old) count && not s.is_cancelled && not s.is_finished

-- The part behind the wait, with its last assertion.
unfoldable pub written : ℕ → ℕ → Snapshot → Outcome Answer
written count old s =
    let n = min count (sub64 s.total_network_bytes_written old) in
    if s.is_cancelled && signed_ltb n 1
    then ok (error cancelled)
    else if s.is_finished && signed_ltb n count
    then ok (error failed)
    else if signed_ltb n 1
    then assertion
    else ok (answer n)

-- `gdata_upload_stream_write`, with the upload as the call leaves it. `cancelled_before` says whether
-- it is cancelled before it starts; `has_thread` whether there is a network thread, or one can be
-- created.
unfoldable pub write :
    Bool → Bool → Upload → Pushed → Snapshot → List Snapshot → Outcome (Upload × Answer)
unfolding start_write is_writing written await
write cancelled_before has_thread u p now later =
    if cancelled_before
    then ok (u, error cancelled)
    else if not has_thread
    then ok (start_write u p, error no_thread)
    else (await (is_writing p.size u.total_network_bytes_written) now later >>= λ s.
        written p.size u.total_network_bytes_written s >>= λ a. ok (start_write u p, a))

abbrev pub is_flushing : Snapshot → Bool
is_flushing s = ltb 0 s.network_bytes_outstanding && not s.is_cancelled && not s.is_finished

abbrev pub flushed : Snapshot → Option StreamError
flushed s =
    if s.is_cancelled
    then some cancelled
    else if s.is_finished && ltb 0 s.network_bytes_outstanding
    then some failed
    else none

-- `gdata_upload_stream_flush`: its error, if it has one.
unfoldable pub flush : Bool → Snapshot → List Snapshot → Outcome (Option StreamError)
unfolding await
flush has_thread now later =
    if not has_thread
    then ok (some no_thread)
    else (await is_flushing now later >>= λ s. ok (flushed s))

-- What `close` sees: whether the upload has finished and the call is cancelled, and the message's
-- answer: its status, its reason phrase and its body.
pub record Closing : Type 0 where
  pub is_finished : Bool
  pub is_cancelled : Bool
  pub status : Status
  pub reason : Text
  pub response : Option Text

-- The error of `close`: one of the stream's own, or the one that the service makes of the answer.
pub data CloseError : Type 0 where
  stream_error : StreamError → CloseError
  service_error : ServiceError → CloseError

-- The part of a close before its wait.
unfoldable pub start_close : Bool → Bool → Upload → Upload
unfolding start_write
start_close has_entry is_cancelled u =
    let footer = 10 ∷ (codes "--" ++ (boundary ++ codes "--")) in
    let mark : Pushed = record { bytes = none; size = 0; memory = [] } in
    let u' =
      if has_entry && not is_cancelled
      then start_write u (record { bytes = some footer; size = length footer; memory = [] })
      else u in
    record u' { buffer = (push_data u'.buffer mark).0 }

-- `gdata_upload_stream_get_response`, from the response status and the message's body: the length,
-- `none` for -1, and the data. `is_successful` is libsoup's `SOUP_STATUS_IS_SUCCESSFUL`.
unfoldable pub get_response : (Status → Bool) → Status → Text → Option ℕ × Option Text
get_response is_successful response_status body =
    if is_none_status response_status
    then (none, none)
    else if not (is_successful response_status)
    then (some 0, none)
    else (some (length body), some body)

-- `parse_error` is the service's virtual function `parse_error_response` for an upload.
module _ (is_successful : Status → Bool)
    (parse_error : Status → Text → Option Text → ServiceError) where
  -- The error handling of `close`: its error, and the response status that it sets.
  unfoldable pub settle : Closing → Outcome (Option CloseError × Status)
  settle c =
      if not c.is_finished && c.is_cancelled
      then ok (some (stream_error cancelled), status_cancelled)
      else if is_none_status c.status
      then assertion
      else if not (is_successful c.status)
      then ok (some (service_error (parse_error c.status c.reason c.response)), c.status)
      else ok (none, c.status)

  -- `gdata_upload_stream_close`; `now` is what it sees where it does not wait, and `wake` what it sees
  -- when it is woken up, if it ever is.
  unfoldable pub close :
      Bool
      → Bool
      → Bool
      → Status
      → Closing
      → Closing
      → Option Closing
      → Upload
      → Outcome (Upload × Option CloseError × Status)
  unfolding start_close settle
  close has_thread has_entry is_cancelled response_status before now wake u =
      if not has_thread
      then ok (u, none, response_status)
      else if not (is_none_status response_status)
      then ok (u, some (stream_error closed), response_status)
      else if before.is_finished
      then (settle now >>= λ r. ok (u, r.0, r.1))
      else if before.is_cancelled
      then (settle now >>= λ r. ok (start_close has_entry is_cancelled u, r.0, r.1))
      else elim wake [
        | none ↦ blocked
        | some c ↦ settle c >>= λ r. ok (start_close has_entry is_cancelled u, r.0, r.1)
      ]
