-- ===== src/Download.antt =====
-- gdata/gdata-download-stream.c: a stream that reads what a network thread downloads, with a seek that
-- starts the thread again at another place. The bytes go through the byte buffer of
-- gdata/gdata-buffer.c. What the network thread does while a call waits is the schedule of its pop
-- (`Buffer/Wait.antt`); what it does by itself is in `Download/Network.antt`.
pub mod Network
pub mod Closing
pub mod Seeking
pub mod Position
pub mod Reading
pub mod Places
pub mod Ends
pub mod Failures
pub mod Thread
pub mod Twice
use libgdata.Base.{
  ℕ, Bool, true, false, not, ◌&&◌, ◌||◌, Option, none, some, List, [], ◌∷◌, Text, leb, ltb,
  if◌then◌else◌,
}
use libgdata.Base.Int.{ℤ, pos, ◌+ℤ◌}
use libgdata.Buffer.{Buffer, new, Outcome, ok, assertion, ◌>>=◌}
use libgdata.Buffer.Wait.{Event, Popped, pop_data}
use libgdata.Service.Errors.{Status, ServiceError}

-- `has_thread` is `network_thread != NULL`. A `goffset` is an integer; where C's addition overflows,
-- which is undefined there, the sum goes on. A `content_length` of -1 is `none`.
pub record Download : Type 0 where
  pub has_thread : Bool
  pub buffer : Option Buffer
  pub offset : ℤ
  pub finished : Bool
  pub network_cancelled : Bool
  pub content_type : Option Text
  pub content_length : Option ℕ

-- `gdata_download_stream_init`, and what the constructor leaves of these fields.
unfoldable pub init : Download
init = record {
  has_thread = false;
  buffer = none;
  offset = pos 0;
  finished = false;
  network_cancelled = false;
  content_type = none;
  content_length = none;
}

-- The errors of the stream's own, with the one of `g_thread_try_new`, and those that the service makes
-- of a status.
pub data DownloadError : Type 0 where
  cancelled no_thread not_supported pending invalid_seek : DownloadError
  service_error : ServiceError → DownloadError

-- `create_network_thread`; `can_create` says whether the system has a thread to give.
unfoldable pub create_network_thread : Bool → Download → Outcome Download
create_network_thread can_create d = if d.has_thread then assertion else elim d.buffer [
  | some b ↦ assertion
  | none ↦ ok (record d { buffer = some new; has_thread = can_create })
]

-- What happens around a read: whether it is cancelled before its tests, whether it is when it tests
-- again behind the pop, whether a thread can be created, the schedule of the pop, and the message's
-- status and reason phrase behind it.
pub record ReadContext : Type 0 where
  pub cancelled_before : Bool
  pub cancelled_after : Bool
  pub can_create : Bool
  pub wakes : List (List Event)
  pub status : Status
  pub reason : Text

pub data ReadAnswer : Type 0 where
  bytes : Text → ReadAnswer
  error : DownloadError → ReadAnswer

-- The part in front of the pop: an error, or the stream with its thread.
unfoldable pub start_read : ReadContext → Download → Outcome (Download × Option DownloadError)
unfolding create_network_thread
start_read x d =
    if d.has_thread
    then ok (d, none)
    else if x.cancelled_before
    then ok (d, some cancelled)
    else (create_network_thread x.can_create d >>= λ d'.
        ok (d', if d'.has_thread then none else some no_thread))

-- `is_successful` is libsoup's `SOUP_STATUS_IS_SUCCESSFUL`; `parse_error` is the service's virtual
-- function `parse_error_response` for a download.
module _ (is_successful : Status → Bool) (parse_error : Status → Text → ServiceError) where
  -- The part behind the pop, from the test for a cancellation on.
  unfoldable pub finish_read : ReadContext → ℕ → Popped → Download → Outcome (Download × ReadAnswer)
  finish_read x count p d =
      let d' = record d { buffer = some p.buffer } in
      if ltb p.count 1 && x.cancelled_after
      then ok (d', error cancelled)
      else if not (is_successful x.status)
      then ok (d', error (service_error (parse_error x.status x.reason)))
      else if (ltb 0 p.count || p.eof) && leb p.count count
      then ok (record d' { offset = d.offset +ℤ pos p.count }, bytes p.out)
      else assertion

  -- The pop, in a stream that must have a buffer.
  unfoldable pub pop_read :
      ReadContext → ℕ → Option Buffer → Download → Outcome (Download × ReadAnswer)
  unfolding finish_read
  pop_read x count none d = assertion
  pop_read x count (some b) d =
      pop_data true count x.cancelled_before x.wakes b >>= λ p. finish_read x count p d

  unfoldable pub read_from :
      ReadContext → ℕ → Download → Option DownloadError → Outcome (Download × ReadAnswer)
  unfolding pop_read
  read_from x count d (some e) = ok (d, error e)
  read_from x count d none = pop_read x count d.buffer d

  -- `gdata_download_stream_read`. The count fits a `gssize`, as `g_input_stream_read` sees to.
  unfoldable pub read : ReadContext → ℕ → Download → Outcome (Download × ReadAnswer)
  unfolding start_read read_from
  read x count d = start_read x d >>= λ s. read_from x count s.0 s.1
