-- ===== src/Download/Closing.antt =====
-- `gdata_download_stream_close` and `reset_network_thread` of gdata/gdata-download-stream.c.
use libgdata.Base.{Bool, false, not, ◌&&◌, ◌||◌, Option, none, some, if◌then◌else◌}
use libgdata.Base.Int.{pos}
use libgdata.Buffer.{Outcome, ok, blocked, ◌>>=◌}
use libgdata.Download.{Download, DownloadError, cancelled}

unfoldable pub reset_network_thread : Download → Download
reset_network_thread d = record d {
  has_thread = false;
  buffer = none;
  offset = pos 0;
  network_cancelled = false;
}

-- What a close sees under the mutex: whether the thread has finished, and whether the close itself is
-- cancelled.
pub record Seen : Type 0 where
  pub is_finished : Bool
  pub is_cancelled : Bool

-- At its first test, when its wait is over (`none` where nothing ends it), and whether the thread has
-- finished when the close tidies up.
pub record CloseContext : Type 0 where
  pub first : Seen
  pub wake : Option Seen
  pub last : Bool

-- What it goes on with behind the wait.
unfoldable pub await_thread : CloseContext → Outcome Seen
await_thread x =
    if x.first.is_finished || x.first.is_cancelled
    then ok x.first
    else elim x.wake [ none ↦ blocked | some s ↦ ok s ]

-- `done:`, for a stream whose `finished` is what the close sees there.
unfoldable pub tidy_up : Download → Download
unfolding reset_network_thread
tidy_up d = if d.finished then reset_network_thread d else d

-- From the error handling on.
unfoldable pub settle_close : Bool → Seen → Download → Download × Option DownloadError
unfolding tidy_up
settle_close last s d =
    if not s.is_finished && s.is_cancelled
    then (record d { finished = last }, some cancelled)
    else (tidy_up (record d { finished = last }), none)

-- The close of a stream that has a thread. A thread that has not finished is cancelled.
unfoldable pub close_running : CloseContext → Download → Outcome (Download × Option DownloadError)
close_running x d = await_thread x >>= λ s. ok (
    settle_close x.last s
      (record d { network_cancelled = d.network_cancelled || not x.first.is_finished }))

-- `gdata_download_stream_close`, with its error, if it has one.
unfoldable pub close : CloseContext → Download → Outcome (Download × Option DownloadError)
close x d = if not d.has_thread then ok (tidy_up d, none) else close_running x d
