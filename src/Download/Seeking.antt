-- ===== src/Download/Seeking.antt =====
-- `gdata_download_stream_seek` and `gdata_download_stream_tell` of gdata/gdata-download-stream.c.
use libgdata.Base.{Bool, true, false, not, ◌&&◌, Option, none, some, List, ℕ, ◌==◌, if◌then◌else◌}
use libgdata.Base.Int.{ℤ, pos, minus_one, pos_part, le_ℤ, ◌+ℤ◌, ◌-ℤ◌}
use libgdata.Buffer.{Buffer, Outcome, ok, assertion, ◌>>=◌}
use libgdata.Buffer.Wait.{Event, Popped, pop_data}
use libgdata.Download.{Download, DownloadError, cancelled, not_supported, pending, invalid_seek}
use libgdata.Download.Closing.{CloseContext, close}

pub data SeekType : Type 0 where
  seek_cur seek_set seek_end : SeekType

-- What happens around a seek: whether another operation is pending, whether the cancellable is
-- cancelled before the pop and behind it, the schedule of the pop, and what a close sees.
pub record SeekContext : Type 0 where
  pub is_pending : Bool
  pub cancelled_before : Bool
  pub cancelled_after : Bool
  pub wakes : List (List Event)
  pub closing : CloseContext

unfoldable pub tell : Download → ℤ
tell d = d.offset

-- The length as a number, -1 where it is not known.
abbrev pub length_or : Option ℕ → ℤ
length_or none = minus_one
length_or (some n) = pos n

abbrev pub is_end : SeekType → Bool
is_end seek_end = true
is_end _ = false

abbrev pub is_unknown : Option ℕ → Bool
is_unknown none = true
is_unknown (some n) = false

-- The offset from the start of the stream.
unfoldable pub absolute : SeekType → ℤ → Download → ℤ
absolute seek_cur offset d = offset +ℤ d.offset
absolute seek_set offset d = offset
absolute seek_end offset d = offset +ℤ length_or d.content_length

-- Case 2, behind its pop of `n` bytes.
unfoldable pub finish_skip :
    SeekContext → ℤ → ℕ → Popped → Download → Download × Option DownloadError
finish_skip x target n p d =
    let d' = record d { buffer = some p.buffer } in
    if p.count == n
    then (record d' { offset = target }, none)
    else (d', some (if x.cancelled_after then cancelled else invalid_seek))

unfoldable pub skip_forward :
    SeekContext → ℤ → Option Buffer → Download → Outcome (Download × Option DownloadError)
skip_forward x target none d = assertion
skip_forward x target (some b) d =
    let n = pos_part (target -ℤ d.offset) in
    pop_data false n x.cancelled_before x.wakes b >>= λ p. ok (finish_skip x target n p d)

-- Case 3, behind the close.
unfoldable pub finish_back : ℤ → Download → Option DownloadError → Download × Option DownloadError
finish_back target d (some e) = (d, some e)
finish_back target d none = (record d { offset = target; finished = false }, none)

-- The three cases.
unfoldable pub seek_to : SeekContext → ℤ → Download → Outcome (Download × Option DownloadError)
unfolding skip_forward finish_skip finish_back
seek_to x target d =
    if not d.has_thread
    then ok (record d { offset = target }, none)
    else if le_ℤ d.offset target
    then skip_forward x target d.buffer d
    else (close x.closing d >>= λ r. ok (finish_back target r.0 r.1))

-- `gdata_download_stream_seek`, with its error, if it has one.
unfoldable pub seek :
    SeekContext → ℤ → SeekType → Download → Outcome (Download × Option DownloadError)
seek x offset type d =
    if is_end type && is_unknown d.content_length
    then ok (d, some not_supported)
    else if x.is_pending
    then ok (d, some pending)
    else seek_to x (absolute type offset d) d
