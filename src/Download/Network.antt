-- ===== src/Download/Network.antt =====
-- The network thread of gdata/gdata-download-stream.c: `download_thread`, and the two functions that
-- libsoup calls while it receives the answer.
use libgdata.Base.{
  Bool, true, not, ◌||◌, Option, none, some, ℕ, List, [], ◌∷◌, ◌++◌, Text, length, ◌==◌,
  if◌then◌else◌,
}
use libgdata.Base.Int.{ℤ, pos, le_ℤ}
use libgdata.Buffer.{Buffer, Pushed, push_data, Outcome, ok, assertion, ◌>>=◌}
use libgdata.Buffer.Wait.{Event, push}
use libgdata.Download.{Download}
use libgdata.Service.Errors.{Status}

-- A call from libsoup with the message's status at the time: `got-headers`, with the type and the
-- length that the headers tell, and `got-chunk`, with the bytes.
pub data NetworkCall : Type 0 where
  got_headers : Status → Option Text → Option ℕ → NetworkCall
  got_chunk : Status → Text → NetworkCall

abbrev pub chunk : Text → Pushed
chunk t = record { bytes = some t; size = length t; memory = [] }

abbrev pub eof_mark : Pushed
eof_mark = record { bytes = none; size = 0; memory = [] }

unfoldable pub push_to : Option Buffer → Pushed → Download → Outcome Download
push_to none p d = assertion
push_to (some b) p d = ok (record d { buffer = some (push_data b p).0 })

-- The header Range, from an offset to the end.
unfoldable pub range : ℤ → Option ℤ
range offset = if le_ℤ offset (pos 0) then none else some offset

module _ (is_successful : Status → Bool) where
  unfoldable pub got_headers_cb : Status → Option Text → Option ℕ → Download → Download
  got_headers_cb status type size d =
      if not (is_successful status)
      then d
      else record d { content_type = type; content_length = size }

  unfoldable pub got_chunk_cb : Status → Text → Download → Outcome Download
  unfolding push_to
  got_chunk_cb status t d =
      if not (is_successful status) || (length t == 0) then ok d else push_to d.buffer (chunk t) d

  unfoldable pub run_call : NetworkCall → Download → Outcome Download
  unfolding got_headers_cb got_chunk_cb
  run_call (got_headers status type size) d = ok (got_headers_cb status type size d)
  run_call (got_chunk status t) d = got_chunk_cb status t d

  unfoldable pub run_calls : List NetworkCall → Download → Outcome Download
  unfolding run_call
  run_calls [] d = ok d
  run_calls (c ∷ cs) d = run_call c d >>= λ d'. run_calls cs d'

  -- `download_thread`, where nobody reads meanwhile: the header Range of its message, and the stream.
  unfoldable pub download_thread : List NetworkCall → Download → Outcome (Option ℤ × Download)
  unfolding run_calls push_to range
  download_thread cs d = run_calls cs d >>= λ d'.
      push_to d'.buffer eof_mark d' >>= λ d''. ok (range d.offset, record d'' { finished = true })

  -- What a pop sees of the thread.
  unfoldable pub call_events : NetworkCall → List Event
  call_events (got_headers status type size) = []
  call_events (got_chunk status t) =
      if not (is_successful status) || (length t == 0) then [] else push (chunk t) ∷ []

  unfoldable pub thread_events : List NetworkCall → List Event
  unfolding call_events
  thread_events [] = push eof_mark ∷ []
  thread_events (c ∷ cs) = call_events c ++ thread_events cs
