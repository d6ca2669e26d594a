-- ===== src/Upload/Writing.antt =====
-- `write_next_chunk` of gdata/gdata-upload-stream.c, and the two functions that libsoup calls while it
-- sends a message, `wrote_headers_cb` and `wrote_body_data_cb`.
use libgdata.Base.{
  ℕ, ◌+◌, Bool, true, not, ◌&&◌, ◌||◌, List, [], ◌∷◌, ◌++◌, min, ltb, ◌==◌, if◌then◌else◌,
}
use libgdata.Base.Word.{add64, sub64}
use libgdata.Buffer.{Buffer, Outcome, ok, assertion, ◌>>=◌}
use libgdata.Buffer.Wait.{Event, push, cancel, Popped, pop_data_limited}
use libgdata.Upload.{Upload, is_initial, is_data, is_resumable}

-- `priv->content_length != -1 && written + outstanding == chunk_size`
unfoldable pub chunk_full : Upload → Bool
chunk_full u =
    is_resumable u.content_length
    && (add64 u.network_bytes_written u.network_bytes_outstanding == u.chunk_size)

-- `CHUNK_SIZE`, or what the chunk has room for, if that is less.
unfoldable pub room : Upload → ℕ
room u =
    if is_resumable u.content_length
    then min 8192 (sub64 u.chunk_size (add64 u.network_bytes_written u.network_bytes_outstanding))
    else 8192

-- What other threads do in a pop of the buffer: the first wake-up counts only if the pop waits.
unfoldable pub happened : List (List Event) → List Event → Buffer → List Event
happened [] between b = between
happened (w ∷ wakes) between b =
    if (b.total_length == 0) && not b.reached_eof then w ++ between else between

-- Each push is made by a write, which adds its size to `message_bytes_outstanding`.
unfoldable pub pushed_bytes : List Event → ℕ
pushed_bytes [] = 0
pushed_bytes (push p ∷ es) = p.size + pushed_bytes es
pushed_bytes (cancel ∷ es) = pushed_bytes es

-- The second locked part of `write_next_chunk`, with what the pop has handed back.
unfoldable pub append_chunk : Upload → List Event → Popped → Upload
append_chunk u es p = record u {
  buffer = p.buffer;
  message_bytes_outstanding = sub64 (add64 u.message_bytes_outstanding (pushed_bytes es)) p.count;
  network_bytes_outstanding = add64 u.network_bytes_outstanding p.count;
  body = u.body ++ p.out;
}

-- Its end; a `g_assert` may fail.
unfoldable pub finish_body : Upload → Bool → Outcome Upload
unfolding chunk_full
finish_body u eof =
    if eof || chunk_full u
    then if eof && not (u.message_bytes_outstanding == 0)
      then assertion
      else ok (record u { is_complete = true })
    else ok u

-- `write_next_chunk`
unfoldable pub write_next_chunk : List (List Event) → List Event → Upload → Outcome Upload
unfolding chunk_full room append_chunk finish_body
write_next_chunk wakes between u =
    if ltb 0 u.network_bytes_outstanding
    then ok u
    else if is_initial u.state || chunk_full u
    then ok (record u { is_complete = true })
    else (pop_data_limited (room u) wakes between u.buffer >>= λ p.
        finish_body (append_chunk u (happened wakes between u.buffer) p) p.eof)

-- The first part of `wrote_body_data_cb`, for a piece of `n` bytes.
unfoldable pub count_written : ℕ → Upload → Upload
count_written n u = record u {
  network_bytes_outstanding = sub64 u.network_bytes_outstanding n;
  network_bytes_written = add64 u.network_bytes_written n;
  total_network_bytes_written =
      if is_data u.state
      then add64 u.total_network_bytes_written n
      else u.total_network_bytes_written;
}

-- A call from libsoup: `wrote_headers_cb`, and `wrote_body_data_cb` with the size of the piece; each
-- with the schedule of the pop that it makes.
pub data Callback : Type 0 where
  wrote_headers : List (List Event) → List Event → Callback
  wrote_body_data : ℕ → List (List Event) → List Event → Callback

unfoldable pub run_callback : Callback → Upload → Outcome Upload
unfolding write_next_chunk count_written
run_callback (wrote_headers wakes between) u = write_next_chunk wakes between u
run_callback (wrote_body_data n wakes between) u =
    if ltb 0 u.network_bytes_outstanding
    then write_next_chunk wakes between (count_written n u)
    else assertion

unfoldable pub run_callbacks : List Callback → Upload → Outcome Upload
run_callbacks [] u = ok u
run_callbacks (c ∷ cs) u = run_callback c u >>= λ u'. run_callbacks cs u'
