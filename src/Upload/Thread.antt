-- ===== src/Upload/Thread.antt =====
-- `upload_thread` of gdata/gdata-upload-stream.c: the messages of an upload, and its states.
use libgdata.Base.{
  ℕ, Bool, true, false, not, ◌&&◌, Option, none, some, List, [], ◌∷◌, ◌++◌, Text, min, ltb, ◌==◌,
  if◌then◌else◌,
}
use libgdata.Base.Word.{add64, sub64}
use libgdata.Buffer.{Outcome, ok, assertion, blocked, ◌>>=◌}
use libgdata.Service.Errors.{Status, is_code}
use libgdata.Upload.{
  UploadState, initial_request, data_requests, finished, Upload, max_resumable_chunk_size,
}
use libgdata.Upload.Writing.{Callback, run_callbacks}

abbrev pub or_else : Option Text → Text → Text
or_else none t = t
or_else (some s) t = s

-- The message for the next chunk, from "Prepare the next message" on.
unfoldable pub next_message : Upload → Option Text → Outcome Upload
next_message u location = elim u.content_length [
  | none ↦ assertion
  | some n ↦
      let next = min (sub64 n u.total_network_bytes_written) max_resumable_chunk_size in
      if u.network_bytes_outstanding == 0
      then ok (record u {
        uri = or_else location u.uri;
        chunk_size = next;
        network_bytes_written = 0;
        body = [];
        is_complete = false;
        ranges =
            u.ranges
            ++ record {
              first = u.total_network_bytes_written;
              last = sub64 (add64 u.total_network_bytes_written next) 1;
              total = n;
            }
              ∷ [];
      })
      else assertion
]

-- How the thread goes on after an answer: it sends another message, or it has finished.
pub data Next : Type 0 where
  again : Upload → Next
  done : Upload → Next

abbrev pub finish_upload : Upload → Outcome Next
finish_upload u = ok (done (record u { state = finished }))

abbrev pub is_length : ℕ → Option ℕ → Bool
is_length n none = false
is_length n (some m) = m == n

-- `content_length == -1 || total < content_length`, and the same with `==`.
abbrev pub below_length : ℕ → Option ℕ → Bool
below_length n none = true
below_length n (some m) = ltb n m

abbrev pub at_length : ℕ → Option ℕ → Bool
at_length n none = true
at_length n (some m) = n == m

-- A message: libsoup's calls while it is sent, the status of the answer, and its header Location.
pub record Exchange : Type 0 where
  pub callbacks : List Callback
  pub status : Status
  pub location : Option Text

-- `is_successful` is libsoup's `SOUP_STATUS_IS_SUCCESSFUL`.
module _ (is_successful : Status → Bool) where
  -- The `switch` on the state, with what follows it.
  unfoldable pub read_answer : UploadState → Status → Option Text → Upload → Outcome Next
  unfolding next_message
  read_answer initial_request status location u =
      let u' = record u { state = data_requests } in
      if not (is_successful status)
      then finish_upload u'
      else if is_length 0 u.content_length && is_code 201 status
      then finish_upload u'
      else if u.total_network_bytes_written == 0
      then (next_message u' location >>= λ v. ok (again v))
      else assertion
  read_answer data_requests status location u =
      if is_code 308 status
      then if below_length u.total_network_bytes_written u.content_length
          && ltb 0 u.total_network_bytes_written
        then (next_message u location >>= λ v. ok (again v))
        else assertion
      else if is_successful status && not (at_length u.total_network_bytes_written u.content_length)
      then assertion
      else finish_upload u
  read_answer finished status location u = assertion

  -- `upload_thread`, up to the signals at its end. It is blocked where no answer comes.
  unfoldable pub upload_thread : List Exchange → Upload → Outcome Upload
  unfolding run_callbacks read_answer
  upload_thread [] u = blocked
  upload_thread (e ∷ es) u = run_callbacks e.callbacks u >>= λ u'.
      read_answer u'.state e.status e.location u' >>= λ n. elim n [
        | done v ↦ ok v
        | again v ↦ upload_thread es v
      ]
