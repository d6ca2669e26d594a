-- ===== src/Upload.antt =====
-- gdata/gdata-upload-stream.c: a stream whose bytes a network thread sends, in one message or, for a
-- resumable upload, in a message for each chunk. The bytes go through the byte buffer of
-- gdata/gdata-buffer.c. libsoup calls back for the headers and for each piece of a body that it has
-- written; what the client pushes meanwhile is the schedule of the pop (`Buffer/Wait.antt`).
pub mod Writing
pub mod Thread
pub mod Returns
pub mod Limited
pub mod Chunk
pub mod Bounds
pub mod Ranges
pub mod Count
pub mod Client
use libgdata.Base.{
  ℕ, ◌+◌, ◌*◌, Bool, true, false, not, ◌&&◌, ◌||◌, Option, none, some, List, [], ◌∷◌, ◌++◌, Text,
  codes, length, min, ltb, ◌==◌, if◌then◌else◌,
}
use libgdata.Base.Word.{add64, sub64}
use libgdata.Buffer.{Buffer, Pushed, Outcome, ok, overrun, assertion, blocked, ◌>>=◌, new}
use libgdata.Buffer.Wait.{Event, push, cancel, Popped, pop_data_limited}
use libgdata.Service.Errors.{Status, is_code}

pub data UploadState : Type 0 where
  initial_request data_requests finished : UploadState

-- The first and the last byte of a Content-Range header, and the length of the whole content.
pub record ContentRange : Type 0 where
  pub first : ℕ
  pub last : ℕ
  pub total : ℕ

-- `content_length` is `none` for -1. `body` and `is_complete` are the request body of the current
-- message, as far as the stream has appended to it; `ranges` are the ranges of the messages so far.
pub record Upload : Type 0 where
  pub content_length : Option ℕ
  pub state : UploadState
  pub total_network_bytes_written : ℕ
  pub message_bytes_outstanding : ℕ
  pub network_bytes_outstanding : ℕ
  pub network_bytes_written : ℕ
  pub chunk_size : ℕ
  pub buffer : Buffer
  pub uri : Text
  pub body : Text
  pub is_complete : Bool
  pub ranges : List ContentRange

abbrev pub boundary : Text
boundary = codes "0003Z5W789deadbeefRTE456KlemsnoZV"

abbrev pub max_resumable_chunk_size : ℕ
max_resumable_chunk_size = 512 * 1024

-- The parts of a body in front of the content, where an entry goes with a non-resumable upload. A
-- newline is the code 10.
unfoldable pub metadata : Text → Text → Text
metadata entry_xml content_type =
    (codes "--"
      ++ (boundary
          ++ (10 ∷ codes "Content-Type: application/atom+xml; charset=UTF-8" ++ 10 ∷ 10 ∷ [])))
    ++ (entry_xml
        ++ (10 ∷ codes "--"
            ++ (boundary
                ++ (10 ∷ codes "Content-Type: "
                    ++ (content_type
                        ++ (10 ∷ codes "Content-Transfer-Encoding: binary" ++ 10 ∷ 10 ∷ []))))))

-- A stream before its kind is known: `gdata_upload_stream_init`, and the construct-only properties.
abbrev pub zeroed : Option ℕ → Text → Upload
zeroed content_length uri = record {
  content_length = content_length;
  state = initial_request;
  total_network_bytes_written = 0;
  message_bytes_outstanding = 0;
  network_bytes_outstanding = 0;
  network_bytes_written = 0;
  chunk_size = 0;
  buffer = record {
    head = [];
    head_read_offset = 0;
    total_length = 0;
    reached_eof = false;
    tail = false;
  };
  uri = uri;
  body = [];
  is_complete = false;
  ranges = [];
}

-- The body that is put into the message before it is sent.
abbrev pub with_body : Upload → Text → Upload
with_body u t = record u { body = t; network_bytes_outstanding = length t }

abbrev pub with_entry : Upload → Option Text → (Text → Text) → Upload
with_entry u none show = u
with_entry u (some entry_xml) show = with_body u (show entry_xml)

-- `gdata_upload_stream_constructor`, but for the headers; `entry` is the XML of the entry.
unfoldable pub construct : Option ℕ → Text → Option Text → Text → Upload
unfolding metadata
construct none uri entry content_type =
    record (with_entry (zeroed none uri) entry (λ xml. metadata xml content_type)) {
      state = data_requests;
    }
construct (some n) uri entry content_type =
    record (with_entry (zeroed (some n) uri) entry (λ xml. xml)) {
      state = initial_request;
      chunk_size = min n max_resumable_chunk_size;
    }

abbrev pub is_initial : UploadState → Bool
is_initial initial_request = true
is_initial _ = false

abbrev pub is_data : UploadState → Bool
is_data data_requests = true
is_data _ = false

abbrev pub is_resumable : Option ℕ → Bool
is_resumable none = false
is_resumable (some n) = true
