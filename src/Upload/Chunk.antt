-- ===== src/Upload/Chunk.antt =====
-- `write_next_chunk` of gdata/gdata-upload-stream.c: what becomes of the bytes in the buffer.
use libgdata.Base.{
  [], ℕ, ◌≡◌, Bool, true, false, ◌&&◌, ◌||◌, not, List, ◌++◌, Text, length, ltb, ◌==◌, Bool-cases,
  inl, inr, arith, ◌⊎◌, ◌<◌, ◌≢◌, Option, none, some, min,
}
use libgdata.Base.Word.{add64, sub64}
use libgdata.Buffer.{Outcome, ok, overrun, assertion, blocked, ◌>>=◌}
use libgdata.Buffer.Wait.{Event, pop_data_limited, run_events}
use libgdata.Buffer.Contents.{contents, IsValid}
use libgdata.Buffer.Push.{view}
use libgdata.Buffer.Drain.{InGap}
use libgdata.Buffer.Fifo.{enqueue_all}
use libgdata.Upload.{Upload, is_initial, is_resumable}
use libgdata.Upload.Writing.{
  chunk_full, room, happened, pushed_bytes, append_chunk, finish_body, write_next_chunk,
}

-- The most that one call may append: 8192 bytes, and for a resumable upload no more than what the
-- chunk lacks.
abbrev pub most : Option ℕ → ℕ → ℕ
most none lacks = 8192
most (some n) lacks = min 8192 lacks

abbrev pub lacks : Upload → ℕ
lacks u = sub64 u.chunk_size (add64 u.network_bytes_written u.network_bytes_outstanding)

-- How many bytes the pop is to return, if its first wait sees the events `first`.
abbrev pub asked_for : Upload → List Event → ℕ
asked_for u first =
    min (most u.content_length (lacks u)) (length (enqueue_all first (view u.buffer)).bytes)

-- The chunk of a resumable upload has all its bytes.
abbrev pub IsFull : Upload → Type 0
IsFull u =
    (is_resumable u.content_length ≡ true)
    × (add64 u.network_bytes_written u.network_bytes_outstanding ≡ u.chunk_size)

-- A message that carries content, with room in its chunk.
abbrev pub IsOpen : Upload → Type 0
IsOpen u = (is_initial u.state ≡ false) × (¬ (IsFull u))

-- The bytes `out` are taken from the front of what was pushed, and put behind the body.
pub record Appended (u : Upload) (first es : List Event) (u' : Upload) (out : Text) : Type 0 where
  pub size : length out ≡ asked_for u first
  pub body : u'.body ≡ u.body ++ out
  pub bytes : out ++ contents u'.buffer ≡ (enqueue_all es (view u.buffer)).bytes
  pub closed : u'.buffer.reached_eof ≡ (enqueue_all es (view u.buffer)).closed
  pub handed : u'.network_bytes_outstanding ≡ length out
  pub valid : IsValid u'.buffer

-- How a call of `write_next_chunk` comes out, `es` being what other threads do in its pop, and `first`
-- the part of it in front of the pop's look at how much there is.
pub data ChunkResult (u : Upload) (first es : List Event) : Outcome Upload → Type 0 where
  busy : 0 < u.network_bytes_outstanding → ChunkResult u first es (ok u)
  complete :
      u.network_bytes_outstanding ≡ 0
      → (is_initial u.state ≡ true) ⊎ IsFull u
      → ChunkResult u first es (ok (record u { is_complete = true }))
  appended :
      (u' : Upload) (out : Text)
      → u.network_bytes_outstanding ≡ 0
      → IsOpen u
      → Appended u first es u' out
      → ¬ (IsFull u')
      → u'.is_complete ≡ u.is_complete
      → ChunkResult u first es (ok u')
  last_appended :
      (u' : Upload) (out : Text)
      → u.network_bytes_outstanding ≡ 0
      → IsOpen u
      → Appended u first es u' out
      → IsFull u' ⊎ ((contents u'.buffer ≡ []) × (u'.message_bytes_outstanding ≡ 0))
      → u'.is_complete ≡ true
      → ChunkResult u first es (ok u')
  bytes_miscounted :
      (out : Text)
      → u.network_bytes_outstanding ≡ 0
      → IsOpen u
      → length out ≡ asked_for u first
      → length out ≡ length (enqueue_all es (view u.buffer)).bytes
      → sub64 (add64 u.message_bytes_outstanding (pushed_bytes es)) (length out) ≢ 0
      → ChunkResult u first es assertion
  past_first_chunk :
      (k : ℕ)
      → u.network_bytes_outstanding ≡ 0
      → IsOpen u
      → k ≡ asked_for u first
      → InGap
          (run_events es u.buffer false).0.head
          (run_events es u.buffer false).0.head_read_offset
          k
      → ChunkResult u first es overrun
  waiting :
      u.network_bytes_outstanding ≡ 0
      → IsOpen u
      → u.buffer.total_length ≡ 0
      → u.buffer.reached_eof ≡ false
      → ChunkResult u first es blocked

-- The end of a call leaves the upload, or completes the body, or aborts.
pub finish_body-elim :
    (P : Outcome Upload → Type 0) (u : Upload) (eof : Bool)
    → ((eof || chunk_full u) ≡ false → P (ok u))
    → ((eof ≡ true → u.message_bytes_outstanding ≡ 0)
        → (eof || chunk_full u) ≡ true
        → P (ok (record u { is_complete = true })))
    → (eof ≡ true → u.message_bytes_outstanding ≢ 0 → P assertion)
    → P (finish_body u eof)
unfolding finish_body
finish_body-elim P u eof same completed aborted = elim (Bool-cases (eof || chunk_full u)) [
  | inl last ↦ elim (Bool-cases (eof && not (u.message_bytes_outstanding == 0))) [
    | inl miscounted ↦ rw (last, miscounted) (aborted (ground arith) (ground arith))
    | inr counted ↦ rw (last, counted) (completed (λ h. ground arith) last)
  ]
  | inr more ↦ rw more (same more)
]

-- The three ways of a call: it does nothing, completes the body, or pops.
pub write_next_chunk-elim :
    (P : Outcome Upload → Type 0) (wakes : List (List Event)) (between : List Event) (u : Upload)
    → (0 < u.network_bytes_outstanding → P (ok u))
    → (u.network_bytes_outstanding ≡ 0
        → (is_initial u.state || chunk_full u) ≡ true
        → P (ok (record u { is_complete = true })))
    → (u.network_bytes_outstanding ≡ 0
        → is_initial u.state ≡ false
        → chunk_full u ≡ false
        → P (
            pop_data_limited (room u) wakes between u.buffer >>= λ p.
            finish_body (append_chunk u (happened wakes between u.buffer) p) p.eof))
    → P (write_next_chunk wakes between u)
unfolding write_next_chunk
write_next_chunk-elim P wakes between u same completed popped =
    elim (Bool-cases (ltb 0 u.network_bytes_outstanding)) [
      | inl busy' ↦ rw busy' (same (ground arith))
      | inr idle ↦ elim (Bool-cases (is_initial u.state || chunk_full u)) [
        | inl full ↦ rw (idle, full) (completed (ground arith) full)
        | inr more ↦ rw (idle, more) (popped (ground arith) (ground arith) (ground arith))
      ]
    ]
