-- ===== src/Upload/Bounds.antt =====
-- The chunks of a resumable upload of gdata/gdata-upload-stream.c: how many bytes a message may
-- hold, and the ranges that its headers name.
use libgdata.Base.{
  ℕ, ◌+◌, ◌≤◌, ◌<◌, ◌≡◌, refl, ◌∙◌, Bool, true, false, some, List, [], ◌∷◌, ◌++◌, min, ltb,
  Bool-cases, inl, inr, arith,
}
use libgdata.Base.Word.{u64, add64, sub64}
use libgdata.Buffer.{Buffer, take_out}
use libgdata.Buffer.Wait.{
  Event, Popped, pop_data, pop_data_limited, wait_once, return_length, wait_for, run_events,
}
use libgdata.Upload.Returns.{Returns, Returns-bind, Returns-both, Returns-any, Returns-weaken}
use libgdata.Upload.Chunk.{finish_body-elim, write_next_chunk-elim}
use libgdata.Upload.{
  UploadState, initial_request, data_requests, finished, Upload, ContentRange, is_data, is_initial,
  max_resumable_chunk_size,
}
use libgdata.Upload.Writing.{
  room, append_chunk, write_next_chunk, count_written, Callback, wrote_headers, wrote_body_data,
  run_callback, run_callbacks, happened,
}

-- A limited pop returns at most as many bytes as it may.
return_length-le :
    (r : ℕ) (b : Buffer) → Returns (λ (s : ℕ × Buffer). s.0 ≤ r) (return_length [] r b false)
unfolding return_length wait_for
return_length-le r b = ground arith

pop_data-le :
    (r : ℕ) (b : Buffer) → Returns (λ (p : Popped). p.count ≤ r) (pop_data true r false [] b)
unfolding pop_data
pop_data-le r b =
    Returns-bind (λ (s : ℕ × Buffer). s.0 ≤ r) (λ (p : Popped). p.count ≤ r)
      (return_length [] r b false) _ (return_length-le r b)
      (λ s le.
        Returns-bind (λ t. Unit) (λ (p : Popped). p.count ≤ r) (take_out true s.0 s.1) _
          (Returns-any (take_out true s.0 s.1)) (λ t u. le))

pop_data_limited-le :
    (n : ℕ) (wakes : List (List Event)) (between : List Event) (b : Buffer)
    → Returns (λ (p : Popped). p.count ≤ n) (pop_data_limited n wakes between b)
unfolding pop_data_limited
pop_data_limited-le n wakes between b =
    Returns-bind (λ (b' : Buffer). Unit) (λ (p : Popped). p.count ≤ n) (wait_once wakes b) _
      (Returns-any (wait_once wakes b))
      (λ b' u.
        Returns-weaken _ (λ (p : Popped). p.count ≤ n) _
          (pop_data-le (min n b'.total_length) (run_events between b' false).0)
          (λ p le. omega arith))

-- A range of a content of `n` bytes, of at most 512 KiB.
abbrev pub RangeFits : ℕ → ContentRange → Type 0
RangeFits n r =
    (r.first ≤ r.last)
    × (r.last < n)
    × (r.last < r.first + max_resumable_chunk_size)
    × (r.total ≡ n)

abbrev pub RangesFit : ℕ → List ContentRange → Type 0
RangesFit n [] = Unit
RangesFit n (r ∷ rs) = RangeFits n r × RangesFit n rs

pub RangesFit-append :
    (n : ℕ) (rs : List ContentRange) (r : ContentRange)
    → RangesFit n rs
    → RangeFits n r
    → RangesFit n (rs ++ r ∷ [])
RangesFit-append n [] r h fits = (fits, tt)
RangesFit-append n (q ∷ rs) r (here, h) fits = (here, RangesFit-append n rs r h fits)

-- A resumable upload of `n` bytes, in the middle of a message: the chunk lies within the content,
-- and what has been put into the message within the chunk.
pub record InBounds (n : ℕ) (u : Upload) : Type 0 where
  pub known : u.content_length ≡ some n
  pub small_chunk : u.chunk_size ≤ max_resumable_chunk_size
  pub nothing_yet : is_initial u.state ≡ true → u.total_network_bytes_written ≡ 0
  pub within_chunk :
      is_data u.state ≡ true → u.network_bytes_written + u.network_bytes_outstanding ≤ u.chunk_size
  pub behind : is_data u.state ≡ true → u.network_bytes_written ≤ u.total_network_bytes_written
  pub within_content :
      is_data u.state ≡ true
      → u.total_network_bytes_written + u.chunk_size ≤ n + u.network_bytes_written
  pub at_most : u.total_network_bytes_written ≤ n
  pub named : RangesFit n u.ranges

-- libsoup reports no more bytes than it has been given.
abbrev pub IsHonest : Callback → Upload → Type 0
IsHonest (wrote_headers wakes between) u = Unit
IsHonest (wrote_body_data size wakes between) u = size ≤ u.network_bytes_outstanding

abbrev pub AreHonest : List Callback → Upload → Type 0
AreHonest [] u = Unit
AreHonest (c ∷ cs) u = IsHonest c u × Returns (AreHonest cs) (run_callback c u)

room-resumable :
    {n : ℕ} (u : Upload)
    → u.content_length ≡ some n
    → room u
      ≡ min 8192 (sub64 u.chunk_size (add64 u.network_bytes_written u.network_bytes_outstanding))
unfolding room
room-resumable u known = rw known refl

pub contra : {x : Bool} {A : Type 0} → x ≡ false → x ≡ true → A
contra h k = cc

initial_not_data : (s : UploadState) → is_initial s ≡ true → is_data s ≡ false
initial_not_data initial_request h = refl
initial_not_data data_requests h = cc
initial_not_data finished h = refl

module _ (n : ℕ) (few : n < u64) where
  InBounds-append :
      (u : Upload) (es : List Event) (p : Popped)
      → InBounds n u
      → u.network_bytes_outstanding ≡ 0
      → p.count ≤ room u
      → InBounds n (append_chunk u es p)
  unfolding append_chunk
  InBounds-append u es p inside idle le = record {
    known = inside.known;
    small_chunk = inside.small_chunk;
    nothing_yet = inside.nothing_yet;
    within_chunk = λ asked.
        let so_far = inside.within_chunk asked in
        let short = inside.small_chunk in let most = room-resumable u inside.known in omega arith;
    behind = inside.behind;
    within_content = inside.within_content;
    at_most = inside.at_most;
    named = inside.named;
  }

  InBounds-complete : (u : Upload) → InBounds n u → InBounds n (record u { is_complete = true })
  InBounds-complete u inside = record {
    known = inside.known;
    small_chunk = inside.small_chunk;
    nothing_yet = inside.nothing_yet;
    within_chunk = inside.within_chunk;
    behind = inside.behind;
    within_content = inside.within_content;
    at_most = inside.at_most;
    named = inside.named;
  }

  write_next_chunk-InBounds :
      (wakes : List (List Event)) (between : List Event) (u : Upload)
      → InBounds n u
      → Returns (InBounds n) (write_next_chunk wakes between u)
  write_next_chunk-InBounds wakes between u inside =
      write_next_chunk-elim (Returns (InBounds n)) wakes between u (λ busy. inside)
        (λ idle full. InBounds-complete u inside)
        (λ idle asked more.
          Returns-bind (λ (p : Popped). p.count ≤ room u) (InBounds n) _ _
            (pop_data_limited-le (room u) wakes between u.buffer)
            (λ p le.
              let u' = append_chunk u (happened wakes between u.buffer) p in
              let inside' = InBounds-append u (happened wakes between u.buffer) p inside idle le in
              finish_body-elim (Returns (InBounds n)) u' p.eof (λ more. inside')
                (λ none_left last. InBounds-complete u' inside') (λ last wrong. tt)))

  count_written-InBounds :
      (size : ℕ) (u : Upload)
      → size ≤ u.network_bytes_outstanding
      → InBounds n u
      → InBounds n (count_written size u)
  unfolding count_written
  count_written-InBounds size u honest inside = elim (Bool-cases (is_data u.state)) [
    | inl asked ↦
        let so_far = inside.within_chunk asked in
        let short = inside.small_chunk in
        let behind = inside.behind asked in
        let content = inside.within_content asked in
        let most = inside.at_most in
        let sum : (count_written size u).total_network_bytes_written
            ≡ add64 u.total_network_bytes_written size =
          rw asked refl in
        record {
          known = inside.known;
          small_chunk = short;
          nothing_yet = λ initial. contra (initial_not_data u.state initial) asked;
          within_chunk = λ asked'. omega arith;
          behind = λ asked'. omega arith;
          within_content = λ asked'. omega arith;
          at_most = omega arith;
          named = inside.named;
        }
    | inr other ↦
        let most = inside.at_most in
        let sum : (count_written size u).total_network_bytes_written
            ≡ u.total_network_bytes_written =
          rw other refl in
        record {
          known = inside.known;
          small_chunk = inside.small_chunk;
          nothing_yet = λ initial. sum ∙ inside.nothing_yet initial;
          within_chunk = λ asked. contra other asked;
          behind = λ asked. contra other asked;
          within_content = λ asked. contra other asked;
          at_most = omega arith;
          named = inside.named;
        }
  ]

  run_callback-InBounds :
      (c : Callback) (u : Upload)
      → IsHonest c u
      → InBounds n u
      → Returns (InBounds n) (run_callback c u)
  unfolding run_callback
  run_callback-InBounds (wrote_headers wakes between) u honest inside =
      write_next_chunk-InBounds wakes between u inside
  run_callback-InBounds (wrote_body_data size wakes between) u honest inside =
      elim (Bool-cases (ltb 0 u.network_bytes_outstanding)) [
        | inl busy ↦ rw busy (
            write_next_chunk-InBounds wakes between (count_written size u)
              (count_written-InBounds size u honest inside))
        | inr idle ↦ rw idle tt
      ]

  -- While a message of a resumable upload is sent, the bytes put into it and the bytes written stay
  -- within its chunk, and the chunk within the content, whatever the client writes meanwhile.
  pub run_callbacks-InBounds :
      (cs : List Callback) (u : Upload)
      → AreHonest cs u
      → InBounds n u
      → Returns (InBounds n) (run_callbacks cs u)
  unfolding run_callbacks
  run_callbacks-InBounds [] u honest inside = inside
  run_callbacks-InBounds (c ∷ cs) u (here, later) inside =
      Returns-bind (λ v. InBounds n v × AreHonest cs v) (InBounds n) (run_callback c u)
        (run_callbacks cs)
        (Returns-both (InBounds n) (AreHonest cs) (run_callback c u)
          (run_callback-InBounds c u here inside) later)
        (λ v h. run_callbacks-InBounds cs v h.1 h.0)
