-- ===== src/Download/Places.antt =====
-- `gdata_download_stream_seek` of gdata/gdata-download-stream.c, in a stream whose network thread
-- runs: where the stream stands behind it.
pub mod Backward
use libgdata.Base.{
  empty_of_length, ℕ, ◌+◌, ◌-◌, ◌≤◌, ◌<◌, ◌≡◌, ◌≢◌, refl, sym, ap, ◌∙◌, ◌⊎◌, inl, inr, Bool, true,
  false, not, ◌&&◌, ◌||◌, Option, none, some, List, [], ◌∷◌, ◌++◌, Text, min, arith, length, take,
  drop, ltb, leb, Bool-cases, Option-cases, if◌then◌else◌, length-take, length-drop,
  take-append-drop, ◌==◌,
}
use libgdata.Base.Int.{ℤ, pos, negsuc, le_ℤ, ◌-ℤ◌, -ℤ-pos, pos_part}
use libgdata.Buffer.{Buffer, Outcome, ok, blocked, ◌>>=◌}
use libgdata.Buffer.Wait.{Event, run_events, Popped, pop_data}
use libgdata.Buffer.Contents.{contents, IsValid}
use libgdata.Buffer.Push.{Queue, view}
use libgdata.Buffer.Drain.{InGap}
use libgdata.Buffer.Blocking.{concat_events}
use libgdata.Buffer.Fifo.{enqueue_all, AllProper-front}
use libgdata.Buffer.Skip.{SkipResult, skipped, broken, waits, pop_data-SkipResult}
use libgdata.Download.{Download, DownloadError, cancelled, invalid_seek}
use libgdata.Download.Closing.{
  Seen, CloseContext, await_thread, settle_close, tidy_up, reset_network_thread, close,
  close_running,
}
use libgdata.Download.Seeking.{
  SeekType, SeekContext, absolute, is_end, is_unknown, finish_skip, skip_forward, finish_back,
  seek_to, seek,
}
use libgdata.Download.Position.{
  Positioned, rest_left, Positioned-next, Positioned-at, run_events-cancelled_front,
  enqueue_all-closed, split_off,
}

-- A stream that the next read starts at its offset.
pub record IsStopped (o : ℤ) (d : Download) : Type 0 where
  pub no_thread : d.has_thread ≡ false
  pub no_buffer : d.buffer ≡ none
  pub at_offset : d.offset ≡ o
  pub unfinished : d.finished ≡ false

-- What a close goes on with: what it sees at first, if the thread has finished by then or the close is
-- cancelled, or else what it sees when it wakes up.
pub data GoesOn (x : CloseContext) : Seen → Type 0 where
  at_once : (x.first.is_finished || x.first.is_cancelled) ≡ true → GoesOn x x.first
  woken :
      (c : Seen)
      → (x.first.is_finished || x.first.is_cancelled) ≡ false
      → x.wake ≡ some c
      → GoesOn x c

module _ (content : Text) (later : List Event) (o : ℕ) (x : SeekContext) (d : Download)
    (s : Positioned content (concat_events x.wakes ++ later) o d) where
  -- How a seek to `target` comes out. It goes forward, and stands there; or too little was there, or
  -- it was cancelled, and then the bytes that it popped are gone, though the offset is the old one;
  -- or it leaves a buffer that is not valid. It goes back, and the stream is stopped there; or the
  -- close is cancelled; or the close has returned with the thread running. Or it waits.
  pub data SeekResult (target : ℤ) : Outcome (Download × Option DownloadError) → Type 0 where
    forward :
        (rest : List Event) (t : ℕ) (d' : Download)
        → target ≡ pos t
        → o ≤ t
        → Positioned content (rest ++ later) t d'
        → SeekResult target (ok (d', none))
    short :
        (rest : List Event) (k : ℕ) (d' : Download)
        → pos (o + k) ≢ target
        → (drop (o + k) content ≡ []) ⊎ (x.cancelled_after ≡ true)
        → d'.offset ≡ pos o
        → Positioned content (rest ++ later) (o + k) (record d' { offset = pos (o + k) })
        → SeekResult target (ok (d', some (if x.cancelled_after then cancelled else invalid_seek)))
    spoilt :
        (es rest : List Event) (t n : ℕ) (d' : Download) (e : Option DownloadError) (b' : Buffer)
        → target ≡ pos t
        → o ≤ t
        → concat_events x.wakes ≡ es ++ rest
        → n ≡ min (t - o) (length (enqueue_all es (view s.buffer)).bytes)
        → InGap
            (run_events es s.buffer x.cancelled_before).0.head
            (run_events es s.buffer x.cancelled_before).0.head_read_offset
            n
        → d'.buffer ≡ some b'
        → ¬ (IsValid b')
        → SeekResult target (ok (d', e))
    back :
        (d' : Download) (c : Seen)
        → le_ℤ (pos o) target ≡ false
        → GoesOn x.closing c
        → (not c.is_finished && c.is_cancelled) ≡ false
        → x.closing.last ≡ true
        → IsStopped target d'
        → SeekResult target (ok (d', none))
    back_cancelled :
        (d' : Download) (c : Seen)
        → le_ℤ (pos o) target ≡ false
        → GoesOn x.closing c
        → c.is_finished ≡ false
        → c.is_cancelled ≡ true
        → d'.offset ≡ pos o
        → d'.buffer ≡ some s.buffer
        → d'.has_thread ≡ true
        → SeekResult target (ok (d', some cancelled))
    still_running :
        (d' : Download) (c : Seen)
        → le_ℤ (pos o) target ≡ false
        → GoesOn x.closing c
        → (not c.is_finished && c.is_cancelled) ≡ false
        → x.closing.last ≡ false
        → SeekResult target (ok (d', none))
    waiting_forward :
        (t : ℕ)
        → target ≡ pos t
        → o ≤ t
        → (enqueue_all (concat_events x.wakes) (view s.buffer)).closed ≡ false
        → length (enqueue_all (concat_events x.wakes) (view s.buffer)).bytes < t - o
        → SeekResult target blocked
    waiting_back :
        le_ℤ (pos o) target ≡ false
        → (x.closing.first.is_finished || x.closing.first.is_cancelled) ≡ false
        → x.closing.wake ≡ none
        → SeekResult target blocked

  module _
      (told : (run_events (concat_events x.wakes) s.buffer x.cancelled_before).1 ≡ true
        → x.cancelled_after ≡ true)
      (t : ℕ) (ahead : o ≤ t) where
    module _ (es rest : List Event) (p : Popped) (split : concat_events x.wakes ≡ es ++ rest)
        (counted : p.count ≡ min (t - o) (length (enqueue_all es (view s.buffer)).bytes))
        (left : contents p.buffer ≡ drop p.count (enqueue_all es (view s.buffer)).bytes)
        (closed : p.buffer.reached_eof ≡ (enqueue_all es (view s.buffer)).closed)
        (why : (p.count ≡ t - o)
          ⊎ ((p.buffer.reached_eof ≡ true)
              ⊎ ((run_events es s.buffer x.cancelled_before).1 ≡ true)))
        (v : IsValid p.buffer) where
      abbrev gone : Text
      gone = take p.count (enqueue_all es (view s.buffer)).bytes

      whole : gone ++ contents p.buffer ≡ (enqueue_all es (view s.buffer)).bytes
      whole =
          ap (λ u. gone ++ u) left ∙ take-append-drop p.count (enqueue_all es (view s.buffer)).bytes

      length-gone : length gone ≡ p.count
      length-gone = omega (arith, length-take p.count (enqueue_all es (view s.buffer)).bytes)

      next :
          Positioned content
            (rest ++ later)
            (o + p.count)
            (record d { buffer = some p.buffer; offset = pos (o + p.count) })
      next =
          Positioned-at (o + p.count)
            (record d { buffer = some p.buffer; offset = pos (o + p.count) })
            (Positioned-next content (concat_events x.wakes ++ later) o d s es (rest ++ later)
              (split_off es rest later split) p.buffer gone whole closed v)
            refl refl refl (ap (λ n. o + n) length-gone)

      at_end : p.count ≢ t - o → p.buffer.reached_eof ≡ true → drop (o + p.count) content ≡ []
      unfolding view
      at_end less marked =
          let nothing = empty_of_length (contents p.buffer) (
            omega (
              arith,
              ap length left,
              length-drop p.count (enqueue_all es (view s.buffer)).bytes,
            )) in
          ap (λ n. drop (o + n) content) (sym length-gone)
          ∙ sym (
              rest_left content (concat_events x.wakes ++ later) o d s es (rest ++ later)
                (split_off es rest later split) p.buffer gone whole closed)
          ∙ ap (λ (q : Queue). q.bytes) (enqueue_all-closed (rest ++ later) (view p.buffer) marked)
          ∙ nothing

      reason : p.count ≢ t - o → (drop (o + p.count) content ≡ []) ⊎ (x.cancelled_after ≡ true)
      reason less = elim why [
        | inl all ↦ absurd (less all)
        | inr (inl marked) ↦ inl (at_end less marked)
        | inr (inr stop) ↦ inr (
            told (
              ap (λ u. (run_events u s.buffer x.cancelled_before).1) split
              ∙ run_events-cancelled_front es rest s.buffer x.cancelled_before stop))
      ]

      SeekResult-skip : SeekResult (pos t) (ok (finish_skip x (pos t) (t - o) p d))
      unfolding finish_skip
      SeekResult-skip = elim (Bool-cases (p.count == (t - o))) [
        | inl all ↦ rw all (
            forward rest t (record d { buffer = some p.buffer; offset = pos t }) refl ahead
              (Positioned-at t (record d { buffer = some p.buffer; offset = pos t }) next refl refl
                refl (ground arith)))
        | inr less ↦ rw less (
            short rest p.count (record d { buffer = some p.buffer }) (ground arith)
              (reason (ground arith)) s.at_offset next)
      ]

    SeekResult-pop :
        {r : Outcome Popped}
        → SkipResult (t - o) x.cancelled_before x.wakes s.buffer r
        → SeekResult (pos t) (r >>= λ p. ok (finish_skip x (pos t) (t - o) p d))
    unfolding finish_skip
    SeekResult-pop (skipped es rest p split counted left closed why v) =
        SeekResult-skip es rest p split counted left closed why v
    SeekResult-pop (broken es rest p split counted gap wrong) =
        elim (Bool-cases (p.count == (t - o))) [
          | inl all ↦ rw all (
              spoilt es rest t p.count (record d { buffer = some p.buffer; offset = pos t }) none
                p.buffer refl ahead split counted gap refl wrong)
          | inr less ↦ rw less (
              spoilt es rest t p.count (record d { buffer = some p.buffer })
                (some (if x.cancelled_after then cancelled else invalid_seek)) p.buffer refl ahead
                split counted gap refl wrong)
        ]
    SeekResult-pop (waits opened few) = waiting_forward t refl ahead opened few

    skip_running : skip_forward x (pos t) d.buffer d ≡ (
        pop_data false (t - o) x.cancelled_before x.wakes s.buffer >>= λ p.
        ok (finish_skip x (pos t) (t - o) p d))
    unfolding skip_forward
    skip_running =
        ap (λ b. skip_forward x (pos t) b d) s.has_buffer
        ∙ ap
            (λ n. pop_data false n x.cancelled_before x.wakes s.buffer >>= λ p.
              ok (finish_skip x (pos t) n p d))
            (ap (λ u. pos_part (pos t -ℤ u)) s.at_offset ∙ ap pos_part (-ℤ-pos t o ahead))

    pub SeekResult-forward : SeekResult (pos t) (skip_forward x (pos t) d.buffer d)
    SeekResult-forward = rw skip_running (
        SeekResult-pop (
          pop_data-SkipResult (t - o) x.cancelled_before x.wakes s.buffer s.valid
            (AllProper-front (concat_events x.wakes) later _ s.proper)))
