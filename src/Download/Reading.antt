-- ===== src/Download/Reading.antt =====
-- `gdata_download_stream_read` of gdata/gdata-download-stream.c, in a stream whose network thread
-- runs: it reads the content on from the stream's offset.
use libgdata.Base.{
  empty_of_length, ℕ, ◌+◌, ◌≤◌, ◌<◌, ◌≡◌, refl, sym, ap, ◌∙◌, ◌≢◌, ◌⊎◌, inl, inr, Bool, true, false,
  ◌&&◌, ◌||◌, some, List, [], ◌++◌, Text, min, arith, length, take, drop, ltb, leb, Bool-cases,
  length-append,
}
use native.Mathlib.Decide.{ℕ_discrete}
use libgdata.Base.Int.{pos, ◌+ℤ◌, +ℤ-pos}
use libgdata.Buffer.{Outcome, ok, overrun, assertion, blocked, ◌>>=◌}
use libgdata.Buffer.Wait.{Event, run_events, Popped, pop_data}
use libgdata.Buffer.Contents.{contents, IsValid}
use libgdata.Buffer.Push.{Queue, view}
use libgdata.Buffer.Drain.{InGap}
use libgdata.Buffer.Blocking.{concat_events}
use libgdata.Buffer.Fifo.{
  enqueue_all, AllProper-front, PopResult, popped, past_chunk, waits, pop_data-PopResult,
}
use libgdata.Download.{
  Download, cancelled, service_error, ReadContext, ReadAnswer, bytes, error, finish_read, pop_read,
  start_read, read_from, read,
}
use libgdata.Download.Position.{
  Positioned, rest_left, taken, Positioned-next, Positioned-at, run_events-cancelled_front,
  enqueue_all-closed, split_off,
}
use libgdata.Service.Errors.{Status, ServiceError}

module _ (is_successful : Status → Bool) (parse_error : Status → Text → ServiceError)
    (content : Text) (later : List Event) (o count : ℕ) (x : ReadContext) (d : Download)
    (s : Positioned content (concat_events x.wakes ++ later) o d) where
  -- How a read of up to `count` bytes comes out. It returns the content from the offset on, and
  -- stands behind what it returned; less than `count` only at the end or if it is cancelled. Or it is
  -- cancelled, and stands where it stood; or the server has refused. Or it fails its assertion, at
  -- the end of the content; or the pop reads past the first chunk, or waits for bytes.
  pub data ReadResult : Outcome (Download × ReadAnswer) → Type 0 where
    got :
        (rest : List Event) (t : Text) (d' : Download)
        → is_successful x.status ≡ true
        → length t ≤ count
        → t ≡ take (length t) (drop o content)
        → (length t ≡ count) ⊎ ((drop (o + length t) content ≡ []) ⊎ (x.cancelled_after ≡ true))
        → Positioned content (rest ++ later) (o + length t) d'
        → ReadResult (ok (d', bytes t))
    stopped :
        (rest : List Event) (d' : Download)
        → x.cancelled_after ≡ true
        → Positioned content (rest ++ later) o d'
        → ReadResult (ok (d', error cancelled))
    refused :
        (d' : Download)
        → is_successful x.status ≡ false
        → d'.offset ≡ pos o
        → ReadResult (ok (d', error (service_error (parse_error x.status x.reason))))
    late_end : is_successful x.status ≡ true → drop o content ≡ [] → ReadResult assertion
    past_first_chunk :
        (es rest : List Event) (n : ℕ)
        → concat_events x.wakes ≡ es ++ rest
        → n ≡ min count (length (enqueue_all es (view s.buffer)).bytes)
        → InGap
            (run_events es s.buffer x.cancelled_before).0.head
            (run_events es s.buffer x.cancelled_before).0.head_read_offset
            n
        → ReadResult overrun
    waiting :
        (enqueue_all (concat_events x.wakes) (view s.buffer)).closed ≡ false
        → length (enqueue_all (concat_events x.wakes) (view s.buffer)).bytes < count
        → ReadResult blocked

  pub read_running : read is_successful parse_error x count d ≡ (
      pop_data true count x.cancelled_before x.wakes s.buffer >>= λ p.
      finish_read is_successful parse_error x count p d)
  unfolding read start_read read_from pop_read
  read_running = simp (s.runs, s.has_buffer)

  module _
      (told : (run_events (concat_events x.wakes) s.buffer x.cancelled_before).1 ≡ true
        → x.cancelled_after ≡ true)
      (some_asked : 0 < count) where
    module _ (es rest : List Event) (p : Popped) (split : concat_events x.wakes ≡ es ++ rest)
        (counted : p.count ≡ min count (length (enqueue_all es (view s.buffer)).bytes))
        (sized : p.count ≡ length p.out)
        (same : p.out ++ contents p.buffer ≡ (enqueue_all es (view s.buffer)).bytes)
        (closed : p.buffer.reached_eof ≡ (enqueue_all es (view s.buffer)).closed)
        (why : (p.count ≡ count)
          ⊎ ((p.buffer.reached_eof ≡ true)
              ⊎ ((run_events es s.buffer x.cancelled_before).1 ≡ true)))
        (v : IsValid p.buffer) where
      next :
          Positioned content
            (rest ++ later)
            (o + length p.out)
            (record d { buffer = some p.buffer; offset = pos (o + length p.out) })
      next =
          Positioned-next content (concat_events x.wakes ++ later) o d s es (rest ++ later)
            (split_off es rest later split) p.buffer p.out same closed v

      -- A pop that the EOF mark ended short has taken all that there is.
      at_end : p.count ≢ count → p.buffer.reached_eof ≡ true → drop (o + length p.out) content ≡ []
      unfolding view
      at_end short marked =
          let nothing =
            empty_of_length (contents p.buffer)
              (omega (arith, ap length same, length-append p.out (contents p.buffer))) in
          sym (
            rest_left content (concat_events x.wakes ++ later) o d s es (rest ++ later)
              (split_off es rest later split) p.buffer p.out same closed)
          ∙ ap (λ (q : Queue). q.bytes) (enqueue_all-closed (rest ++ later) (view p.buffer) marked)
          ∙ nothing

      reason :
          (length p.out ≡ count)
          ⊎ ((drop (o + length p.out) content ≡ []) ⊎ (x.cancelled_after ≡ true))
      reason = elim (ℕ_discrete p.count count) [
        | yes all ↦ inl (sym sized ∙ all)
        | no short ↦ elim why [
          | inl all ↦ absurd (short all)
          | inr (inl marked) ↦ inr (inl (at_end short marked))
          | inr (inr stop) ↦ inr (
              inr (
                told (
                  ap (λ t. (run_events t s.buffer x.cancelled_before).1) split
                  ∙ run_events-cancelled_front es rest s.buffer x.cancelled_before stop)))
        ]
      ]

      ReadResult-finish : ReadResult (finish_read is_successful parse_error x count p d)
      unfolding finish_read
      ReadResult-finish = elim (Bool-cases (ltb p.count 1 && x.cancelled_after)) [
        | inl stop ↦ rw stop (
            stopped rest (record d { buffer = some p.buffer }) (ground arith)
              (Positioned-at o (record d { buffer = some p.buffer }) next refl refl s.at_offset
                (ground arith)))
        | inr on ↦ elim (Bool-cases (is_successful x.status)) [
          | inr bad ↦ rw (on, bad) (refused (record d { buffer = some p.buffer }) bad s.at_offset)
          | inl good ↦ elim (Bool-cases ((ltb 0 p.count || p.eof) && leb p.count count)) [
            | inl fine ↦
                rw (on, good, fine)
                  (got rest p.out
                    (record d { buffer = some p.buffer; offset = d.offset +ℤ pos p.count }) good
                    (omega arith)
                    (taken content (concat_events x.wakes ++ later) o d s es (rest ++ later)
                      (split_off es rest later split) p.buffer p.out same closed)
                    reason
                    (Positioned-at (o + length p.out)
                      (record d { buffer = some p.buffer; offset = d.offset +ℤ pos p.count }) next
                      refl refl
                      (ap (λ t. t +ℤ pos p.count) s.at_offset
                        ∙ +ℤ-pos o p.count
                        ∙ ap (λ n. pos (o + n)) sized)
                      refl))
            | inr wrong ↦ rw (on, good, wrong) (late_end good (ground (arith, reason)))
          ]
        ]
      ]

    ReadResult-pop :
        {r : Outcome Popped}
        → PopResult count x.cancelled_before x.wakes s.buffer r
        → ReadResult (r >>= λ p. finish_read is_successful parse_error x count p d)
    ReadResult-pop (popped es rest p split counted sized same closed why v) =
        ReadResult-finish es rest p split counted sized same closed why v
    ReadResult-pop (past_chunk es rest n split counted why gap) =
        past_first_chunk es rest n split counted gap
    ReadResult-pop (waits opened few) = waiting opened few

    -- In a stream whose thread runs and whose buffer, with what the thread has yet to push, is the
    -- content from the stream's offset on, a read of some bytes comes out in one of these ways,
    -- whatever the schedule, where it is told of a cancellation. Under a successful status it returns
    -- the content from the offset on, at most as many bytes as asked for, and less only at the end of
    -- the content or if it is cancelled; the stream then stands behind these bytes, and the rest of the
    -- content is still to come; or, with nothing of the content left, its assertion fails. Or it is
    -- cancelled, and the stream stands where it stood. Or the message's status is no success, the error
    -- is the one of the service, and the offset is as it was. Or the pop reads past the first chunk of
    -- the buffer, what is there up to the count lying in the gap; or it waits, the end not being marked
    -- and fewer bytes being pushed than asked for.
    pub read-ReadResult : ReadResult (read is_successful parse_error x count d)
    read-ReadResult = rw read_running (
        ReadResult-pop (
          pop_data-PopResult count x.cancelled_before x.wakes s.buffer s.valid
            (AllProper-front (concat_events x.wakes) later _ s.proper)))
