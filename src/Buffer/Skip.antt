-- ===== src/Buffer/Skip.antt =====
-- `gdata_buffer_pop_data` of gdata/gdata-buffer.c with a NULL `data`, as a seek calls it: the bytes are
-- dropped from the queue.
use libgdata.Base.{
  ℕ, ◌<◌, ◌≡◌, sym, ap, ◌∙◌, ◌⊎◌, inl, inr, Bool, true, false, ◌&&◌, List, [], ◌++◌, min, leb,
  arith, length, drop,
}
use libgdata.Buffer.{Buffer, Outcome, ok, blocked, ◌>>=◌, take_out}
use libgdata.Buffer.Wait.{Event, run_events, Popped, pop_data}
use libgdata.Buffer.Contents.{contents, IsValid}
use libgdata.Buffer.Push.{Queue, view}
use libgdata.Buffer.Drain.{InGap}
use libgdata.Buffer.Pop.{take_out-refines, take_out-InGap}
use libgdata.Buffer.Blocking.{Waited, ended, stuck, return_length-Waited, concat_events}
use libgdata.Buffer.Fifo.{enqueue_all, AllProper, AllProper-front, run_events-refines, InGap-cases}

-- How a pop that copies nothing comes out, with other threads' events on the way.
pub data SkipResult (requested : ℕ) (c : Bool) (wakes : List (List Event)) (b : Buffer)
    : Outcome Popped → Type 0 where
  skipped :
      (es rest : List Event) (p : Popped)
      → concat_events wakes ≡ es ++ rest
      → p.count ≡ min requested (length (enqueue_all es (view b)).bytes)
      → contents p.buffer ≡ drop p.count (enqueue_all es (view b)).bytes
      → p.buffer.reached_eof ≡ (enqueue_all es (view b)).closed
      → (p.count ≡ requested) ⊎ ((p.buffer.reached_eof ≡ true) ⊎ ((run_events es b c).1 ≡ true))
      → IsValid p.buffer
      → SkipResult requested c wakes b (ok p)
  broken :
      (es rest : List Event) (p : Popped)
      → concat_events wakes ≡ es ++ rest
      → p.count ≡ min requested (length (enqueue_all es (view b)).bytes)
      → InGap (run_events es b c).0.head (run_events es b c).0.head_read_offset p.count
      → ¬ (IsValid p.buffer)
      → SkipResult requested c wakes b (ok p)
  waits :
      (enqueue_all (concat_events wakes) (view b)).closed ≡ false
      → length (enqueue_all (concat_events wakes) (view b)).bytes < requested
      → SkipResult requested c wakes b blocked

module _ (requested : ℕ) (c : Bool) (wakes : List (List Event)) (b : Buffer) (v : IsValid b)
    (proper : AllProper (concat_events wakes) b.total_length) where
  SkipResult-take :
      (es rest : List Event) (n : ℕ) (eof : Bool)
      → concat_events wakes ≡ es ++ rest
      → n ≡ min requested (run_events es b c).0.total_length
      → (n ≡ requested)
        ⊎ (((run_events es b c).0.reached_eof ≡ true) ⊎ ((run_events es b c).1 ≡ true))
      → SkipResult requested c wakes b (
          take_out false n (run_events es b c).0 >>= λ t.
          ok (record { eof = eof; count = n; out = t.0; buffer = t.1 }))
  unfolding view
  SkipResult-take es rest n eof split count why =
      let b' = (run_events es b c).0 in
      let (seen, v') =
        run_events-refines es b c v (AllProper-front es rest _ (rw split at proper)) in
      let bytes_seen = ap (λ (q : Queue). q.bytes) seen in
      elim (InGap-cases (run_events es b c).0.head (run_events es b c).0.head_read_offset n) [
        | inl gap ↦
            let (b'', run, wrong) = (take_out-InGap n (run_events es b c).0 v' gap).1 in
            rw run (
              broken es rest (record { eof = eof; count = n; out = []; buffer = b'' }) split
                (omega (arith, ap length bytes_seen, v'.counted)) gap wrong)
        | inr safe ↦
            let (b'', run, rest_left, same_eof, v'') =
              take_out-refines false n (run_events es b c).0 v' (omega arith) safe in
            rw run (
              skipped es rest (record { eof = eof; count = n; out = []; buffer = b'' }) split
                (omega (arith, ap length bytes_seen, v'.counted))
                (rest_left ∙ ap (λ t. drop n t) bytes_seen)
                (same_eof ∙ ap (λ (q : Queue). q.closed) seen) (rw same_eof why) v'')
      ]

  SkipResult-of :
      (eof : Bool) {x : Outcome (ℕ × Buffer)}
      → Waited wakes requested b c x
      → SkipResult requested c wakes b (
          x >>= λ s. take_out false s.0 s.1 >>= λ t.
          ok (record { eof = eof; count = s.0; out = t.0; buffer = t.1 }))
  unfolding view
  SkipResult-of eof (ended es rest n b' split same count why) =
      rw same (SkipResult-take es rest n eof split (rw same at count) (rw same at why))
  SkipResult-of eof (stuck live opened few) =
      let (seen, v') = run_events-refines (concat_events wakes) b c v proper in
      waits (sym (ap (λ (q : Queue). q.closed) seen) ∙ opened)
        (rw (← ap (λ (q : Queue). q.bytes) seen) (omega (arith, v'.counted)))

-- On a valid buffer, with the other threads' pushes proper, a pop that copies nothing drops the bytes
-- at the front of the queue of what was pushed, as many as there are up to the request; or its length
-- lies in the gap of the first chunk, and the buffer that it leaves is not valid; or it waits.
pub pop_data-SkipResult :
    (requested : ℕ) (c : Bool) (wakes : List (List Event)) (b : Buffer)
    → IsValid b
    → AllProper (concat_events wakes) b.total_length
    → SkipResult requested c wakes b (pop_data false requested c wakes b)
unfolding pop_data
pop_data-SkipResult requested c wakes b v proper =
    SkipResult-of requested c wakes b v proper (b.reached_eof && leb b.total_length requested)
      (return_length-Waited wakes requested b c)
