-- ===== src/Download/Failures.antt =====
-- Where a read of gdata/gdata-download-stream.c fails one of its assertions.
use libgdata.Base.{
  ℕ, ◌≤◌, ◌<◌, ◌≡◌, ap, ◌∙◌, Bool, true, false, some, List, [], ◌∷◌, ◌++◌, append_assoc, Text, min,
  arith, length, length-append, drop,
}
use libgdata.Base.Int.{ℤ}
use libgdata.Buffer.{Pushed, block, new, ok, assertion, ◌>>=◌, take_out}
use libgdata.Buffer.Wait.{Event, push, cancel, run_events, pop_data}
use libgdata.Buffer.Blocking.{concat_events}
use libgdata.Buffer.Push.{Queue, view, enqueue}
use libgdata.Buffer.Fifo.{enqueue_all, AllProper-front, run_events-refines}
use libgdata.Buffer.Limited.{pop_data_eof_late}
use libgdata.Download.{
  Download, no_thread, ReadContext, error, finish_read, create_network_thread, start_read,
  read_from, read,
}
use libgdata.Download.Places.{IsStopped}
use libgdata.Download.Position.{Positioned, enqueue_all-append}
use libgdata.Download.Reading.{read_running}
use libgdata.Service.Errors.{Status, ServiceError}

length-enqueue : (q : Queue) (p : Pushed) → length q.bytes ≤ length (enqueue q p).0.bytes
unfolding enqueue
length-enqueue q p = ground (arith, length-append q.bytes (block p.bytes p.memory p.size))

-- A queue does not get shorter.
length-enqueue_all :
    (es : List Event) (q : Queue) → length q.bytes ≤ length (enqueue_all es q).bytes
unfolding enqueue_all
length-enqueue_all [] q = omega arith
length-enqueue_all (push p ∷ es) q =
    omega (arith, length-enqueue q p, length-enqueue_all es (enqueue q p).0)
length-enqueue_all (cancel ∷ es) q = length-enqueue_all es q

module _ (is_successful : Status → Bool) (parse_error : Status → Text → ServiceError) where
  -- Where the system has no thread to give, a read of a stopped stream says so, and leaves a buffer
  -- behind, so that the next read, if it is not cancelled before, fails an assertion.
  read_no_thread_twice :
      (x y : ReadContext) (count count' : ℕ) (o : ℤ) (d : Download)
      → IsStopped o d
      → x.can_create ≡ false
      → x.cancelled_before ≡ false
      → y.cancelled_before ≡ false
      → (d' : Download) × (read is_successful parse_error x count d ≡ ok (d', error no_thread))
        × (d'.offset ≡ o)
        × (read is_successful parse_error y count' d' ≡ assertion)
  unfolding read start_read create_network_thread read_from
  read_no_thread_twice x y count count' o d stopped none_left live live' = (
    record d { buffer = some new; has_thread = false },
    simp (stopped.no_thread, stopped.no_buffer, live, none_left),
    stopped.at_offset,
    simp live',
  )

  module _ (content : Text) (later : List Event) (o count : ℕ) (x : ReadContext) (d : Download)
      (w : List Event) (more : List (List Event)) (scheduled : x.wakes ≡ w ∷ more)
      (s : Positioned content (concat_events x.wakes ++ later) o d)
      (none_left : drop o content ≡ []) where
    coming_split : concat_events x.wakes ++ later ≡ w ++ (concat_events more ++ later)
    unfolding concat_events
    coming_split =
        ap (λ t. concat_events t ++ later) scheduled ∙ append_assoc w (concat_events more) later

    nothing_before : s.buffer.total_length ≡ 0
    unfolding view
    nothing_before = omega (
      arith,
      s.valid.counted,
      length-enqueue_all (concat_events x.wakes ++ later) (view s.buffer),
      ap length s.serves,
      ap length none_left,
    )

    nothing_after : (run_events w s.buffer false).0.total_length ≡ 0
    unfolding view
    nothing_after =
        let (seen, v) =
          run_events-refines w s.buffer false s.valid
            (AllProper-front w (concat_events more ++ later) _ (rw coming_split at s.proper)) in
        omega (
          arith,
          v.counted,
          ap (λ (q : Queue). length q.bytes) seen,
          length-enqueue_all (concat_events more ++ later) (enqueue_all w (view s.buffer)),
          ap (λ (q : Queue). length q.bytes)
              (enqueue_all-append w (concat_events more ++ later) (view s.buffer)),
          ap (λ t. length (enqueue_all t (view s.buffer)).bytes) coming_split,
          ap length s.serves,
          ap length none_left,
        )

    take_out_nothing :
        take_out true
          (min count (run_events w s.buffer false).0.total_length)
          (run_events w s.buffer false).0
        ≡ ok ([], (run_events w s.buffer false).0)
    unfolding take_out
    take_out_nothing =
        let nothing : min count (run_events w s.buffer false).0.total_length ≡ 0 =
          omega (arith, nothing_after) in
        ap (λ n. take_out true n (run_events w s.buffer false).0) nothing

    -- A read that stands at the end of the content, in a download that goes well, and that waits
    -- there until the thread marks the end, fails an assertion, for every count: nobody tells it
    -- that the end is reached.
    pub read_late_end :
        0 < count
        → s.buffer.reached_eof ≡ false
        → (run_events w s.buffer false).0.reached_eof ≡ true
        → x.cancelled_before ≡ false
        → x.cancelled_after ≡ false
        → is_successful x.status ≡ true
        → read is_successful parse_error x count d ≡ assertion
    unfolding finish_read
    read_late_end asked opened marked live live' good =
        let nothing : min count (run_events w s.buffer false).0.total_length ≡ 0 =
          omega (arith, nothing_after) in
        read_running is_successful parse_error content later o count x d s
        ∙ ap
            (λ t. pop_data true count t x.wakes s.buffer >>= λ p.
              finish_read is_successful parse_error x count p d)
            live
        ∙ ap
            (λ t. pop_data true count false t s.buffer >>= λ p.
              finish_read is_successful parse_error x count p d)
            scheduled
        ∙ ap (λ m. m >>= λ p. finish_read is_successful parse_error x count p d)
            (pop_data_eof_late count w more s.buffer opened (omega (arith, nothing_before)) marked
              take_out_nothing)
        ∙ simp (nothing, live', good)
