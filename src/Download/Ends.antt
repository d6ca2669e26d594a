-- ===== src/Download/Ends.antt =====
-- The life of the network thread of gdata/gdata-download-stream.c: what a stream that it serves reads,
-- from its start to the end of its content.
use libgdata.Base.{
  ℕ, ◌+◌, ◌≤◌, ◌<◌, ◌≡◌, refl, sym, ap, ◌∙◌, Bool, true, false, some, List, [], ◌∷◌, ◌++◌,
  append_assoc, append-nil, Text, arith, length, length-append, drop, take, take_all, Bool-cases,
  inl, inr, ◌==◌, if◌then◌else◌, ==_iff, length-drop, Option, none,
}
use libgdata.Base.Int.{ℤ, pos}
use libgdata.Base.Word.{u64}
use libgdata.Buffer.{new}
use libgdata.Buffer.Wait.{Event, push, cancel, run_events}
use libgdata.Buffer.Blocking.{concat_events}
use libgdata.Buffer.Push.{Queue, view, enqueue, new-IsValid}
use libgdata.Buffer.Fifo.{enqueue_all, AllProper}
use libgdata.Download.{Download, ReadContext, create_network_thread, start_read, read}
use libgdata.Download.Network.{NetworkCall, got_headers, got_chunk, chunk, range, thread_events}
use libgdata.Download.Thread.{range-wanted}
use libgdata.Download.Position.{Positioned}
use libgdata.Download.Reading.{ReadResult, read-ReadResult}
use libgdata.Download.Places.{IsStopped}
use libgdata.Service.Errors.{Status, ServiceError}

-- The pushes among the events; a cancellation is not the thread's.
unfoldable pub pushes : List Event → List Event
pushes [] = []
pushes (push p ∷ es) = push p ∷ pushes es
pushes (cancel ∷ es) = pushes es

enqueue_all-pushes : (es : List Event) (q : Queue) → enqueue_all es q ≡ enqueue_all (pushes es) q
unfolding enqueue_all pushes
enqueue_all-pushes [] q = refl
enqueue_all-pushes (push p ∷ es) q = enqueue_all-pushes es (enqueue q p).0
enqueue_all-pushes (cancel ∷ es) q = enqueue_all-pushes es q

AllProper-pushes : (es : List Event) (n : ℕ) → AllProper (pushes es) n → AllProper es n
unfolding pushes
AllProper-pushes [] n h = h
AllProper-pushes (push p ∷ es) n h = (h.0, AllProper-pushes es (n + p.size) h.1)
AllProper-pushes (cancel ∷ es) n h = AllProper-pushes es n h

module _ (is_successful : Status → Bool) where
  -- The bytes that the server serves under a successful status.
  unfoldable pub served : List NetworkCall → Text
  served [] = []
  served (got_headers status type size ∷ cs) = served cs
  served (got_chunk status t ∷ cs) = (if is_successful status then t else []) ++ served cs

  some_byte : (x : ℕ) (t : Text) → (length (x ∷ t) == 0) ≡ false
  some_byte x t = ground arith

  enqueue-chunk :
      (x : ℕ) (t bytes : Text)
      → (enqueue (record { bytes = bytes; closed = false }) (chunk (x ∷ t))).0
        ≡ record { bytes = bytes ++ (x ∷ t); closed = false }
  unfolding enqueue
  enqueue-chunk x t bytes = λ i. record { bytes = bytes ++ take_all (x ∷ t) i; closed = false }

  -- What the thread pushes is what is served.
  enqueue_all-thread_events :
      (cs : List NetworkCall) (bytes : Text)
      → (enqueue_all
          (thread_events is_successful cs)
          (record { bytes = bytes; closed = false })).bytes
        ≡ bytes ++ served cs
  unfolding thread_events enqueue_all served
  enqueue_all-thread_events [] bytes = unfold enqueue in sym (append-nil bytes)
  enqueue_all-thread_events (got_headers status type size ∷ cs) bytes =
      enqueue_all-thread_events cs bytes
  enqueue_all-thread_events (got_chunk status [] ∷ cs) bytes =
      elim (Bool-cases (is_successful status)) [
        | inl good ↦ rw good (enqueue_all-thread_events cs bytes)
        | inr bad ↦ rw bad (enqueue_all-thread_events cs bytes)
      ]
  enqueue_all-thread_events (got_chunk status (x ∷ t) ∷ cs) bytes =
      elim (Bool-cases (is_successful status)) [
        | inl good ↦
            rw (good, some_byte x t, enqueue-chunk x t bytes)
              (enqueue_all-thread_events cs (bytes ++ (x ∷ t))
                ∙ append_assoc bytes (x ∷ t) (served cs))
        | inr bad ↦ rw bad (enqueue_all-thread_events cs bytes)
      ]

  thread_events-AllProper :
      (cs : List NetworkCall) (n : ℕ)
      → n + length (served cs) < u64
      → AllProper (thread_events is_successful cs) n
  unfolding thread_events served
  thread_events-AllProper [] n h = (record { sized = omega arith }, omega arith)
  thread_events-AllProper (got_headers status type size ∷ cs) n h = thread_events-AllProper cs n h
  thread_events-AllProper (got_chunk status [] ∷ cs) n h =
      elim (Bool-cases (is_successful status)) [
        | inl good ↦ rw good (thread_events-AllProper cs n (rw good at h))
        | inr bad ↦ rw bad (thread_events-AllProper cs n (rw bad at h))
      ]
  thread_events-AllProper (got_chunk status (x ∷ t) ∷ cs) n h =
      elim (Bool-cases (is_successful status)) [
        | inl good ↦
            let whole : length (x ∷ t) ≤ length (take (length (x ∷ t)) (x ∷ t)) =
              omega (arith, ap length (take_all (x ∷ t))) in
            rw (good, some_byte x t)
              (
                record { sized = whole },
                thread_events-AllProper cs (n + length (x ∷ t))
                    (omega (arith, length-append (x ∷ t) (served cs), rw good at h)),
              )
        | inr bad ↦ rw bad (thread_events-AllProper cs n (rw bad at h))
      ]

  abbrev pub started : Download → Download
  started d = record d { buffer = some new; has_thread = true }

  module _ (content : Text) (o : ℕ) (cs : List NetworkCall) (events : List Event) (d : Download)
      (stopped : IsStopped (pos o) d) (ran : pushes events ≡ thread_events is_successful cs)
      (honest : served cs ≡ drop o content) (small : length (served cs) < u64) where
    started-Positioned : Positioned content events o (started d)
    unfolding new view
    started-Positioned = record {
      buffer = new;
      runs = refl;
      has_buffer = refl;
      at_offset = stopped.at_offset;
      valid = new-IsValid;
      proper = AllProper-pushes events 0 (rw ran (thread_events-AllProper cs 0 (omega arith)));
      serves =
          ap (λ (q : Queue). q.bytes) (enqueue_all-pushes events (view new))
          ∙ ap (λ es. (enqueue_all es (view new)).bytes) ran
          ∙ enqueue_all-thread_events cs []
          ∙ honest;
    }

  read_started :
      (parse_error : Status → Text → ServiceError) (x : ReadContext) (count o : ℕ) (d : Download)
      → IsStopped (pos o) d
      → x.cancelled_before ≡ false
      → x.can_create ≡ true
      → read is_successful parse_error x count d
        ≡ read is_successful parse_error x count (started d)
  unfolding read start_read create_network_thread
  read_started parse_error x count o d stopped live can =
      simp (stopped.no_thread, stopped.no_buffer, live, can)

  -- A server that serves a request for the whole content, and one for the content from an offset on.
  pub record IsServing (content : Text) (serve : Option ℤ → List NetworkCall) : Type 0 where
    pub whole : served (serve none) ≡ content
    pub part : (k : ℕ) → served (serve (some (pos k))) ≡ drop k content

  served-range :
      (content : Text) (serve : Option ℤ → List NetworkCall) (o : ℕ)
      → IsServing content serve
      → served (serve (range (pos o))) ≡ drop o content
  served-range content serve o serving =
      ap (λ r. served (serve r)) (range-wanted (pos o)) ∙ elim (Bool-cases (o == 0)) [
        | inl start ↦
            let first : o ≡ 0 = (==_iff o 0).0 start in
            simp start (serving.whole ∙ ap (λ k. drop k content) (sym first))
        | inr inside ↦ simp inside (serving.part o)
      ]

  -- The first read of a stream that is stopped at an offset, not cancelled before it starts and with a
  -- thread to be had: where the server serves the whole content if it is asked for that, and the
  -- content from an offset on if it is asked for that range, the thread asks for its range and pushes
  -- what it is served, and the read is told of a cancellation, the read comes out as one of a stream
  -- that stands at the offset.
  pub read_stopped-ReadResult :
      (parse_error : Status → Text → ServiceError) (content : Text) (o count : ℕ)
      (serve : Option ℤ → List NetworkCall) (later : List Event) (x : ReadContext) (d : Download)
      → IsServing content serve
      → IsStopped (pos o) d
      → pushes (concat_events x.wakes ++ later)
        ≡ thread_events is_successful (serve (range d.offset))
      → length content < u64
      → x.cancelled_before ≡ false
      → x.can_create ≡ true
      → ((run_events (concat_events x.wakes) new x.cancelled_before).1 ≡ true
          → x.cancelled_after ≡ true)
      → 0 < count
      → (s : Positioned content (concat_events x.wakes ++ later) o (started d)) × ReadResult
          is_successful parse_error content later o count x
          (started d)
          s
          (read is_successful parse_error x count d)
  unfolding started-Positioned
  read_stopped-ReadResult parse_error content o count serve later x d serving stopped ran small live
        can told some_asked =
      let honest = served-range content serve o serving in
      let ran' = ran ∙ ap (λ t. thread_events is_successful (serve (range t))) stopped.at_offset in
      let fits : length (served (serve (range (pos o)))) < u64 =
        omega (arith, ap length honest, length-drop o content) in
      let s =
        started-Positioned content o (serve (range (pos o))) (concat_events x.wakes ++ later) d
          stopped ran' honest fits in
      (
        s,
        rw (read_started parse_error x count o d stopped live can) (
            read-ReadResult is_successful parse_error content later o count x (started d) s told
              some_asked),
      )
