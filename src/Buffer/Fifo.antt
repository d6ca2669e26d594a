-- ===== src/Buffer/Fifo.antt =====
-- `gdata_buffer_pop_data` and `gdata_buffer_pop_data_limited` of gdata/gdata-buffer.c as a whole,
-- with other threads pushing while they wait: the bytes come out in the order they were pushed.
use libgdata.Base.{
  ℕ, ◌+◌, ◌≤◌, ◌<◌, ◌≡◌, refl, sym, ap, ◌∙◌, ◌⊎◌, inl, inr, Bool, true, false, ◌&&◌, List, [], ◌∷◌,
  ◌++◌, Text, min, leb, leb→gt, leb→le, arith, Bool-cases, take, length, length-take,
  take-append-drop,
}
use libgdata.Base.Word.{u64}
use libgdata.Buffer.{Buffer, Pushed, push_data, Outcome, ok, blocked, overrun, ◌>>=◌, take_out}
use libgdata.Buffer.Wait.{Event, push, cancel, run_events, Popped, pop_data}
use libgdata.Buffer.Contents.{contents, IsValid}
use libgdata.Buffer.Push.{IsProper, Queue, view, enqueue, push_data-refines}
use libgdata.Buffer.Drain.{InGap}
use libgdata.Buffer.Pop.{take_out-refines, take_out-InGap}
use libgdata.Buffer.Blocking.{Waited, ended, stuck, return_length-Waited, concat_events}

-- The events on the queue that the buffer stands for.
unfoldable pub enqueue_all : List Event → Queue → Queue
enqueue_all [] q = q
enqueue_all (push p ∷ es) q = enqueue_all es (enqueue q p).0
enqueue_all (cancel ∷ es) q = enqueue_all es q

-- The pushes carry the bytes that they claim, and all of them together fit a `gsize`.
abbrev pub AllProper : List Event → ℕ → Type 0
AllProper [] total = total < u64
AllProper (push p ∷ es) total = IsProper p × AllProper es (total + p.size)
AllProper (cancel ∷ es) total = AllProper es total

pub AllProper-lt : (es : List Event) (t : ℕ) → AllProper es t → t < u64
AllProper-lt [] t h = h
AllProper-lt (push p ∷ es) t h = let l = AllProper-lt es (t + p.size) h.1 in omega arith
AllProper-lt (cancel ∷ es) t h = AllProper-lt es t h

pub AllProper-mono : (es : List Event) (s t : ℕ) → s ≤ t → AllProper es t → AllProper es s
AllProper-mono [] s t le h = omega arith
AllProper-mono (push p ∷ es) s t le h =
    (h.0, AllProper-mono es (s + p.size) (t + p.size) (omega arith) h.1)
AllProper-mono (cancel ∷ es) s t le h = AllProper-mono es s t le h

pub AllProper-front : (es rest : List Event) (t : ℕ) → AllProper (es ++ rest) t → AllProper es t
AllProper-front [] rest t h = AllProper-lt rest t h
AllProper-front (push p ∷ es) rest t h = (h.0, AllProper-front es rest (t + p.size) h.1)
AllProper-front (cancel ∷ es) rest t h = AllProper-front es rest t h

-- A push adds at most its size to the total.
pub total-push :
    (b : Buffer) (p : Pushed)
    → b.total_length + p.size < u64
    → (push_data b p).0.total_length ≤ b.total_length + p.size
unfolding push_data
total-push b p h = ground arith

pub run_events-refines :
    (es : List Event) (b : Buffer) (c : Bool)
    → IsValid b
    → AllProper es b.total_length
    → (view (run_events es b c).0 ≡ enqueue_all es (view b)) × IsValid (run_events es b c).0
unfolding run_events enqueue_all
run_events-refines [] b c v h = (refl, v)
run_events-refines (push p ∷ es) b c v (proper, later) =
    let small = AllProper-lt es (b.total_length + p.size) later in
    let (seen, answer, v') = push_data-refines b p v proper small in
    let (ih, w) =
      run_events-refines es (push_data b p).0 c v'
        (AllProper-mono es _ _ (total-push b p small) later) in
    (ih ∙ ap (enqueue_all es) seen, w)
run_events-refines (cancel ∷ es) b c v h = run_events-refines es b true v h

-- How a pop that copies its data comes out, with other threads' events on the way.
pub data PopResult (requested : ℕ) (c : Bool) (wakes : List (List Event)) (b : Buffer)
    : Outcome Popped → Type 0 where
  popped :
      (es rest : List Event) (p : Popped)
      → concat_events wakes ≡ es ++ rest
      → p.count ≡ min requested (length (enqueue_all es (view b)).bytes)
      → p.count ≡ length p.out
      → p.out ++ contents p.buffer ≡ (enqueue_all es (view b)).bytes
      → p.buffer.reached_eof ≡ (enqueue_all es (view b)).closed
      → (p.count ≡ requested) ⊎ ((p.buffer.reached_eof ≡ true) ⊎ ((run_events es b c).1 ≡ true))
      → IsValid p.buffer
      → PopResult requested c wakes b (ok p)
  past_chunk :
      (es rest : List Event) (n : ℕ)
      → concat_events wakes ≡ es ++ rest
      → n ≡ min requested (length (enqueue_all es (view b)).bytes)
      → (n ≡ requested)
        ⊎ (((run_events es b c).0.reached_eof ≡ true) ⊎ ((run_events es b c).1 ≡ true))
      → InGap (run_events es b c).0.head (run_events es b c).0.head_read_offset n
      → PopResult requested c wakes b overrun
  waits :
      (enqueue_all (concat_events wakes) (view b)).closed ≡ false
      → length (enqueue_all (concat_events wakes) (view b)).bytes < requested
      → PopResult requested c wakes b blocked

pub InGap-cases : (cs : List Text) (o n : ℕ) → InGap cs o n ⊎ ¬ (InGap cs o n)
InGap-cases [] o n = inr (λ h. h)
InGap-cases (c ∷ cs) o n = elim (Bool-cases (leb (o + n) (length c))) [
  | inl inside ↦ inr (λ h. omega (arith, leb→le (o + n) (length c) inside))
  | inr past ↦ elim (Bool-cases (leb (length c) n)) [
    | inl whole ↦ inr (λ h. omega (arith, leb→le (length c) n whole))
    | inr part ↦ inl (leb→gt (o + n) (length c) past, leb→gt (length c) n part)
  ]
]

module _ (requested : ℕ) (c : Bool) (wakes : List (List Event)) (b : Buffer) (v : IsValid b)
    (proper : AllProper (concat_events wakes) b.total_length) where
  PopResult-take :
      (es rest : List Event) (n : ℕ) (eof : Bool)
      → concat_events wakes ≡ es ++ rest
      → n ≡ min requested (run_events es b c).0.total_length
      → (n ≡ requested)
        ⊎ (((run_events es b c).0.reached_eof ≡ true) ⊎ ((run_events es b c).1 ≡ true))
      → PopResult requested c wakes b (
          take_out true n (run_events es b c).0 >>= λ t.
          ok (record { eof = eof; count = n; out = t.0; buffer = t.1 }))
  unfolding view
  PopResult-take es rest n eof split count why =
      let b' = (run_events es b c).0 in
      let (seen, v') =
        run_events-refines es b c v (AllProper-front es rest _ (rw split at proper)) in
      let bytes_seen = ap (λ (q : Queue). q.bytes) seen in
      elim (InGap-cases (run_events es b c).0.head (run_events es b c).0.head_read_offset n) [
        | inl gap ↦
            rw (take_out-InGap n (run_events es b c).0 v' gap).0
              (past_chunk es rest n split (omega (arith, ap length bytes_seen, v'.counted)) why gap)
        | inr safe ↦
            let (b'', run, rest_left, same_eof, v'') =
              take_out-refines true n (run_events es b c).0 v' (omega arith) safe in
            rw run (
              popped es rest
                (record { eof = eof; count = n; out = take n (contents b'); buffer = b'' }) split
                (omega (arith, ap length bytes_seen, v'.counted))
                (omega (arith, length-take n (contents b'), v'.counted))
                (ap (λ t. take n (contents b') ++ t) rest_left
                  ∙ take-append-drop n (contents b')
                  ∙ bytes_seen)
                (same_eof ∙ ap (λ (q : Queue). q.closed) seen) (rw same_eof why) v'')
      ]

  PopResult-of :
      (eof : Bool) {x : Outcome (ℕ × Buffer)}
      → Waited wakes requested b c x
      → PopResult requested c wakes b (
          x >>= λ s. take_out true s.0 s.1 >>= λ t.
          ok (record { eof = eof; count = s.0; out = t.0; buffer = t.1 }))
  unfolding view
  PopResult-of eof (ended es rest n b' split same count why) =
      rw same (PopResult-take es rest n eof split (rw same at count) (rw same at why))
  PopResult-of eof (stuck live opened few) =
      let (seen, v') = run_events-refines (concat_events wakes) b c v proper in
      waits (sym (ap (λ (q : Queue). q.closed) seen) ∙ opened)
        (rw (← ap (λ (q : Queue). q.bytes) seen) (omega (arith, v'.counted)))

-- On a valid buffer, with the other threads' pushes proper, a pop that copies its data comes out in
-- one of three ways, whatever the schedule. It returns the bytes at the front of the queue of what
-- was pushed, in order, leaves the others, and leaves the buffer valid; it returns fewer than
-- requested only at the end, or if it is cancelled. Or it waits, when the end is not marked and less
-- than the request has been pushed. Or it overruns the first chunk, what it would return, which is as
-- much as there is up to the request, lying in the gap.
pub pop_data-PopResult :
    (requested : ℕ) (c : Bool) (wakes : List (List Event)) (b : Buffer)
    → IsValid b
    → AllProper (concat_events wakes) b.total_length
    → PopResult requested c wakes b (pop_data true requested c wakes b)
unfolding pop_data
pop_data-PopResult requested c wakes b v proper =
    PopResult-of requested c wakes b v proper (b.reached_eof && leb b.total_length requested)
      (return_length-Waited wakes requested b c)
