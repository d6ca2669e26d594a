-- ===== src/Upload/Limited.antt =====
-- `gdata_buffer_pop_data_limited` of gdata/gdata-buffer.c for its caller in
-- gdata/gdata-upload-stream.c: what it hands back, with what other threads do meanwhile.
use libgdata.Base.{
  ℕ, ◌+◌, ◌≤◌, ◌≡◌, ◌≢◌, refl, ap, ◌∙◌, Bool, true, false, ◌&&◌, not, List, [], ◌∷◌, ◌++◌, length,
  min, leb, ◌==◌, Bool-cases, inl, inr, arith, if◌then◌else◌,
}
use libgdata.Buffer.{Buffer, push_data, Outcome, ok, overrun, blocked, take_out}
use libgdata.Buffer.Wait.{
  Event, push, cancel, run_events, Popped, pop_data, return_length, wait_for, wait_once,
  pop_data_limited,
}
use libgdata.Buffer.Contents.{contents, IsValid}
use libgdata.Buffer.Push.{Queue, view}
use libgdata.Buffer.Drain.{InGap}
use libgdata.Buffer.Blocking.{concat_events, run_events-append}
use libgdata.Buffer.Fifo.{
  enqueue_all, AllProper, AllProper-front, AllProper-lt, AllProper-mono, total-push,
  run_events-refines, PopResult, popped, past_chunk, waits, pop_data-PopResult,
}
use libgdata.Buffer.Limited.{pop_data_limited-ne-blocked, le-total-run_events}
use libgdata.Upload.Writing.{happened}
use libgdata.Upload.Returns.{Returns, Returns-bind, Returns-any}

-- How a limited pop of at most `n` bytes comes out, `es` being what other threads do meanwhile, and
-- `first` the part of it in front of the look at how much there is.
pub data LimitedResult (n : ℕ) (first es : List Event) (b : Buffer) : Outcome Popped → Type 0 where
  taken :
      (p : Popped)
      → p.count ≡ min n (length (enqueue_all first (view b)).bytes)
      → p.count ≡ length p.out
      → p.out ++ contents p.buffer ≡ (enqueue_all es (view b)).bytes
      → p.buffer.reached_eof ≡ (enqueue_all es (view b)).closed
      → IsValid p.buffer
      → (p.eof ≡ true → p.count ≡ length (enqueue_all es (view b)).bytes)
      → LimitedResult n first es b (ok p)
  gap :
      (k : ℕ)
      → k ≡ min n (length (enqueue_all first (view b)).bytes)
      → InGap (run_events es b false).0.head (run_events es b false).0.head_read_offset k
      → LimitedResult n first es b overrun
  never : b.total_length ≡ 0 → b.reached_eof ≡ false → LimitedResult n first es b blocked

-- The events of the one wait, if the pop waits.
abbrev pub awaited : List (List Event) → Buffer → List Event
awaited [] b = []
awaited (w ∷ wakes) b = if (b.total_length == 0) && not b.reached_eof then w else []

-- The flag of a cancellation is not a part of the buffer.
run_events_flag :
    (es : List Event) (b : Buffer) (c d : Bool) → (run_events es b c).0 ≡ (run_events es b d).0
unfolding run_events
run_events_flag [] b c d = refl
run_events_flag (push p ∷ es) b c d = run_events_flag es (push_data b p).0 c d
run_events_flag (cancel ∷ es) b c d = refl

run_events-append_flag :
    (es fs : List Event) (b : Buffer)
    → (run_events (es ++ fs) b false).0 ≡ (run_events fs (run_events es b false).0 false).0
run_events-append_flag es fs b =
    ap (λ (t : Buffer × Bool). t.0) (run_events-append es fs b false)
    ∙ run_events_flag fs (run_events es b false).0 (run_events es b false).1 false

left_nil : (es rest : List Event) → concat_events [] ≡ es ++ rest → es ≡ []
unfolding concat_events
left_nil [] rest h = refl
left_nil (e ∷ es) rest h = cc

-- A pop that says that the end is reached has taken every byte.
return_length-eof :
    (r : ℕ) (b : Buffer)
    → Returns
        (λ (s : ℕ × Buffer). (b.reached_eof && leb b.total_length r) ≡ true → s.0 ≡ b.total_length)
        (return_length [] r b false)
unfolding return_length wait_for
return_length-eof r b = ground arith

pop_data-eof :
    (r : ℕ) (b : Buffer)
    → Returns (λ (p : Popped). p.eof ≡ true → p.count ≡ b.total_length) (pop_data true r false [] b)
unfolding pop_data
pop_data-eof r b =
    Returns-bind
      (λ (s : ℕ × Buffer). (b.reached_eof && leb b.total_length r) ≡ true → s.0 ≡ b.total_length)
      (λ (p : Popped). p.eof ≡ true → p.count ≡ b.total_length) (return_length [] r b false) _
      (return_length-eof r b)
      (λ s all.
        Returns-bind (λ t. Unit) (λ (p : Popped). p.eof ≡ true → p.count ≡ b.total_length)
          (take_out true s.0 s.1) _ (Returns-any (take_out true s.0 s.1)) (λ t u. all))

module _ (n k : ℕ) (first es : List Event) (b : Buffer) where
  LimitedResult-PopResult :
      k ≡ min n (length (enqueue_all first (view b)).bytes)
      → k ≤ (run_events es b false).0.total_length
      → IsValid b
      → AllProper es b.total_length
      → {x : Outcome Popped} → PopResult k false [] (run_events es b false).0 x
      → Returns (λ (p : Popped). p.eof ≡ true → p.count ≡ (run_events es b false).0.total_length) x
      → x ≢ blocked
      → LimitedResult n first es b x
  unfolding enqueue_all view run_events
  LimitedResult-PopResult asked there v proper (popped fs rest p split count sized bytes eof why v')
        all goes =
      let (seen, v'') = run_events-refines es b false v proper in
      let none_more = left_nil fs rest split in
      let count' =
        ap (λ t. length (enqueue_all t (view (run_events es b false).0)).bytes) none_more in
      taken p (omega (arith, count', v''.counted)) sized
        (bytes
          ∙ ap (λ t. (enqueue_all t (view (run_events es b false).0)).bytes) none_more
          ∙ ap (λ (q : Queue). q.bytes) seen)
        (eof
          ∙ ap (λ t. (enqueue_all t (view (run_events es b false).0)).closed) none_more
          ∙ ap (λ (q : Queue). q.closed) seen)
        v' (λ last. all last ∙ v''.counted ∙ ap (λ (q : Queue). length q.bytes) seen)
  LimitedResult-PopResult asked there v proper (past_chunk fs rest j split count why g) all goes =
      let (seen, v'') = run_events-refines es b false v proper in
      let none_more = left_nil fs rest split in
      let count' =
        ap (λ t. length (enqueue_all t (view (run_events es b false).0)).bytes) none_more in
      gap j (omega (arith, count', v''.counted)) (rw none_more at g)
  LimitedResult-PopResult asked there v proper (waits open' few) all goes = absurd (goes refl)

-- The events behind a part of the schedule, from where that part leaves the buffer.
AllProper-rest :
    (es fs : List Event) (b : Buffer) (c : Bool)
    → AllProper (es ++ fs) b.total_length
    → AllProper fs (run_events es b c).0.total_length
unfolding run_events
AllProper-rest [] fs b c h = h
AllProper-rest (push p ∷ es) fs b c (proper, later) =
    let small = AllProper-lt (es ++ fs) (b.total_length + p.size) later in
    AllProper-rest es fs (push_data b p).0 c
      (AllProper-mono (es ++ fs) _ _ (total-push b p small) later)
AllProper-rest (cancel ∷ es) fs b c h = AllProper-rest es fs b true h

-- From the state that the one wait leaves.
LimitedResult-settled :
    (n : ℕ) (wakes : List (List Event)) (first between : List Event) (b : Buffer)
    → wait_once wakes b ≡ ok (run_events first b false).0
    → IsValid b
    → AllProper (first ++ between) b.total_length
    → LimitedResult n first (first ++ between) b (pop_data_limited n wakes between b)
unfolding pop_data_limited concat_events view
LimitedResult-settled n wakes first between b waited v proper =
    let es = first ++ between in
    let b' = (run_events first b false).0 in
    let same = run_events-append_flag first between b in
    let proper' = AllProper-rest first between b false proper in
    let (_, v') = run_events-refines es b false v proper in
    let (seen, w) =
      run_events-refines first b false v (AllProper-front first between b.total_length proper) in
    let k = min n b'.total_length in
    let popped = pop_data-PopResult k false [] (run_events es b false).0 v' v'.fits in
    let goes = pop_data_limited-ne-blocked n wakes between b waited proper' in
    let grown = le-total-run_events between b' false proper' in
    rw waited (
      rw (← same) (
        LimitedResult-PopResult n k first es b
          (omega (arith, w.counted, ap (λ (q : Queue). length q.bytes) seen))
          (omega (arith, grown, ap (λ (t : Buffer). t.total_length) same)) v proper popped
          (pop_data-eof k (run_events es b false).0) (rw same (rw waited at goes))))

pop_data_limited-blocked :
    (n : ℕ) (between : List Event) (b : Buffer)
    → ((b.total_length == 0) && not b.reached_eof) ≡ true
    → pop_data_limited n [] between b ≡ blocked
unfolding pop_data_limited wait_once
pop_data_limited-blocked n between b nothing = rw nothing refl

-- On a valid buffer, whatever other threads do before and during the pop, a limited pop hands back
-- bytes from the front of what was pushed, as many as there are when it looks, up to what it may, and
-- leaves the others; or it reads past the first chunk, where that length lies in the gap; or it waits
-- for ever, where there is nothing, no end is marked, and nobody wakes it up.
pub pop_data_limited-LimitedResult :
    (n : ℕ) (wakes : List (List Event)) (between : List Event) (b : Buffer)
    → IsValid b
    → AllProper (happened wakes between b) b.total_length
    → LimitedResult n
        (awaited wakes b)
        (happened wakes between b)
        b
        (pop_data_limited n wakes between b)
unfolding happened wait_once run_events
pop_data_limited-LimitedResult n [] between b v proper =
    elim (Bool-cases ((b.total_length == 0) && not b.reached_eof)) [
      | inl nothing ↦
          rw (pop_data_limited-blocked n between b nothing) (never (ground arith) (ground arith))
      | inr some_bytes ↦ LimitedResult-settled n [] [] between b (rw some_bytes refl) v proper
    ]
pop_data_limited-LimitedResult n (w ∷ wakes) between b v proper =
    elim (Bool-cases ((b.total_length == 0) && not b.reached_eof)) [
      | inl nothing ↦ rw nothing (
          LimitedResult-settled n (w ∷ wakes) w between b (rw nothing refl) v
            (rw nothing at proper))
      | inr some_bytes ↦ rw some_bytes (
          LimitedResult-settled n (w ∷ wakes) [] between b (rw some_bytes refl) v
            (rw some_bytes at proper))
    ]
