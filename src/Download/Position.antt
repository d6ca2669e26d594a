-- ===== src/Download/Position.antt =====
-- Where a stream of gdata/gdata-download-stream.c stands in the content that its network thread
-- downloads: what the buffer holds, with what the thread has yet to push, is the content from the
-- stream's offset on.
use libgdata.Base.{
  ℕ, ◌+◌, ◌-◌, ◌≤◌, ◌≡◌, refl, sym, ap, ◌∙◌, inl, inr, Bool, true, false, ◌&&◌, some, List, [], ◌∷◌,
  ◌++◌, append_assoc, Text, arith, length, take, drop, drop-drop, length-append, take-append_le,
  drop-append_ge, take_all, Bool-cases, ◌==◌,
}
use libgdata.Base.Int.{pos}
use libgdata.Buffer.{Buffer, Pushed, push_data, block, is_null}
use libgdata.Buffer.Wait.{Event, push, cancel, run_events}
use libgdata.Buffer.Contents.{contents, IsValid}
use libgdata.Buffer.Push.{Queue, view, enqueue}
use libgdata.Buffer.Fifo.{
  enqueue_all, AllProper, AllProper-lt, AllProper-mono, AllProper-front, total-push,
  run_events-refines,
}
use libgdata.Buffer.Blocking.{run_events-append}
use libgdata.Download.{Download}

-- `coming` is what the network thread has yet to do.
pub record Positioned (content : Text) (coming : List Event) (o : ℕ) (d : Download) : Type 0 where
  pub buffer : Buffer
  pub runs : d.has_thread ≡ true
  pub has_buffer : d.buffer ≡ some buffer
  pub at_offset : d.offset ≡ pos o
  pub valid : IsValid buffer
  pub proper : AllProper coming buffer.total_length
  pub serves : (enqueue_all coming (view buffer)).bytes ≡ drop o content

pub enqueue_all-append :
    (es fs : List Event) (q : Queue) → enqueue_all (es ++ fs) q ≡ enqueue_all fs (enqueue_all es q)
unfolding enqueue_all
enqueue_all-append [] fs q = refl
enqueue_all-append (push p ∷ es) fs q = enqueue_all-append es fs (enqueue q p).0
enqueue_all-append (cancel ∷ es) fs q = enqueue_all-append es fs q

abbrev with_front : Text → Queue → Queue
with_front t q = record { bytes = t ++ q.bytes; closed = q.closed }

enqueue-with_front :
    (t : Text) (q : Queue) (p : Pushed)
    → (enqueue (with_front t q) p).0 ≡ with_front t (enqueue q p).0
unfolding enqueue
enqueue-with_front t q p = elim (Bool-cases q.closed) [
  | inl closed ↦ rw closed
  | inr opened ↦ elim (Bool-cases (is_null p.bytes && (p.size == 0))) [
    | inl mark ↦ rw (opened, mark)
    | inr some_bytes ↦
        rw (opened, some_bytes)
          (λ i. record {
            bytes = append_assoc t q.bytes (block p.bytes p.memory p.size) i;
            closed = false;
          })
  ]
]

-- What is at the front of a queue stays there.
pub enqueue_all-with_front :
    (t : Text) (es : List Event) (q : Queue)
    → enqueue_all es (with_front t q) ≡ with_front t (enqueue_all es q)
unfolding enqueue_all
enqueue_all-with_front t [] q = refl
enqueue_all-with_front t (push p ∷ es) q =
    rw (enqueue-with_front t q p) (enqueue_all-with_front t es (enqueue q p).0)
enqueue_all-with_front t (cancel ∷ es) q = enqueue_all-with_front t es q

enqueue-closed : (q : Queue) (p : Pushed) → q.closed ≡ true → (enqueue q p).0 ≡ q
unfolding enqueue
enqueue-closed q p h = ground arith

-- Nothing joins a queue that is closed.
pub enqueue_all-closed : (es : List Event) (q : Queue) → q.closed ≡ true → enqueue_all es q ≡ q
unfolding enqueue_all
enqueue_all-closed [] q h = refl
enqueue_all-closed (push p ∷ es) q h =
    ap (enqueue_all es) (enqueue-closed q p h) ∙ enqueue_all-closed es q h
enqueue_all-closed (cancel ∷ es) q h = enqueue_all-closed es q h

-- The pushes that are still to come fit after those that came.
pub AllProper-after :
    (es fs : List Event) (b : Buffer) (c : Bool)
    → AllProper (es ++ fs) b.total_length
    → AllProper fs (run_events es b c).0.total_length
unfolding run_events
AllProper-after [] fs b c h = h
AllProper-after (push p ∷ es) fs b c h = AllProper-after es fs (push_data b p).0 c (
    AllProper-mono (es ++ fs) _ _
      (total-push b p (AllProper-lt (es ++ fs) (b.total_length + p.size) h.1)) h.1)
AllProper-after (cancel ∷ es) fs b c h = AllProper-after es fs b true h

take-front : (s t : Text) → take (length s) (s ++ t) ≡ s
take-front s t = take-append_le (length s) s t (omega arith) ∙ take_all s

drop-front : (s t : Text) → drop (length s) (s ++ t) ≡ t
drop-front s t =
    drop-append_ge (length s) s t (omega arith)
    ∙ ap (λ n. drop n t) (let e : length s - length s ≡ 0 = omega arith in e)

-- The queue `es` makes of a buffer, where `out` has been taken off its front.
module _ (content : Text) (coming : List Event) (o : ℕ) (d : Download)
    (s : Positioned content coming o d) (es more : List Event) (split : coming ≡ es ++ more)
    (b' : Buffer) (out : Text) (bytes : out ++ contents b' ≡ (enqueue_all es (view s.buffer)).bytes)
    (closed : b'.reached_eof ≡ (enqueue_all es (view s.buffer)).closed) where
  queue_left : enqueue_all es (view s.buffer) ≡ with_front out (view b')
  unfolding view
  queue_left = λ i. record { bytes = sym bytes i; closed = sym closed i }

  pub content_left : drop o content ≡ out ++ (enqueue_all more (view b')).bytes
  content_left =
      sym s.serves
      ∙ ap (λ t. (enqueue_all t (view s.buffer)).bytes) split
      ∙ ap (λ (q : Queue). q.bytes) (enqueue_all-append es more (view s.buffer))
      ∙ ap (λ q. (enqueue_all more q).bytes) queue_left
      ∙ ap (λ (q : Queue). q.bytes) (enqueue_all-with_front out more (view b'))

  pub taken : out ≡ take (length out) (drop o content)
  taken = rw content_left (sym (take-front out (enqueue_all more (view b')).bytes))

  pub rest_left : (enqueue_all more (view b')).bytes ≡ drop (o + length out) content
  rest_left =
      sym (drop-front out (enqueue_all more (view b')).bytes)
      ∙ ap (λ t. drop (length out) t) (sym content_left)
      ∙ drop-drop (length out) o content

  pub Positioned-next :
      IsValid b'
      → Positioned content more
          (o + length out)
          (record d { buffer = some b'; offset = pos (o + length out) })
  unfolding view
  Positioned-next v =
      let all = rw split at s.proper in
      let (seen, v0) =
        run_events-refines es s.buffer false s.valid (AllProper-front es more _ all) in
      let less : b'.total_length ≤ (run_events es s.buffer false).0.total_length = omega (
        arith,
        v.counted,
        v0.counted,
        ap (λ (q : Queue). length q.bytes) seen,
        ap length bytes,
        length-append out (contents b'),
      ) in
      record {
        buffer = b';
        runs = s.runs;
        has_buffer = refl;
        at_offset = refl;
        valid = v;
        proper =
            AllProper-mono more b'.total_length (run_events es s.buffer false).0.total_length less
              (AllProper-after es more s.buffer false all);
        serves = rest_left;
      }

-- The events that `es` leaves of a schedule, with those behind it.
pub split_off :
    (es rest later : List Event) {all : List Event}
    → all ≡ es ++ rest
    → all ++ later ≡ es ++ (rest ++ later)
split_off es rest later h = ap (λ t. t ++ later) h ∙ append_assoc es rest later

-- The same stream, with its fields told in another way.
pub Positioned-at :
    {content : Text} {coming : List Event} {k : ℕ} {d : Download} (o : ℕ) (d' : Download)
    → Positioned content coming k d
    → d'.has_thread ≡ d.has_thread
    → d'.buffer ≡ d.buffer
    → d'.offset ≡ pos o
    → k ≡ o
    → Positioned content coming o d'
Positioned-at {content} o d' s runs same place eq = record {
  buffer = s.buffer;
  runs = runs ∙ s.runs;
  has_buffer = same ∙ s.has_buffer;
  at_offset = place;
  valid = s.valid;
  proper = s.proper;
  serves = s.serves ∙ ap (λ n. drop n content) eq;
}

run_events_cancelled : (es : List Event) (b : Buffer) → (run_events es b true).1 ≡ true
unfolding run_events
run_events_cancelled [] b = refl
run_events_cancelled (push p ∷ es) b = run_events_cancelled es (push_data b p).0
run_events_cancelled (cancel ∷ es) b = run_events_cancelled es b

-- A pop that has been cancelled stays so.
pub run_events-cancelled_front :
    (es fs : List Event) (b : Buffer) (c : Bool)
    → (run_events es b c).1 ≡ true
    → (run_events (es ++ fs) b c).1 ≡ true
run_events-cancelled_front es fs b c h =
    ap (λ (t : Buffer × Bool). t.1) (run_events-append es fs b c)
    ∙ ap (λ t. (run_events fs (run_events es b c).0 t).1) h
    ∙ run_events_cancelled fs (run_events es b c).0
