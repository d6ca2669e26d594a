-- ===== src/Buffer/Limited.antt =====
-- `gdata_buffer_pop_data_limited` of gdata/gdata-buffer.c, and the EOF flag that a pop hands back.
use libgdata.Base.{
  or_true, take, drop, ℕ, ◌+◌, ◌≤◌, ◌<◌, ◌≡◌, ◌≢◌, refl, Bool, true, false, ◌&&◌, List, [], ◌∷◌,
  ◌++◌, Text, min, leb, arith, length, lt→ltb,
}
use libgdata.Base.Word.{u64, sub64}
use libgdata.Buffer.{
  Buffer, Pushed, push_data, Outcome, ok, blocked, overrun, assertion, ◌>>=◌, take_out, drain, copy,
  finish,
}
use libgdata.Buffer.Wait.{
  Event, push, cancel, run_events, return_length, wait_for, Popped, pop_data, wait_once,
  pop_data_limited,
}
use libgdata.Buffer.Fifo.{AllProper, AllProper-lt, AllProper-mono, total-push}

le-total-push :
    (b : Buffer) (p : Pushed)
    → b.total_length + p.size < u64
    → b.total_length ≤ (push_data b p).0.total_length
unfolding push_data
le-total-push b p h = ground arith

-- Other threads only add to what can be read.
pub le-total-run_events :
    (es : List Event) (b : Buffer) (c : Bool)
    → AllProper es b.total_length
    → b.total_length ≤ (run_events es b c).0.total_length
unfolding run_events
le-total-run_events [] b c h = omega arith
le-total-run_events (push p ∷ es) b c (proper, later) =
    let small = AllProper-lt es (b.total_length + p.size) later in
    let here = le-total-push b p small in
    let rest =
      le-total-run_events es (push_data b p).0 c
        (AllProper-mono es _ _ (total-push b p small) later) in
    omega arith
le-total-run_events (cancel ∷ es) b c h = le-total-run_events es b true h

-- A pop of what is there does not wait.
pop_data_available :
    (r : ℕ) (b : Buffer)
    → r ≤ b.total_length
    → pop_data true r false [] b ≡ (
        take_out true r b >>= λ t. ok (record {
          eof = b.reached_eof && leb b.total_length r;
          count = r;
          out = t.0;
          buffer = t.1;
        }))
unfolding pop_data return_length
pop_data_available r b h = ground arith

drain-ne-blocked : (w : Bool) (cs : List Text) (o r : ℕ) (out : Text) → drain w cs o r out ≢ blocked
unfolding drain finish copy
drain-ne-blocked w [] o r out = ground arith
drain-ne-blocked true (c ∷ cs) o r out = ground (
  arith,
  drain-ne-blocked true cs 0 (sub64 r (sub64 (length c) o))
      (out ++ take (sub64 (length c) o) (drop o c)),
)
drain-ne-blocked false (c ∷ cs) o r out =
    ground (arith, drain-ne-blocked false cs 0 (sub64 r (sub64 (length c) o)) out)

take_out-ne-blocked : (w : Bool) (n : ℕ) (b : Buffer) → take_out w n b ≢ blocked
unfolding take_out
take_out-ne-blocked w n b = ground (arith, drain-ne-blocked w b.head b.head_read_offset n [])

bind-ne-blocked :
    {A B : Type 0} (m : Outcome A) (f : A → B) → m ≢ blocked → (m >>= λ a. ok (f a)) ≢ blocked
bind-ne-blocked (ok a) f h = cc
bind-ne-blocked overrun f h = cc
bind-ne-blocked assertion f h = cc
bind-ne-blocked blocked f h = absurd (h refl)

wait_once_empty :
    (w : List Event) (wakes : List (List Event)) (b : Buffer)
    → b.total_length ≡ 0
    → b.reached_eof ≡ false
    → wait_once (w ∷ wakes) b ≡ ok (run_events w b false).0
unfolding wait_once
wait_once_empty w wakes b nothing opened = simp (nothing, opened)

-- If the one wait of a limited pop leaves nothing to read, as after a spurious wake-up or an EOF
-- mark, the pop returns 0 bytes at once and does not wait again.
pop_data_limited_nothing :
    (maximum : ℕ) (w : List Event) (wakes : List (List Event)) (b : Buffer)
    → b.total_length ≡ 0
    → b.reached_eof ≡ false
    → (run_events w b false).0.total_length ≡ 0
    → (p : Popped) × (pop_data_limited maximum (w ∷ wakes) [] b ≡ ok p)
      × (p.count ≡ 0)
      × (p.out ≡ [])
unfolding pop_data_limited run_events take_out
pop_data_limited_nothing maximum w wakes b nothing opened still = (
  record {
    eof = (run_events w b false).0.reached_eof && leb (run_events w b false).0.total_length 0;
    count = 0;
    out = [];
    buffer = (run_events w b false).0;
  },
  run,
  refl,
  refl,
)
  where
    run :
        pop_data_limited maximum (w ∷ wakes) [] b
        ≡ ok (record {
          eof = (run_events w b false).0.reached_eof && leb (run_events w b false).0.total_length 0;
          count = 0;
          out = [];
          buffer = (run_events w b false).0;
        })
    run =
        let one_wait = wait_once_empty w wakes b nothing opened in
        let no_bytes : min maximum (run_events w b false).0.total_length ≡ 0 = omega arith in
        rw (one_wait, no_bytes, pop_data_available 0 (run_events w b false).0 (omega arith)) refl

-- A pop that is woken by the EOF mark returns what there is, and says that the end is not reached:
-- the flag that it hands back was read before the wait.
pub pop_data_eof_late :
    (r : ℕ) (w : List Event) (wakes : List (List Event)) (b : Buffer) {out : Text} {b'' : Buffer}
    → b.reached_eof ≡ false
    → b.total_length < r
    → (run_events w b false).0.reached_eof ≡ true
    → take_out true (min r (run_events w b false).0.total_length) (run_events w b false).0
      ≡ ok (out, b'')
    → pop_data true r false (w ∷ wakes) b
      ≡ ok (record {
        eof = false;
        count = min r (run_events w b false).0.total_length;
        out = out;
        buffer = b'';
      })
unfolding pop_data return_length wait_for
pop_data_eof_late r w wakes b {out} {b''} opened few marked taken =
    simp (opened, lt→ltb b.total_length r few, marked, or_true, taken)

-- Once its one wait is over, a limited pop does not wait again, whatever other threads push before
-- it takes the bytes.
pub pop_data_limited-ne-blocked :
    (maximum : ℕ) (wakes : List (List Event)) (between : List Event) (b : Buffer) {b' : Buffer}
    → wait_once wakes b ≡ ok b'
    → AllProper between b'.total_length
    → pop_data_limited maximum wakes between b ≢ blocked
unfolding pop_data_limited
pop_data_limited-ne-blocked maximum wakes between b {b'} waited proper =
    let grown = le-total-run_events between b' false proper in
    let n = min maximum b'.total_length in
    let there = (run_events between b' false).0 in
    rw (waited, pop_data_available n there (omega arith))
      (bind-ne-blocked (take_out true n there)
        (λ t. record {
          eof = there.reached_eof && leb there.total_length n;
          count = n;
          out = t.0;
          buffer = t.1;
        })
        (take_out-ne-blocked true n there))
