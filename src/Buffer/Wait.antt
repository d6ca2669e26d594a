-- ===== src/Buffer/Wait.antt =====
-- gdata/gdata-buffer.c: the pops that wait. While a pop waits on the condition variable other
-- threads push and the cancellation callback may run; a schedule lists, for each wake-up, what
-- they did before the pop took the mutex again. A spurious wake-up is an empty entry.
use libgdata.Base.{
  ℕ, Bool, true, false, ◌&&◌, ◌||◌, not, List, [], ◌∷◌, Text, leb, ltb, ◌==◌, if◌then◌else◌, min,
}
use libgdata.Buffer.{Buffer, Pushed, push_data, Outcome, ok, blocked, ◌>>=◌, take_out}

-- `cancel` is `pop_cancelled_cb`: it sets the flag under the mutex, and signals.
pub data Event : Type 0 where
  push : Pushed → Event
  cancel : Event

unfoldable pub run_events : List Event → Buffer → Bool → Buffer × Bool
run_events [] b cancelled = (b, cancelled)
run_events (push p ∷ es) b cancelled = run_events es (push_data b p).0 cancelled
run_events (cancel ∷ es) b cancelled = run_events es b true

-- `while (length_requested > self->total_length)`; a pop that is cancelled does not wait again.
unfoldable pub wait_for : List (List Event) → ℕ → Buffer → Bool → Outcome (ℕ × Buffer)
wait_for wakes requested b true =
    if ltb b.total_length requested then ok (min requested b.total_length, b) else ok (requested, b)
wait_for [] requested b false = if ltb b.total_length requested then blocked else ok (requested, b)
wait_for (w ∷ wakes) requested b false =
    let b' = (run_events w b false).0 in
    let cancelled' = (run_events w b false).1 in
    let again = wait_for wakes requested b' cancelled' in
    if ltb b.total_length requested
    then if cancelled' || b'.reached_eof then ok (min requested b'.total_length, b') else again
    else ok (requested, b)

-- How many bytes the pop returns, and the buffer at that time.
unfoldable pub return_length : List (List Event) → ℕ → Buffer → Bool → Outcome (ℕ × Buffer)
return_length wakes requested b cancelled =
    if b.reached_eof && ltb b.total_length requested
    then ok (b.total_length, b)
    else if ltb b.total_length requested
    then wait_for wakes requested b cancelled
    else ok (requested, b)

-- What a pop hands back: `*reached_eof`, the number of bytes, the bytes, and the buffer.
pub record Popped : Type 0 where
  pub eof : Bool
  pub count : ℕ
  pub out : Text
  pub buffer : Buffer

-- `gdata_buffer_pop_data`. `cancelled` says whether the cancellable had been cancelled before.
unfoldable pub pop_data : Bool → ℕ → Bool → List (List Event) → Buffer → Outcome Popped
pop_data wanted requested cancelled wakes b = do
  (n, b') ← return_length wakes requested b cancelled
  (out, b'') ← take_out wanted n b'
  ok (record {
    eof = b.reached_eof && leb b.total_length requested;
    count = n;
    out = out;
    buffer = b'';
  })

-- The first part of `gdata_buffer_pop_data_limited`: one wait, if there is nothing to read.
unfoldable pub wait_once : List (List Event) → Buffer → Outcome Buffer
wait_once [] b = if (b.total_length == 0) && not b.reached_eof then blocked else ok b
wait_once (w ∷ wakes) b =
    if (b.total_length == 0) && not b.reached_eof then ok (run_events w b false).0 else ok b

-- `gdata_buffer_pop_data_limited`; `between` is what other threads do after the first part has let
-- go of the mutex and the length has been read, and before the pop takes the mutex.
unfoldable pub pop_data_limited : ℕ → List (List Event) → List Event → Buffer → Outcome Popped
pop_data_limited maximum wakes between b = do
  b' ← wait_once wakes b
  pop_data true (min maximum b'.total_length) false [] (run_events between b' false).0
