-- ===== src/Buffer/Blocking.antt =====
-- The waits of gdata/gdata-buffer.c: what a pop that waits returns, when it goes on waiting, and
-- what `gdata_buffer_pop_data_limited` makes of a wake-up that brings no data.
use libgdata.Base.{
  and_false, ℕ, ◌<◌, ◌≡◌, refl, sym, ap, ◌∙◌, ◌⊎◌, inl, inr, Bool, true, false, ◌||◌, List, [], ◌∷◌,
  ◌++◌, append_assoc, min, ltb, ltb→lt, arith, Bool-cases,
}
use libgdata.Buffer.{Buffer, push_data, Outcome, ok, blocked}
use libgdata.Buffer.Wait.{Event, push, cancel, run_events, wait_for, return_length}

unfoldable pub concat_events : List (List Event) → List Event
concat_events [] = []
concat_events (w ∷ wakes) = w ++ concat_events wakes

pub run_events-append :
    (es fs : List Event) (b : Buffer) (c : Bool)
    → run_events (es ++ fs) b c ≡ run_events fs (run_events es b c).0 (run_events es b c).1
unfolding run_events
run_events-append [] fs b c = refl
run_events-append (push p ∷ es) fs b c = run_events-append es fs (push_data b p).0 c
run_events-append (cancel ∷ es) fs b c = run_events-append es fs b true

-- How a wait for `r` bytes comes out. Either the events `es` of the schedule ended it, and it
-- returns what there is, up to `r` bytes, at least one of these being so: all `r` bytes are there,
-- the end was marked, or the pop was cancelled. Or the schedule ran out, and none of the three is so.
pub data Waited (wakes : List (List Event)) (r : ℕ) (b : Buffer) (c : Bool)
    : Outcome (ℕ × Buffer) → Type 0 where
  ended :
      (es rest : List Event) (n : ℕ) (b' : Buffer)
      → concat_events wakes ≡ es ++ rest
      → b' ≡ (run_events es b c).0
      → n ≡ min r b'.total_length
      → (n ≡ r) ⊎ ((b'.reached_eof ≡ true) ⊎ ((run_events es b c).1 ≡ true))
      → Waited wakes r b c (ok (n, b'))
  stuck :
      (run_events (concat_events wakes) b c).1 ≡ false
      → (run_events (concat_events wakes) b c).0.reached_eof ≡ false
      → (run_events (concat_events wakes) b c).0.total_length < r
      → Waited wakes r b c blocked

-- A wait that goes on after the events `w` of its first wake-up.
Waited-cons :
    (w : List Event) (wakes : List (List Event)) (r : ℕ) (b : Buffer) (c : Bool)
    {x : Outcome (ℕ × Buffer)}
    → Waited wakes r (run_events w b c).0 (run_events w b c).1 x
    → Waited (w ∷ wakes) r b c x
unfolding concat_events
Waited-cons w wakes r b c (ended es rest n b' split same count why) =
    ended (w ++ es) rest n b' (ap (λ t. w ++ t) split ∙ sym (append_assoc w es rest))
      (same ∙ sym (ap (λ (t : Buffer × Bool). t.0) (run_events-append w es b c))) count
      (rw (run_events-append w es b c) why)
Waited-cons w wakes r b c (stuck live opened few) =
    stuck (rw run_events-append live) (rw run_events-append opened) (rw run_events-append few)

either : (x y : Bool) → (x || y) ≡ true → (y ≡ true) ⊎ (x ≡ true)
either x y h = ground arith

neither : (x y : Bool) → (x || y) ≡ false → (x ≡ false) × (y ≡ false)
neither x y h = ground arith

wait_for-Waited :
    (wakes : List (List Event)) (r : ℕ) (b : Buffer) (c : Bool)
    → b.reached_eof ≡ false
    → Waited wakes r b c (wait_for wakes r b c)
unfolding wait_for run_events concat_events
wait_for-Waited wakes r b true opened = elim (Bool-cases (ltb b.total_length r)) [
  | inl few ↦
      rw few
        (ended [] (concat_events wakes) (min r b.total_length) b refl refl refl (inr (inr refl)))
  | inr enough ↦ rw enough (ended [] (concat_events wakes) r b refl refl (ground arith) (inl refl))
]
wait_for-Waited [] r b false opened = elim (Bool-cases (ltb b.total_length r)) [
  | inl few ↦ rw few (stuck refl opened (ltb→lt _ _ few))
  | inr enough ↦ rw enough (ended [] [] r b refl refl (ground arith) (inl refl))
]
wait_for-Waited (w ∷ wakes) r b false opened =
    let (b', c') = run_events w b false in
    elim (Bool-cases (ltb b.total_length r)) [
      | inl few ↦
          elim (Bool-cases ((run_events w b false).1 || (run_events w b false).0.reached_eof)) [
            | inl stop ↦
                rw (few, stop)
                  (ended w (concat_events wakes) (min r (run_events w b false).0.total_length)
                    (run_events w b false).0 refl refl refl (inr (either _ _ stop)))
            | inr go ↦
                rw (few, go)
                  (Waited-cons w wakes r b false (
                    wait_for-Waited wakes r (run_events w b false).0 (run_events w b false).1
                      (neither _ _ go).1))
          ]
      | inr enough ↦
          rw enough (ended [] (concat_events (w ∷ wakes)) r b refl refl (ground arith) (inl refl))
    ]

-- A pop settles on a length for every schedule, or waits for good reason: it returns what there is
-- up to the request, and less than the request only at the end or if it is cancelled; and it still
-- waits only while less is there, the end is not marked, and nobody has cancelled.
pub return_length-Waited :
    (wakes : List (List Event)) (r : ℕ) (b : Buffer) (c : Bool)
    → Waited wakes r b c (return_length wakes r b c)
unfolding return_length run_events
return_length-Waited wakes r b c = elim (Bool-cases (ltb b.total_length r)) [
  | inl few ↦ elim (Bool-cases b.reached_eof) [
    | inl eof ↦
        simp (few, eof)
          (ended [] (concat_events wakes) b.total_length b refl refl
            (omega (arith, ltb→lt b.total_length r few)) (inr (inl eof)))
    | inr opened ↦ simp (few, opened) (wait_for-Waited wakes r b c opened)
  ]
  | inr enough ↦
      rw (enough, and_false b.reached_eof)
        (ended [] (concat_events wakes) r b refl refl (ground arith) (inl refl))
]
