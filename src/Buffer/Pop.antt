-- ===== src/Buffer/Pop.antt =====
-- `gdata_buffer_pop_data` of gdata/gdata-buffer.c once the number of bytes is settled: it takes
-- them off the front of the queue, but for the requests at which it reads past a chunk.
use libgdata.Base.{
  ℕ, zero, suc, ◌+◌, ◌≤◌, ◌<◌, ◌≡◌, refl, ap, ◌∙◌, Bool, true, false, not, List, [], ◌∷◌, Text,
  length, take, drop, length-drop, arith, if◌then◌else◌,
}
use libgdata.Base.Word.{sub64}
use libgdata.Buffer.{Buffer, Outcome, ok, overrun, is_nil, drain, take_out}
use libgdata.Buffer.Contents.{contents, unread, OffsetFits, IsValid}
use libgdata.Buffer.Drain.{copied, Drained, drained, InGap, drain-Drained, drain-InGap}

-- The buffer after the code that follows the loop.
rest_of : Buffer → ℕ → List Text → ℕ → Buffer
rest_of b n cs offset = record b {
  head = cs;
  head_read_offset = offset;
  tail = if is_nil cs then false else b.tail;
  total_length = sub64 b.total_length n;
}

take_out_of :
    (w : Bool) (n : ℕ) (b : Buffer) (cs : List Text) (o : ℕ) (out : Text)
    → 0 < n
    → drain w b.head b.head_read_offset n [] ≡ ok (cs, o, out)
    → take_out w n b ≡ ok (out, rest_of b n cs o)
unfolding take_out rest_of
take_out_of w zero b cs o out h e = elim h [ ]
take_out_of w (suc n) b cs o out h e = rw e (ground arith)

-- A chunk that is left keeps the tail pointer, which was set.
tail_kept :
    (b : Buffer) (cs : List Text) (n : ℕ)
    → IsValid b
    → 0 < n
    → n ≤ length (contents b)
    → (if is_nil cs then false else b.tail) ≡ not (is_nil cs)
tail_kept b [] n v h k = refl
tail_kept b (c ∷ cs) n v h k = v.tailed ∙ nonempty b.head b.head_read_offset k
  where
    nonempty : (ds : List Text) (o : ℕ) → n ≤ length (unread ds o) → not (is_nil ds) ≡ true
    nonempty [] o k = absurd (omega arith)
    nonempty (d ∷ ds) o k = refl

rest_of-IsValid :
    (b : Buffer) (n : ℕ) (cs : List Text) (o : ℕ)
    → IsValid b
    → 0 < n
    → n ≤ b.total_length
    → unread cs o ≡ drop n (contents b)
    → OffsetFits cs o
    → IsValid (rest_of b n cs o)
unfolding rest_of
rest_of-IsValid b n cs o v h k rest fits = record {
  within = fits;
  counted = omega (arith, v.counted, v.fits, ap length rest, length-drop n (contents b));
  tailed = tail_kept b cs n v h (omega (arith, v.counted));
  fits = omega arith;
}

-- A pop of `n` bytes, `n` at most the number of unread bytes and no request in the gap of the first
-- chunk, succeeds on a valid buffer: it copies out the first `n` unread bytes (none if the caller
-- passes a NULL `data`), in order, leaves the others unread, keeps the EOF flag, and leaves the
-- buffer valid.
pub take_out-refines :
    (w : Bool) (n : ℕ) (b : Buffer)
    → IsValid b
    → n ≤ b.total_length
    → ¬ (InGap b.head b.head_read_offset n)
    → (b' : Buffer) × (take_out w n b ≡ ok (copied w [] (take n (contents b)), b'))
      × (contents b' ≡ drop n (contents b))
      × (b'.reached_eof ≡ b.reached_eof)
      × IsValid b'
unfolding take_out
take_out-refines true zero b v h safe = (b, refl, refl, refl, v)
take_out-refines false zero b v h safe = (b, refl, refl, refl, v)
take_out-refines w (suc n) b v h safe =
    finished
      (drain-Drained w b.head b.head_read_offset (suc n) [] v.within
        (omega (arith, v.counted, v.fits)) (omega (arith, v.counted)) safe)
      refl
  where
    finished :
        {x : Outcome (List Text × ℕ × Text)}
        → Drained w (contents b) (suc n) [] x
        → drain w b.head b.head_read_offset (suc n) [] ≡ x
        → (b' : Buffer) × (take_out w (suc n) b ≡ ok (copied w [] (take (suc n) (contents b)), b'))
          × (contents b' ≡ drop (suc n) (contents b))
          × (b'.reached_eof ≡ b.reached_eof)
          × IsValid b'
    finished (drained cs o out e rest fits) eq = (
      rest_of b (suc n) cs o,
      take_out_of w (suc n) b cs o out (omega arith) eq
          ∙ ap (λ t. ok (t, rest_of b (suc n) cs o)) e,
      unfold rest_of in rest,
      unfold rest_of in refl,
      rest_of-IsValid b (suc n) cs o v (omega arith) h rest fits,
    )

head-InGap :
    (w : Bool) (cs : List Text) (o n : ℕ) (b : Buffer)
    → InGap cs o n
    → OffsetFits cs o
    → (drain w cs o n [] ≡ (if w then overrun else ok (cs, o + n, [])))
      × (0 < n)
      × ¬ (OffsetFits cs (o + n))
head-InGap w [] o n b h fits = absurd h
head-InGap w (c ∷ cs) o n b h fits = (drain-InGap w c cs o n [] h fits, omega arith, omega arith)

-- A pop of a valid buffer whose request lies in the gap of the first chunk (more than what is left
-- of that chunk, and less than the chunk's whole length) reads past the end of the chunk. If the
-- caller passes a NULL `data`, nothing is read, and the buffer that it leaves is not valid.
pub take_out-InGap :
    (n : ℕ) (b : Buffer)
    → IsValid b
    → InGap b.head b.head_read_offset n
    → (take_out true n b ≡ overrun)
      × ((b' : Buffer) × (take_out false n b ≡ ok ([], b')) × ¬ (IsValid b'))
unfolding take_out
take_out-InGap zero b v h =
    let none_left : 0 < 0 = (head-InGap true b.head b.head_read_offset zero b h v.within).1 in
    absurd (omega arith)
take_out-InGap (suc n) b v h =
    let (read, some_bytes, off) = head-InGap true b.head b.head_read_offset (suc n) b h v.within in
    let (skip, _, _) = head-InGap false b.head b.head_read_offset (suc n) b h v.within in
    (
      rw read (ground arith),
      (
        rest_of b (suc n) b.head (b.head_read_offset + suc n),
        take_out_of false (suc n) b b.head (b.head_read_offset + suc n) [] some_bytes skip,
        λ v'. off (unfold rest_of in v'.within),
      ),
    )
