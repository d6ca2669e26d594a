-- ===== src/Buffer/Push.antt =====
-- `gdata_buffer_push_data` of gdata/gdata-buffer.c: on every branch, what it adds to the contents,
-- and that it keeps the invariant.
use libgdata.Base.{
  ℕ, ◌+◌, ◌≤◌, ◌<◌, ◌≡◌, refl, Bool, true, false, not, ◌&&◌, Option, none, some, List, [], ◌∷◌,
  ◌++◌, append-nil, Text, length, length-append, length-take, arith, ◌==◌, ap, sym, if◌then◌else◌,
  Bool-cases, inl, inr,
}
use libgdata.Base.Word.{u64, add64}
use libgdata.Buffer.{Buffer, Pushed, push_data, block, is_null, is_nil, new, link}
use libgdata.Buffer.Contents.{contents, unread, unread-append, IsValid, OffsetFits}

-- The caller's promise: `data` has `length` bytes, and so has the memory of the new chunk.
pub record IsProper (p : Pushed) : Type 0 where
  pub sized : p.size ≤ length (block p.bytes p.memory p.size)

pub length-block :
    (o : Option Text) (m : Text) (n : ℕ) → n ≤ length (block o m n) → length (block o m n) ≡ n
length-block none m n h = omega (arith, length-take n m)
length-block (some t) m n h = omega (arith, length-take n t)

pub new-IsValid : IsValid new
unfolding new
new-IsValid = record { within = refl; counted = refl; tailed = refl; fits = omega arith }

contents-push :
    (head : List Text) (offset : ℕ) (c : Text)
    → OffsetFits head offset
    → unread (link (not (is_nil head)) head c) offset ≡ unread head offset ++ c
contents-push [] offset c h = rw (h, append-nil)
contents-push (d ∷ ds) offset c h = unread-append d ds offset c

OffsetFits-link :
    (head : List Text) (offset : ℕ) (c : Text)
    → OffsetFits head offset
    → OffsetFits (link (not (is_nil head)) head c) offset
OffsetFits-link [] offset c h = omega arith
OffsetFits-link (d ∷ ds) offset c h = h

not-is_nil-link : (t : Bool) (head : List Text) (c : Text) → not (is_nil (link t head c)) ≡ true
not-is_nil-link false head c = refl
not-is_nil-link true [] c = refl
not-is_nil-link true (d ∷ ds) c = refl

-- The chunk that a push links in, on the branch that takes it.
module _ (b : Buffer) (p : Pushed) (v : IsValid b) (proper : IsProper p) where
  linked : Buffer
  linked = record b {
    head = link b.tail b.head (block p.bytes p.memory p.size);
    tail = true;
    total_length = add64 b.total_length p.size;
  }

  contents-linked : contents linked ≡ contents b ++ block p.bytes p.memory p.size
  unfolding linked
  contents-linked =
      rw v.tailed (contents-push b.head b.head_read_offset (block p.bytes p.memory p.size) v.within)

  linked-IsValid : b.total_length + p.size < u64 → IsValid linked
  unfolding linked
  linked-IsValid small = record {
    within =
        rw v.tailed
          (OffsetFits-link b.head b.head_read_offset (block p.bytes p.memory p.size) v.within);
    counted = omega (
      arith,
      ap length contents-linked,
      length-append (contents b) (block p.bytes p.memory p.size),
      v.counted,
      length-block p.bytes p.memory p.size proper.sized,
    );
    tailed = sym (not-is_nil-link b.tail b.head (block p.bytes p.memory p.size));
    fits = omega arith;
  }

-- The invariant does not speak of the EOF flag.
pub IsValid-eof : (b : Buffer) (eof : Bool) → IsValid b → IsValid (record b { reached_eof = eof })
IsValid-eof b eof v = record {
  within = v.within;
  counted = v.counted;
  tailed = v.tailed;
  fits = v.fits;
}

-- The buffer as a queue of bytes that can be closed.
pub record Queue : Type 0 where
  pub bytes : Text
  pub closed : Bool

unfoldable pub view : Buffer → Queue
view b = record { bytes = contents b; closed = b.reached_eof }

-- What a push promises: nothing after the end; no data at all marks the end; else the bytes go last.
unfoldable pub enqueue : Queue → Pushed → Queue × Bool
enqueue q p =
    if q.closed
    then (q, false)
    else if is_null p.bytes && (p.size == 0)
    then (record q { closed = true }, false)
    else (record q { bytes = q.bytes ++ block p.bytes p.memory p.size }, true)

-- From a valid buffer, with the caller's `length` bytes given and a total below 2^64, a push does
-- to the queue of unread bytes what `enqueue` does, returns the same answer, and leaves the buffer
-- valid.
pub push_data-refines :
    (b : Buffer) (p : Pushed)
    → IsValid b
    → IsProper p
    → b.total_length + p.size < u64
    → (view (push_data b p).0 ≡ (enqueue (view b) p).0)
      × ((push_data b p).1 ≡ (enqueue (view b) p).1)
      × IsValid (push_data b p).0
unfolding push_data view enqueue linked
push_data-refines b p v proper small = elim (Bool-cases b.reached_eof) [
  | inl closed ↦ rw closed (refl, refl, IsValid-eof b true v)
  | inr opened ↦ elim (Bool-cases (is_null p.bytes && (p.size == 0))) [
    | inl mark ↦ rw (opened, mark) (refl, refl, IsValid-eof b true v)
    | inr data' ↦
        rw (opened, data')
          (
            λ i. record { bytes = contents-linked b p v proper i; closed = false },
            refl,
            IsValid-eof (linked b p v proper) false (linked-IsValid b p v proper small),
          )
  ]
]
