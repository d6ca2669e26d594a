-- ===== src/Upload/Count.antt =====
-- The count `message_bytes_outstanding` of gdata/gdata-upload-stream.c: the bytes that have been
-- written to the stream and not yet been handed to libsoup.
use libgdata.Base.{
  ℕ, ◌+◌, ◌<◌, ◌≡◌, ◌≢◌, refl, sym, ap, ◌∙◌, Bool, true, false, ◌&&◌, List, [], ◌∷◌, ◌++◌, Text,
  length, length-append, ◌==◌, Bool-cases, inl, inr, arith,
}
use libgdata.Base.Word.{u64}
use libgdata.Buffer.{Pushed, block, is_null, Outcome, assertion, ◌>>=◌}
use libgdata.Buffer.Wait.{Event, push, cancel, Popped}
use libgdata.Buffer.Contents.{contents, IsValid}
use libgdata.Buffer.Push.{Queue, view, enqueue, length-block}
use libgdata.Buffer.Fifo.{enqueue_all, AllProper}
use libgdata.Upload.{Upload}
use libgdata.Upload.Writing.{
  chunk_full, room, happened, pushed_bytes, append_chunk, finish_body, write_next_chunk,
}
use libgdata.Upload.Returns.{Returns}
use libgdata.Upload.Limited.{LimitedResult, taken, gap, never, pop_data_limited-LimitedResult}
use libgdata.Upload.Chunk.{write_next_chunk-elim}

-- Nothing is pushed behind the EOF mark.
abbrev pub AllTimely : List Event → Bool → Type 0
AllTimely [] closed = Unit
AllTimely (push p ∷ es) true = (p.size ≡ 0) × AllTimely es true
AllTimely (push p ∷ es) false = AllTimely es (is_null p.bytes && (p.size == 0))
AllTimely (cancel ∷ es) closed = AllTimely es closed

size_mark : (p : Pushed) → (is_null p.bytes && (p.size == 0)) ≡ true → p.size ≡ 0
size_mark p mark = ground arith

enqueue_closed :
    (t : Text) (p : Pushed)
    → (enqueue (record { bytes = t; closed = true }) p).0 ≡ record { bytes = t; closed = true }
unfolding enqueue
enqueue_closed t p = refl

enqueue_mark :
    (t : Text) (p : Pushed)
    → (is_null p.bytes && (p.size == 0)) ≡ true
    → (enqueue (record { bytes = t; closed = false }) p).0 ≡ record { bytes = t; closed = true }
unfolding enqueue
enqueue_mark t p mark = rw mark refl

enqueue_data :
    (t : Text) (p : Pushed)
    → (is_null p.bytes && (p.size == 0)) ≡ false
    → (enqueue (record { bytes = t; closed = false }) p).0
      ≡ record { bytes = t ++ block p.bytes p.memory p.size; closed = false }
unfolding enqueue
enqueue_data t p data' = rw data' refl

-- The events add the bytes that they push.
length-enqueue_all :
    (es : List Event) (closed : Bool) (t : Text) (total : ℕ)
    → AllProper es total
    → AllTimely es closed
    → length (enqueue_all es (record { bytes = t; closed = closed })).bytes
      ≡ length t + pushed_bytes es
unfolding enqueue_all pushed_bytes
length-enqueue_all [] closed t total proper timely = omega arith
length-enqueue_all (push p ∷ es) true t total (here, later) (no_bytes, timely) =
    ap (λ (q : Queue). length (enqueue_all es q).bytes) (enqueue_closed t p)
    ∙ let ih = length-enqueue_all es true t (total + p.size) later timely in omega arith
length-enqueue_all (push p ∷ es) false t total (here, later) timely =
    elim (Bool-cases (is_null p.bytes && (p.size == 0))) [
      | inl mark ↦
          let ih = length-enqueue_all es true t (total + p.size) later (rw mark at timely) in
          ap (λ (q : Queue). length (enqueue_all es q).bytes) (enqueue_mark t p mark)
          ∙ omega (arith, size_mark p mark)
      | inr data' ↦
          let ih =
            length-enqueue_all es false (t ++ block p.bytes p.memory p.size) (total + p.size) later
              (rw data' at timely) in
          let sized = length-block p.bytes p.memory p.size here.sized in
          ap (λ (q : Queue). length (enqueue_all es q).bytes) (enqueue_data t p data')
          ∙ omega (arith, length-append t (block p.bytes p.memory p.size))
    ]
length-enqueue_all (cancel ∷ es) closed t total proper timely =
    length-enqueue_all es closed t total proper timely

AllProper-pushed_bytes : (es : List Event) (t : ℕ) → AllProper es t → t + pushed_bytes es < u64
unfolding pushed_bytes
AllProper-pushed_bytes [] t h = omega arith
AllProper-pushed_bytes (push p ∷ es) t (here, later) =
    let ih = AllProper-pushed_bytes es (t + p.size) later in omega arith
AllProper-pushed_bytes (cancel ∷ es) t h = AllProper-pushed_bytes es t h

-- The count is that of the bytes in the buffer.
abbrev pub IsCounted : Upload → Type 0
IsCounted u = u.message_bytes_outstanding ≡ length (contents u.buffer)

-- A step does not fail an assertion, and leaves the count right.
abbrev KeepsCount : Outcome Upload → Type 0
KeepsCount m = (m ≢ assertion) × Returns IsCounted m

finish_body-count :
    (u : Upload) (eof : Bool)
    → (eof ≡ true → u.message_bytes_outstanding ≡ 0)
    → IsCounted u
    → KeepsCount (finish_body u eof)
unfolding finish_body
finish_body-count u true empty counted = rw (empty refl) ((λ h. cc), sym (empty refl) ∙ counted)
finish_body-count u false empty counted = elim (Bool-cases (chunk_full u)) [
  | inl full ↦ rw full ((λ h. cc), counted)
  | inr more ↦ rw more ((λ h. cc), counted)
]

module _ (u : Upload) (es : List Event) (v : IsValid u.buffer)
    (proper : AllProper es u.buffer.total_length) (timely : AllTimely es u.buffer.reached_eof)
    (counted : IsCounted u) where
  append_chunk-count :
      (p : Popped)
      → p.count ≡ length p.out
      → p.out ++ contents p.buffer ≡ (enqueue_all es (view u.buffer)).bytes
      → (p.eof ≡ true → p.count ≡ length (enqueue_all es (view u.buffer)).bytes)
      → KeepsCount (finish_body (append_chunk u es p) p.eof)
  unfolding append_chunk view
  append_chunk-count p sized bytes all =
      let pushed =
        length-enqueue_all es u.buffer.reached_eof (contents u.buffer) u.buffer.total_length proper
          timely in
      let small = AllProper-pushed_bytes es u.buffer.total_length proper in
      let whole = v.counted in
      let split = sym (length-append p.out (contents p.buffer)) ∙ ap (λ t. length t) bytes in
      finish_body-count (append_chunk u es p) p.eof
        (λ last. let taken_all = all last in omega arith) (omega arith)

  KeepsCount-popped :
      {x : Outcome Popped}
      → {first : List Event} → LimitedResult (room u) first es u.buffer x
      → KeepsCount (x >>= λ p. finish_body (append_chunk u es p) p.eof)
  KeepsCount-popped (taken p count sized bytes closed v' all) = append_chunk-count p sized bytes all
  KeepsCount-popped (gap k count g) = ((λ h. cc), tt)
  KeepsCount-popped (never none_left opened) = ((λ h. cc), tt)

-- Where the count of the written bytes is right, every pushed byte is counted and nothing is pushed
-- behind the EOF mark, a call of `write_next_chunk` does not fail its assertion, and leaves the
-- count right.
pub write_next_chunk-IsCounted :
    (wakes : List (List Event)) (between : List Event) (u : Upload)
    → IsValid u.buffer
    → AllProper (happened wakes between u.buffer) u.buffer.total_length
    → AllTimely (happened wakes between u.buffer) u.buffer.reached_eof
    → IsCounted u
    → (write_next_chunk wakes between u ≢ assertion)
      × Returns IsCounted (write_next_chunk wakes between u)
write_next_chunk-IsCounted wakes between u v proper timely counted =
    write_next_chunk-elim KeepsCount wakes between u (λ busy. ((λ h. cc), counted))
      (λ idle full. ((λ h. cc), counted))
      (λ idle asked few.
        KeepsCount-popped u (happened wakes between u.buffer) v proper timely counted
          (pop_data_limited-LimitedResult (room u) wakes between u.buffer v proper))
