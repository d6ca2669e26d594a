-- ===== src/Tests/Buffer.antt =====
-- The theorems on gdata/gdata-buffer.c at concrete buffers.
use libgdata.Base.{◌≡◌, refl, true, false, none, some, List, [], ◌∷◌, Text, take, drop, arith}
use libgdata.Buffer.{Buffer, Pushed, push_data, ok, overrun, take_out}
use libgdata.Buffer.Wait.{Event, push, pop_data}
use libgdata.Buffer.Contents.{contents, IsValid}
use libgdata.Buffer.Push.{IsProper, view, enqueue, push_data-refines}
use libgdata.Buffer.Drain.{copied}
use libgdata.Buffer.Pop.{take_out-refines, take_out-InGap}
use libgdata.Buffer.Blocking.{concat_events}
use libgdata.Buffer.Fifo.{PopResult, pop_data-PopResult}

abbrev ten : Text
ten = 0 ∷ 1 ∷ 2 ∷ 3 ∷ 4 ∷ 5 ∷ 6 ∷ 7 ∷ 8 ∷ 9 ∷ []

-- Two chunks of ten bytes, of which six bytes have been read.
abbrev two_chunks : Buffer
two_chunks = record {
  head = ten ∷ ten ∷ [];
  head_read_offset = 6;
  total_length = 14;
  reached_eof = false;
  tail = true;
}

two_chunks-IsValid : IsValid two_chunks
two_chunks-IsValid = record {
  within = omega arith;
  counted = refl;
  tailed = refl;
  fits = omega arith;
}

abbrev three : Pushed
three = record { bytes = some (10 ∷ 11 ∷ 12 ∷ []); size = 3; memory = 0 ∷ 0 ∷ 0 ∷ [] }

abbrev eof_mark : Pushed
eof_mark = record { bytes = none; size = 0; memory = [] }

three-IsProper : IsProper three
three-IsProper = record { sized = omega arith }

eof_mark-IsProper : IsProper eof_mark
eof_mark-IsProper = record { sized = omega arith }

push_data-refines_example :
    (view (push_data two_chunks three).0 ≡ (enqueue (view two_chunks) three).0)
    × ((push_data two_chunks three).1 ≡ (enqueue (view two_chunks) three).1)
    × IsValid (push_data two_chunks three).0
push_data-refines_example =
    push_data-refines two_chunks three two_chunks-IsValid three-IsProper (omega arith)

take_out-refines_example :
    (b' : Buffer) × (take_out true 12 two_chunks
      ≡ ok (copied true [] (take 12 (contents two_chunks)), b'))
    × (contents b' ≡ drop 12 (contents two_chunks))
    × (b'.reached_eof ≡ false)
    × IsValid b'
take_out-refines_example =
    take_out-refines true 12 two_chunks two_chunks-IsValid (omega arith) (λ gap. omega arith)

-- Eight bytes: more than the four that are left of the first chunk, and fewer than its ten.
take_out-InGap_example :
    (take_out true 8 two_chunks ≡ overrun)
    × ((b' : Buffer) × (take_out false 8 two_chunks ≡ ok ([], b')) × ¬ (IsValid b'))
take_out-InGap_example = take_out-InGap 8 two_chunks two_chunks-IsValid (omega arith)

abbrev schedule : List (List Event)
schedule = (push three ∷ []) ∷ [] ∷ (push eof_mark ∷ []) ∷ []

pop_data-PopResult_example :
    PopResult 20 false schedule two_chunks (pop_data true 20 false schedule two_chunks)
unfolding concat_events
pop_data-PopResult_example =
    pop_data-PopResult 20 false schedule two_chunks two_chunks-IsValid
      (three-IsProper, (eof_mark-IsProper, omega arith))
