-- ===== src/Tests/Download.antt =====
-- The theorems on gdata/gdata-download-stream.c at concrete streams.
use libgdata.Base.{
  ◌≡◌, refl, true, false, ◌&&◌, Bool, none, some, List, [], ◌∷◌, ◌++◌, codes, Text, arith, leb,
  Option, ℕ, length, take, drop, ap, ◌∙◌, append-nil, take-append-drop,
}
use libgdata.Base.Int.{ℤ, pos}
use libgdata.Buffer.{Buffer, new, ok, assertion, push_data}
use libgdata.Buffer.Wait.{Event, push, run_events}
use libgdata.Buffer.Blocking.{concat_events}
use libgdata.Buffer.Contents.{IsValid}
use libgdata.Buffer.Fifo.{enqueue_all}
use libgdata.Buffer.Push.{view, enqueue}
use libgdata.Download.{Download, init, ReadContext, read}
use libgdata.Download.Network.{
  NetworkCall, got_headers, got_chunk, chunk, eof_mark, thread_events, range, download_thread,
}
use libgdata.Download.Closing.{CloseContext}
use libgdata.Download.Seeking.{SeekContext, seek_cur, absolute, seek}
use libgdata.Download.Position.{Positioned}
use libgdata.Download.Reading.{ReadResult, read-ReadResult}
use libgdata.Download.Places.{IsStopped, SeekResult}
use libgdata.Download.Places.Backward.{seek-SeekResult}
use libgdata.Download.Ends.{pushes, served, started, IsServing, read_stopped-ReadResult}
use libgdata.Download.Failures.{read_late_end}
use libgdata.Download.Thread.{download_thread-thread_events}
use libgdata.Service.Errors.{Status, code, ServiceError, parse_error_response, download}

abbrev successful : Status → Bool
successful (code n) = leb 200 n && leb n 299
successful _ = false

abbrev failure : Status → Text → ServiceError
failure status reason = parse_error_response download 500 status reason none

abbrev six : Text
six = codes "abcdef"

-- A stream at the place 2 of six bytes, whose buffer holds the next two.
abbrev two_held : Buffer
two_held = record {
  head = codes "cd" ∷ [];
  head_read_offset = 0;
  total_length = 2;
  reached_eof = false;
  tail = true;
}

abbrev at_two : Download
at_two = record {
  has_thread = true;
  buffer = some two_held;
  offset = pos 2;
  finished = false;
  network_cancelled = false;
  content_type = none;
  content_length = some 6;
}

abbrev to_come : List (List Event)
to_come = (push (chunk (codes "ef")) ∷ []) ∷ (push eof_mark ∷ []) ∷ []

two_held-IsValid : IsValid two_held
two_held-IsValid = record {
  within = omega arith;
  counted = refl;
  tailed = refl;
  fits = omega arith;
}

abbrev at_two-Positioned : Positioned six (concat_events to_come ++ []) 2 at_two
unfolding concat_events enqueue_all enqueue view
at_two-Positioned = record {
  buffer = two_held;
  runs = refl;
  has_buffer = refl;
  at_offset = refl;
  valid = two_held-IsValid;
  proper = (record { sized = omega arith }, (record { sized = omega arith }, omega arith));
  serves = refl;
}

abbrev reading : List (List Event) → ReadContext
reading wakes = record {
  cancelled_before = false;
  cancelled_after = false;
  can_create = true;
  wakes = wakes;
  status = code 200;
  reason = [];
}

read-ReadResult_example :
    ReadResult successful failure six [] 2 8
      (reading to_come)
      at_two
      at_two-Positioned
      (read successful failure (reading to_come) 8 at_two)
unfolding concat_events run_events push_data
read-ReadResult_example =
    read-ReadResult successful failure six [] 2 8 (reading to_come) at_two at_two-Positioned
      (λ h. cc) (omega arith)

abbrev closing : CloseContext
closing = record {
  first = record { is_finished = false; is_cancelled = false };
  wake = some (record { is_finished = true; is_cancelled = false });
  last = true;
}

abbrev seeking : List (List Event) → SeekContext
seeking wakes = record {
  is_pending = false;
  cancelled_before = false;
  cancelled_after = false;
  wakes = wakes;
  closing = closing;
}

-- Three bytes on, from the place 2.
seek-SeekResult_example :
    SeekResult six [] 2
      (seeking to_come)
      at_two
      at_two-Positioned
      (absolute seek_cur (pos 3) at_two)
      (seek (seeking to_come) (pos 3) seek_cur at_two)
unfolding concat_events run_events push_data
seek-SeekResult_example =
    seek-SeekResult six [] 2 (seeking to_come) at_two at_two-Positioned (λ h. cc) (pos 3) seek_cur
      refl refl

-- Behind a seek back, the stream is stopped at its target.
abbrev stopped_at_one : Download
stopped_at_one = record init { offset = pos 1 }

stopped_at_one-IsStopped : IsStopped (pos 1) stopped_at_one
unfolding init
stopped_at_one-IsStopped = record {
  no_thread = refl;
  no_buffer = refl;
  at_offset = refl;
  unfinished = refl;
}

abbrev five_served : List NetworkCall
five_served =
    got_headers (code 206) none (some 5)
    ∷ got_chunk (code 206) (codes "bcd")
    ∷ got_chunk (code 206) (codes "ef")
    ∷ []

abbrev five_pushed : List (List Event)
five_pushed =
    (push (chunk (codes "bcd")) ∷ []) ∷ (push (chunk (codes "ef")) ∷ push eof_mark ∷ []) ∷ []

-- What is left of the six bytes, in two chunks; `k` is where it begins.
abbrev rest_served : ℕ → List NetworkCall
rest_served k =
    got_headers (code 206) none (some (length (drop k six)))
    ∷ got_chunk (code 206) (take 3 (drop k six))
    ∷ got_chunk (code 206) (drop 3 (drop k six))
    ∷ []

abbrev six_served : Option ℤ → List NetworkCall
six_served (some (pos k)) = rest_served k
six_served _ = got_chunk (code 200) six ∷ []

six_served-IsServing : IsServing successful six six_served
unfolding served
six_served-IsServing = record {
  whole = refl;
  part = λ k.
      ap (λ t. take 3 (drop k six) ++ t) (append-nil (drop 3 (drop k six)))
      ∙ take-append-drop 3 (drop k six);
}

read_stopped-ReadResult_example :
    (s : Positioned six (concat_events five_pushed ++ []) 1 (started successful stopped_at_one))
    × ReadResult successful failure six [] 1 4
        (reading five_pushed)
        (started successful stopped_at_one)
        s
        (read successful failure (reading five_pushed) 4 stopped_at_one)
unfolding concat_events pushes thread_events range init run_events push_data new
read_stopped-ReadResult_example =
    read_stopped-ReadResult successful failure six 1 4 six_served [] (reading five_pushed)
      stopped_at_one six_served-IsServing stopped_at_one-IsStopped refl (omega arith) refl refl
      (λ h. cc) (omega arith)

-- At the end of the six bytes, before the EOF mark.
abbrev at_six : Download
at_six = record at_two { buffer = some new; offset = pos 6 }

abbrev at_six-Positioned : Positioned six (concat_events ((push eof_mark ∷ []) ∷ []) ++ []) 6 at_six
unfolding concat_events enqueue_all enqueue view new
at_six-Positioned = record {
  buffer = new;
  runs = refl;
  has_buffer = refl;
  at_offset = refl;
  valid = record { within = refl; counted = refl; tailed = refl; fits = omega arith };
  proper = (record { sized = omega arith }, omega arith);
  serves = refl;
}

read_late_end_example :
    read successful failure (reading ((push eof_mark ∷ []) ∷ [])) 4 at_six ≡ assertion
unfolding run_events push_data new at_six-Positioned
read_late_end_example =
    read_late_end successful failure six [] 6 4 (reading ((push eof_mark ∷ []) ∷ [])) at_six
      (push eof_mark ∷ []) [] refl at_six-Positioned refl (omega arith) refl refl refl refl refl

download_thread-thread_events_example :
    (d' : Download) × (download_thread successful five_served (started successful stopped_at_one)
      ≡ ok (some (pos 1), d'))
    × (d'.buffer ≡ some (run_events (thread_events successful five_served) new false).0)
    × (d'.has_thread ≡ true)
    × (d'.offset ≡ pos 1)
    × (d'.finished ≡ true)
download_thread-thread_events_example =
    download_thread-thread_events successful five_served new (started successful stopped_at_one)
      refl

-- The thread of a stream at the place 2 is cancelled, and finishes while the close waits.
abbrev at_two_closed : Download
at_two_closed = record {
  has_thread = false;
  buffer = none;
  offset = pos 0;
  finished = true;
  network_cancelled = false;
  content_type = none;
  content_length = some 6;
}
