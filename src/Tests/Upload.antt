-- ===== src/Tests/Upload.antt =====
-- The theorems on gdata/gdata-upload-stream.c at concrete uploads.
use libgdata.Base.{
  ◌≡◌, ◌≢◌, refl, true, false, ◌&&◌, Bool, none, some, List, [], ◌∷◌, codes, arith, leb, inl,
}
use libgdata.Buffer.{Pushed, ok, assertion, ◌>>=◌, push_data, take_out, drain, finish, copy}
use libgdata.Buffer.Wait.{
  push, run_events, pop_data, pop_data_limited, wait_once, return_length, wait_for,
}
use libgdata.Buffer.Contents.{IsValid}
use libgdata.Buffer.Fifo.{AllProper}
use libgdata.Service.Errors.{Status, status_none, code, parse_error_response, upload}
use libgdata.Upload.{Upload, construct, finished}
use libgdata.Upload.Writing.{
  wrote_headers, wrote_body_data, run_callback, run_callbacks, write_next_chunk, happened,
  pushed_bytes,
}
use libgdata.Upload.Thread.{Exchange, read_answer, next_message, upload_thread}
use libgdata.Upload.Returns.{Returns}
use libgdata.Upload.Bounds.{InBounds}
use libgdata.Upload.Ranges.{ExchangesHonest, upload_thread-InBounds, construct-InBounds}
use libgdata.Upload.Count.{IsCounted, AllTimely, write_next_chunk-IsCounted}
use libgdata.Upload.Client.{Snapshot, Closing, write, close}
use libgdata.Upload.Client.Waiting.{WriteOutcome, write-WriteOutcome}
use libgdata.Upload.Client.Settled.{Comes, IsClosed, close-get_response}

abbrev successful : Status → Bool
successful (code n) = leb 200 n && leb n 299
successful _ = false

abbrev three_bytes : Pushed
three_bytes = record { bytes = some (codes "abc"); size = 3; memory = [] }

-- A resumable upload of three bytes, which the client writes while the second message is sent.
abbrev upload_of_three : Upload
upload_of_three = construct (some 3) (codes "u") none (codes "text/plain")

abbrev two_messages : List Exchange
two_messages =
    record { callbacks = wrote_headers [] [] ∷ []; status = code 200; location = some (codes "v") }
    ∷ record {
      callbacks = wrote_headers ((push three_bytes ∷ []) ∷ []) [] ∷ wrote_body_data 3 [] [] ∷ [];
      status = code 201;
      location = none;
    }
    ∷ []

two_messages-ExchangesHonest : ExchangesHonest successful two_messages upload_of_three
unfolding construct run_callbacks run_callback read_answer next_message pop_data_limited wait_once
    run_events push_data pop_data return_length wait_for take_out drain finish copy happened
    pushed_bytes
two_messages-ExchangesHonest = ((tt, tt), ((tt, (omega arith, tt)), tt))

upload_thread-InBounds_example :
    Returns
      (λ v. InBounds 3 v × (v.state ≡ finished))
      (upload_thread successful two_messages upload_of_three)
upload_thread-InBounds_example =
    upload_thread-InBounds 3 (omega arith) successful (omega arith) two_messages upload_of_three
      two_messages-ExchangesHonest (construct-InBounds 3 (codes "u") none (codes "text/plain"))

-- An upload of unknown length, with three bytes in its buffer.
abbrev three_waiting : Upload
three_waiting = record (construct none (codes "u") none (codes "text/plain")) {
  buffer = record {
    head = codes "abc" ∷ [];
    head_read_offset = 0;
    total_length = 3;
    reached_eof = true;
    tail = true;
  };
  message_bytes_outstanding = 3;
}

three_waiting-IsValid : IsValid three_waiting.buffer
three_waiting-IsValid = record {
  within = omega arith;
  counted = refl;
  tailed = refl;
  fits = omega arith;
}

three_waiting-AllProper :
    AllProper (happened [] [] three_waiting.buffer) three_waiting.buffer.total_length
unfolding happened
three_waiting-AllProper = omega arith

three_waiting-AllTimely :
    AllTimely (happened [] [] three_waiting.buffer) three_waiting.buffer.reached_eof
unfolding happened
three_waiting-AllTimely = tt

write_next_chunk-IsCounted_example :
    (write_next_chunk [] [] three_waiting ≢ assertion)
    × Returns IsCounted (write_next_chunk [] [] three_waiting)
write_next_chunk-IsCounted_example =
    write_next_chunk-IsCounted [] [] three_waiting three_waiting-IsValid three_waiting-AllProper
      three_waiting-AllTimely refl

-- Two of the three bytes are written when the client cancels.
abbrev nothing_written : Snapshot
nothing_written = record {
  total_network_bytes_written = 0;
  network_bytes_outstanding = 3;
  is_finished = false;
  is_cancelled = false;
}

abbrev two_written : Snapshot
two_written = record {
  total_network_bytes_written = 2;
  network_bytes_outstanding = 1;
  is_finished = false;
  is_cancelled = true;
}

write-WriteOutcome_example : WriteOutcome 3 0 (nothing_written ∷ two_written ∷ []) (
    write false true upload_of_three three_bytes nothing_written (two_written ∷ []) >>= λ r. ok r.1)
unfolding construct
write-WriteOutcome_example =
    write-WriteOutcome upload_of_three three_bytes nothing_written (two_written ∷ []) (omega arith)
      (omega arith) (omega arith, omega arith, (omega arith, omega arith, tt))

abbrev unfinished : Closing
unfinished = record {
  is_finished = false;
  is_cancelled = false;
  status = status_none;
  reason = [];
  response = none;
}

abbrev rejected : Closing
rejected = record {
  is_finished = true;
  is_cancelled = false;
  status = code 404;
  reason = codes "Not Found";
  response = none;
}

close-get_response_example :
    Comes
      (IsClosed successful
        (parse_error_response upload 404)
        refl
        []
        true
        false
        rejected
        rejected
        none)
      (some rejected)
      (close successful
        (parse_error_response upload 404)
        true
        false
        false
        status_none
        unfinished
        rejected
        (some rejected)
        upload_of_three)
close-get_response_example =
    close-get_response successful (parse_error_response upload 404) refl [] true false rejected
      rejected none false false unfinished rejected (some rejected) upload_of_three
      (inl (refl, refl)) (inl (refl, refl))
