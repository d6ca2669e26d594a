-- ===== src/Tests/BatchRun.antt =====
-- The theorems on `gdata_batch_operation_run` of gdata/gdata-batch-operation.c at a concrete batch.
use libgdata.Base.{ℕ, ◌≡◌, refl, arith, false, none, some, [], ◌∷◌, Text, codes, inl, inr}
use libgdata.Service.Errors.{code, is_ok, protocol_error}
use libgdata.Service.{
  send_message, actually_send_message, send_or_cancel, set_cancelled, send_refreshed,
}
use libgdata.Batch.{Batch}
use libgdata.Batch.Calls.{calls_of}
use libgdata.Batch.Total.{total}
use libgdata.Batch.Feed.{Library}
use libgdata.Batch.Run.{Result, run, build_feed}
use libgdata.Batch.Run.Once.{IsCovered, RunCalls, run-CallsAll, run-failed}
use libgdata.Tests.Batch.{started, table-keyed}
use libgdata.Tests.Service.{server, fresh, answered_with}

-- The server answers every message with the status 404.
abbrev library : Library Text ℕ
library = record {
  order = 1 ∷ [];
  strtoul = λ t. 0;
  status_of = code;
  is_successful = is_ok;
  new_entry = λ query_id. codes "new";
  around = λ feed. server (λ n m. answered_with 404 none);
  read_document = λ t. inl [];
  read_entry = λ op node. inr (protocol_error (codes "no entry"));
  parse_feed_node = λ node. none;
  post_parse = λ nodes. none;
}

-- The batch with one query and its callback, before it has run.
abbrev waiting_batch : Batch Text ℕ
waiting_batch = record started { has_run = false; is_async = false }

waiting_batch-IsCovered : IsCovered library waiting_batch
waiting_batch-IsCovered id op h = inl (ground arith)

run-CallsAll_example : RunCalls library waiting_batch (run library fresh waiting_batch)
run-CallsAll_example =
    run-CallsAll library fresh waiting_batch table-keyed refl waiting_batch-IsCovered refl

not_found_sent :
    send_message (library.around (build_feed library library.order waiting_batch)) fresh
    ≡ some (code 404, record fresh { status = code 404; reason = codes "reason"; sends = 1 })
unfolding send_message actually_send_message send_or_cancel set_cancelled send_refreshed
not_found_sent = refl

run-failed_example :
    (r : Result Text ℕ) × (run library fresh waiting_batch ≡ some r)
    × (r.success ≡ false)
    × ((id : ℕ) → calls_of id r.batch.calls ≡ total id waiting_batch)
run-failed_example =
    run-failed library fresh waiting_batch (code 404)
      (record fresh { status = code 404; reason = codes "reason"; sends = 1 }) table-keyed refl
      waiting_batch-IsCovered refl not_found_sent refl
