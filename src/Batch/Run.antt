-- ===== src/Batch/Run.antt =====
-- `gdata_batch_operation_run` of gdata/gdata-batch-operation.c: the feed that it sends, and the
-- callbacks that it has called where the batch fails.
pub mod Once
use libgdata.Base.{
  ℕ, Bool, true, false, ◌||◌, not, Option, none, some, List, [], ◌∷◌, ◌++◌, Text, if◌then◌else◌,
}
use libgdata.Service.Errors.{
  Status, ServiceError, parse_error_response, is_none_status, is_cancelled_status, is_ok,
  OperationType,
}
use libgdata.Service.{Surroundings, Exchange, send_message}
use libgdata.Batch.{Operation, Batch, run_callback}
use libgdata.Batch.Feed.{FeedEntry, Library, Parse, parsed, refused, crashed, parse_answer}
use libgdata.Batch

-- The answer to a call of `gdata_batch_operation_run`: whether it succeeds, the error that it sets,
-- and the batch.
pub record Result (E K : Type 0) : Type 0 where
  pub success : Bool
  pub error : Option ServiceError
  pub batch : Batch E K

-- `g_set_error` over an error that is set leaves that one.
abbrev pub first_error : List ServiceError → Option ServiceError
first_error [] = none
first_error (e ∷ es) = some e

module _ {E K : Type 0} (library : Library E K) where
  -- The entry that the feed has for an operation: a new one for a query, or its own.
  unfoldable pub feed_entry : Operation E K → List (FeedEntry E)
  feed_entry op = elim op.type [
    | Batch.query ↦
        record { entry = library.new_entry op.query_id; batch_id = op.id; batch_type = op.type }
        ∷ []
    | _ ↦ elim op.entry [
      | none ↦ []
      | some entry ↦ record { entry = entry; batch_id = op.id; batch_type = op.type } ∷ []
    ]
  ]

  unfoldable pub feed_of : Option (Operation E K) → List (FeedEntry E)
  unfolding feed_entry
  feed_of none = []
  feed_of (some op) = feed_entry op

  -- The iteration over the hash table.
  unfoldable pub build_feed : List ℕ → Batch E K → List (FeedEntry E)
  unfolding feed_of
  build_feed [] self = []
  build_feed (id ∷ ids) self = feed_of (self.operations id) ++ build_feed ids self

  unfoldable pub call_failed : Option (Operation E K) → Option ServiceError → Batch E K → Batch E K
  call_failed none error self = self
  call_failed (some op) error self = run_callback self op none error

  -- The iteration behind the label `error`.
  unfoldable pub fail_all : List ℕ → Option ServiceError → Batch E K → Batch E K
  unfolding call_failed
  fail_all [] error self = self
  fail_all (id ∷ ids) error self = fail_all ids error (call_failed (self.operations id) error self)

  abbrev pub failure : Option ServiceError → Batch E K → Option (Result E K)
  failure error self =
      some (record { success = false; error = error; batch = fail_all library.order error self })

  -- The end of a run, by the parse of the answer; `none` is where the program fails.
  unfoldable pub finish_run : Parse (Batch E K) → Option (Result E K)
  unfolding fail_all
  finish_run (parsed self) = some (record { success = true; error = none; batch = self })
  finish_run (refused self error) = failure (some error) self
  finish_run crashed = none

  -- An empty body is refused without an error.
  unfoldable pub read_body : Option Text → Batch E K → Option (Result E K)
  unfolding finish_run fail_all
  read_body none self = none
  read_body (some []) self = failure none self
  read_body (some (c ∷ body)) self =
      finish_run (parse_answer library (library.read_document (c ∷ body)) self)

  -- What is made of the status that `_gdata_service_send_message` returns.
  unfoldable pub read_status :
      (Status → ℕ) → Option (Status × Exchange) → Batch E K → Option (Result E K)
  unfolding fail_all read_body
  read_status number none self = none
  read_status number (some (status, x)) self =
      if is_ok status
      then read_body x.body self
      else if is_none_status status || is_cancelled_status status
      then failure (first_error x.errors) self
      else failure
          (first_error (
            x.errors
            ++ parse_error_response OperationType.batch (number status) status x.reason x.body
              ∷ []))
          self

  -- A run, by `has_run`; `message` is the message that `_gdata_service_build_message` makes.
  unfoldable pub start_run : Bool → Exchange → Batch E K → Option (Result E K)
  unfolding build_feed read_status
  start_run true message self = some (record { success = false; error = none; batch = self })
  start_run false message self =
      let around = library.around (build_feed library.order self) in
      read_status around.number (send_message around message) (record self { has_run = true })

  -- `gdata_batch_operation_run`
  unfoldable pub run : Exchange → Batch E K → Option (Result E K)
  unfolding start_run
  run message self = start_run self.has_run message self

  -- `gdata_batch_operation_run_async`, up to the thread, which makes the call of `run`.
  unfoldable pub start_async : Batch E K → Batch E K
  start_async self = if self.has_run then self else record self { is_async = true }

  -- The part of `gdata_batch_operation_run_finish` for an error: the callbacks are called here where
  -- the thread never made the call.
  unfoldable pub finish_failed : Bool → ServiceError → Batch E K → Batch E K
  unfolding fail_all
  finish_failed true error self = self
  finish_failed false error self =
      record (fail_all library.order (some error) (record self { is_async = false })) {
        is_async = true;
      }

  -- `gdata_batch_operation_run_finish`, by the error and the success that the thread has left.
  unfoldable pub run_finish : Option ServiceError → Bool → Batch E K → Result E K
  unfolding finish_failed
  run_finish none success self = record { success = success; error = none; batch = self }
  run_finish (some error) success self = record {
    success = false;
    error = some error;
    batch = finish_failed self.has_run error self;
  }
