-- ===== src/Batch.antt =====
-- gdata/gdata-batch-operation.c: the table of a batch's operations, and their callbacks. An entry is
-- of the type `E`; a callback with its user data is of the type `K`. The hash table is a function of
-- the operation's id. A call of a callback is entered in a log, and a callback that waits for the
-- main loop is its operation's id in a queue.
pub mod Adding
pub mod Calls
pub mod Total
pub mod Feed
pub mod Run
use libgdata.Base.{
  ℕ, Bool, true, false, ◌&&◌, not, Option, none, some, List, [], ◌∷◌, ◌++◌, Text, ◌==◌, ltb,
  if◌then◌else◌,
}
use libgdata.Base.Word.{add32}
use libgdata.Service.Errors.{ServiceError}

pub data OperationType : Type 0 where
  query : OperationType
  insertion : OperationType
  update : OperationType
  deletion : OperationType

-- `BatchOperation`, but for the type of the entry that a query makes.
pub record Operation (E K : Type 0) : Type 0 where
  pub id : ℕ
  pub type : OperationType
  pub callback : Option K
  pub query_id : Option Text
  pub entry : Option E
  pub error : Option ServiceError

pub record Call (E K : Type 0) : Type 0 where
  pub callback : K
  pub id : ℕ
  pub type : OperationType
  pub entry : Option E
  pub error : Option ServiceError

pub record Batch (E K : Type 0) : Type 0 where
  pub operations : ℕ → Option (Operation E K)
  pub next_id : ℕ
  pub has_run : Bool
  pub is_async : Bool
  pub calls : List (Call E K)
  pub idle : List ℕ

module _ {E K : Type 0} where
  -- `gdata_batch_operation_init`
  unfoldable pub init : Batch E K
  init = record {
    operations = λ id. none;
    next_id = 1;
    has_run = false;
    is_async = false;
    calls = [];
    idle = [];
  }

  -- `g_hash_table_insert`
  unfoldable pub insert : Batch E K → Operation E K → Batch E K
  insert self op = record self {
    operations = λ id. if id == op.id then some op else self.operations id;
  }

  -- `add_operation`
  unfoldable pub add_operation : Batch E K → OperationType → E → Option K → Batch E K × ℕ
  unfolding insert
  add_operation self type entry callback = (
    insert (record self { next_id = add32 self.next_id 1 })
        (record {
          id = self.next_id;
          type = type;
          callback = callback;
          query_id = none;
          entry = some entry;
          error = none;
        }),
    self.next_id,
  )

  -- `gdata_batch_operation_add_query`
  unfoldable pub add_query : Batch E K → Text → Option K → Batch E K × ℕ
  unfolding insert
  add_query self query_id callback = if self.has_run then (self, 0) else (
    insert (record self { next_id = add32 self.next_id 1 })
        (record {
          id = self.next_id;
          type = query;
          callback = callback;
          query_id = some query_id;
          entry = none;
          error = none;
        }),
    self.next_id,
  )

  unfoldable pub add_insertion : Batch E K → E → Option K → Batch E K × ℕ
  unfolding add_operation
  add_insertion self entry callback =
      if self.has_run then (self, 0) else add_operation self insertion entry callback

  unfoldable pub add_update : Batch E K → E → Option K → Batch E K × ℕ
  unfolding add_operation
  add_update self entry callback =
      if self.has_run then (self, 0) else add_operation self update entry callback

  unfoldable pub add_deletion : Batch E K → E → Option K → Batch E K × ℕ
  unfolding add_operation
  add_deletion self entry callback =
      if self.has_run then (self, 0) else add_operation self deletion entry callback

  -- `_gdata_batch_operation_get_operation`
  unfoldable pub get_operation : Batch E K → ℕ → Option (Operation E K)
  get_operation self id = if ltb 0 id then self.operations id else none

  -- `run_callback_cb`
  unfoldable pub run_callback_cb : Batch E K → Operation E K → Batch E K
  unfolding insert
  run_callback_cb self op = elim op.callback [
    | none ↦ self
    | some k ↦
        insert
          (record self {
            calls =
                self.calls
                ++ record {
                  callback = k;
                  id = op.id;
                  type = op.type;
                  entry = op.entry;
                  error = op.error;
                }
                  ∷ [];
          })
          (record op { callback = none })
  ]

  -- The end of `_gdata_batch_operation_run_callback`, by the callback and by `is_async`: nothing, or
  -- the callback from the main loop, or at once.
  unfoldable pub dispatch_to : Option K → Bool → Batch E K → Operation E K → Batch E K
  dispatch_to none is_async self op = self
  dispatch_to (some k) true self op = record self { idle = self.idle ++ op.id ∷ [] }
  dispatch_to (some k) false self op = run_callback_cb self op

  unfoldable pub dispatch : Batch E K → Operation E K → Batch E K
  unfolding dispatch_to
  dispatch self op = dispatch_to op.callback self.is_async self op

  -- `_gdata_batch_operation_run_callback` for an operation of the table.
  unfoldable pub run_callback :
      Batch E K → Operation E K → Option E → Option ServiceError → Batch E K
  unfolding insert dispatch
  run_callback self op (some e) (some error) = self
  run_callback self op entry error =
      let op' = record op { query_id = none; entry = entry; error = error } in
      dispatch (insert self op') op'
