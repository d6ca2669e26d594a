-- ===== src/Tests/Batch.antt =====
-- The theorems on gdata/gdata-batch-operation.c at a concrete batch.
use libgdata.Base.{
  ℕ, ◌≤◌, ◌<◌, ◌≡◌, ◌≢◌, refl, true, false, none, some, List, [], ◌∷◌, Text, codes, arith, Option,
  if◌then◌else◌, ◌==◌,
}
use libgdata.Batch.{Batch, Operation, query, get_operation}
use libgdata.Batch.Adding.{Addition, a_query, add, operation_of, IsNumbered, get_operation-add}
use libgdata.Batch.Calls.{Step, result, main_loop, IsOnce, calls_of, run_steps, run_steps-IsOnce}

-- Entries are texts, and callbacks have numbers.
abbrev empty : Batch Text ℕ
empty = record {
  operations = λ id. none;
  next_id = 1;
  has_run = false;
  is_async = false;
  calls = [];
  idle = [];
}

empty-IsNumbered : IsNumbered empty
empty-IsNumbered = record { positive = omega arith; free = λ id above. refl }

abbrev addition : Addition Text
addition = a_query (codes "entry")

get_operation-add_example :
    (0 < (add empty addition (some 7)).1)
    × (get_operation empty (add empty addition (some 7)).1 ≡ none)
    × (get_operation (add empty addition (some 7)).0 (add empty addition (some 7)).1
        ≡ some (operation_of (add empty addition (some 7)).1 addition (some 7)))
    × ((id : ℕ)
        → id ≢ (add empty addition (some 7)).1
        → get_operation (add empty addition (some 7)).0 id ≡ get_operation empty id)
    × IsNumbered (add empty addition (some 7)).0
get_operation-add_example =
    get_operation-add empty addition (some 7) refl empty-IsNumbered (omega arith)

abbrev pub asked : Operation Text ℕ
asked = record {
  id = 1;
  type = query;
  callback = some 7;
  query_id = some (codes "entry");
  entry = none;
  error = none;
}

-- The batch with that operation, as it runs asynchronously.
abbrev pub table : ℕ → Option (Operation Text ℕ)
table id = if id == 1 then some asked else none

abbrev pub started : Batch Text ℕ
started = record {
  operations = table;
  next_id = 2;
  has_run = true;
  is_async = true;
  calls = [];
  idle = [];
}

pub table-keyed : (id : ℕ) (op : Operation Text ℕ) → table id ≡ some op → op.id ≡ id
table-keyed id op h = ground arith

started-IsOnce : IsOnce started
unfolding calls_of
started-IsOnce = record { keyed = table-keyed; once = λ id. ground arith }

-- The result comes in twice before the main loop runs.
abbrev steps : List (Step Text)
steps =
    result 1 (some (codes "entry")) none
    ∷ result 1 (some (codes "entry")) none
    ∷ main_loop
    ∷ main_loop
    ∷ []

run_steps-IsOnce_example :
    ((id : ℕ) → calls_of id (run_steps started steps).calls ≤ 1) × IsOnce (run_steps started steps)
run_steps-IsOnce_example = run_steps-IsOnce started steps started-IsOnce
