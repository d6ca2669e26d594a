-- ===== src/Batch/Adding.antt =====
-- The calls of gdata/gdata-batch-operation.c that add an operation, and the lookup by its id.
use libgdata.Base.{
  ℕ, ◌+◌, ◌≤◌, ◌<◌, ◌≡◌, ◌≢◌, refl, true, false, Option, none, some, Text, lt→ltb, arith, ne→==,
}
use libgdata.Base.Word.{u32, add32}
use libgdata.Batch.{
  query, insertion, update, deletion, Operation, Batch, insert, add_query, add_insertion,
  add_update, add_deletion, get_operation,
}

-- What is added: one constructor for each call.
pub data Addition (E : Type 0) : Type 0 where
  a_query : Text → Addition E
  an_insertion : E → Addition E
  an_update : E → Addition E
  a_deletion : E → Addition E

module _ {E K : Type 0} where
  unfoldable pub add : Batch E K → Addition E → Option K → Batch E K × ℕ
  add self (a_query id) k = add_query self id k
  add self (an_insertion e) k = add_insertion self e k
  add self (an_update e) k = add_update self e k
  add self (a_deletion e) k = add_deletion self e k

  -- The operation that a lookup of its id gives.
  unfoldable pub operation_of : ℕ → Addition E → Option K → Operation E K
  operation_of id (a_query q) k = record {
    id = id;
    type = query;
    callback = k;
    query_id = some q;
    entry = none;
    error = none;
  }
  operation_of id (an_insertion e) k = record {
    id = id;
    type = insertion;
    callback = k;
    query_id = none;
    entry = some e;
    error = none;
  }
  operation_of id (an_update e) k = record {
    id = id;
    type = update;
    callback = k;
    query_id = none;
    entry = some e;
    error = none;
  }
  operation_of id (a_deletion e) k = record {
    id = id;
    type = deletion;
    callback = k;
    query_id = none;
    entry = some e;
    error = none;
  }

  -- The ids in use are those below the next one.
  pub record IsNumbered (self : Batch E K) : Type 0 where
    pub positive : 0 < self.next_id
    pub free : (id : ℕ) → self.next_id ≤ id → self.operations id ≡ none

  -- The same branch in the four calls.
  added : Batch E K → Operation E K → Batch E K
  added self op = insert (record self { next_id = add32 self.next_id 1 }) op

  add_lem :
      (self : Batch E K) (a : Addition E) (k : Option K)
      → self.has_run ≡ false
      → add self a k ≡ (added self (operation_of self.next_id a k), self.next_id)
  unfolding add operation_of added add_query add_insertion add_update add_deletion
  add_lem self (a_query q) k h = rw h refl
  add_lem self (an_insertion e) k h = rw h refl
  add_lem self (an_update e) k h = rw h refl
  add_lem self (a_deletion e) k h = rw h refl

  id-operation_of : (id : ℕ) (a : Addition E) (k : Option K) → (operation_of id a k).id ≡ id
  unfolding operation_of
  id-operation_of id (a_query q) k = refl
  id-operation_of id (an_insertion e) k = refl
  id-operation_of id (an_update e) k = refl
  id-operation_of id (a_deletion e) k = refl

  -- In a batch that has not run, whose ids are those below the next one and not used up, an addition
  -- returns an id that is not 0 and that no operation had; a lookup of it gives the operation, a
  -- lookup of another id gives what it gave before, and the ids in use are again those below the
  -- next one.
  pub get_operation-add :
      (self : Batch E K) (a : Addition E) (k : Option K)
      → self.has_run ≡ false
      → IsNumbered self
      → self.next_id + 1 < u32
      → (0 < (add self a k).1)
        × (get_operation self (add self a k).1 ≡ none)
        × (get_operation (add self a k).0 (add self a k).1
            ≡ some (operation_of (add self a k).1 a k))
        × ((id : ℕ)
            → id ≢ (add self a k).1
            → get_operation (add self a k).0 id ≡ get_operation self id)
        × IsNumbered (add self a k).0
  unfolding get_operation added insert
  get_operation-add self a k fresh numbered room =
      let op = operation_of self.next_id a k in
      let own = id-operation_of self.next_id a k in
      rw (add_lem self a k fresh) (
        numbered.positive,
        rw (numbered.free self.next_id (omega arith)) (ground arith),
        rw (own, lt→ltb 0 self.next_id numbered.positive) (ground arith),
        λ id other. rw (own, ne→== id self.next_id other) refl,
        record {
          positive = omega arith;
          free = λ id above.
              rw (own, ne→== id self.next_id (λ e. omega arith)) (numbered.free id (omega arith));
        },
      )

  -- Once the batch has run, nothing can be added: each of the four calls returns 0 and changes
  -- nothing.
  add_late :
      (self : Batch E K) (a : Addition E) (k : Option K)
      → self.has_run ≡ true
      → add self a k ≡ (self, 0)
  unfolding add add_query add_insertion add_update add_deletion
  add_late self (a_query q) k h = rw h refl
  add_late self (an_insertion e) k h = rw h refl
  add_late self (an_update e) k h = rw h refl
  add_late self (a_deletion e) k h = rw h refl
