-- ===== src/Batch/Calls.antt =====
-- The callbacks of gdata/gdata-batch-operation.c: in whatever order the results of a batch's
-- operations come in and the main loop runs, how often a callback is called.
use libgdata.Base.{
  Bool, true, false, ℕ, ◌+◌, ◌≤◌, ◌≡◌, refl, ap, ◌∙◌, Option, none, some, List, [], ◌∷◌, ◌++◌, ◌==◌,
  ==_iff, Bool-cases, Option-cases, inl, inr, arith, if◌then◌else◌,
}
use libgdata.Service.Errors.{ServiceError}
use libgdata.Batch.{
  Operation, Call, Batch, insert, run_callback_cb, run_callback, dispatch_to, dispatch,
}

-- The result of an operation arrives, or the main loop runs the first callback that waits.
pub data Step (E : Type 0) : Type 0 where
  result : ℕ → Option E → Option ServiceError → Step E
  main_loop : Step E

-- How often the callback of an operation has been called.
unfoldable pub calls_of : {E K : Type 0} → ℕ → List (Call E K) → ℕ
calls_of id [] = 0
calls_of id (c ∷ cs) = let more = calls_of id cs in if id == c.id then more + 1 else more

module _ {E K : Type 0} where
  -- A result for no operation of the table is left alone.
  unfoldable pub take_result :
      Option (Operation E K) → Option E → Option ServiceError → Batch E K → Batch E K
  take_result none entry error self = self
  take_result (some op) entry error self = run_callback self op entry error

  unfoldable pub run_idle : Option (Operation E K) → Batch E K → Batch E K
  run_idle none self = self
  run_idle (some op) self = run_callback_cb self op

  unfoldable pub take_idle : List ℕ → Batch E K → Batch E K
  unfolding run_idle
  take_idle [] self = self
  take_idle (id ∷ ids) self = run_idle (self.operations id) (record self { idle = ids })

  unfoldable pub run_step : Batch E K → Step E → Batch E K
  unfolding take_result take_idle
  run_step self (result id entry error) = take_result (self.operations id) entry error self
  run_step self main_loop = take_idle self.idle self

  unfoldable pub run_steps : Batch E K → List (Step E) → Batch E K
  run_steps self [] = self
  run_steps self (s ∷ ss) = run_steps (run_step self s) ss

  abbrev pub waiting : Option (Operation E K) → ℕ
  waiting none = 0
  waiting (some op) = elim op.callback [ none ↦ 0 | some k ↦ 1 ]

  -- Each operation stands in the table under its id, and a callback that has been called is unset.
  pub record IsOnce (self : Batch E K) : Type 0 where
    pub keyed : (id : ℕ) (op : Operation E K) → self.operations id ≡ some op → op.id ≡ id
    pub once : (id : ℕ) → calls_of id self.calls + waiting (self.operations id) ≤ 1

  pub calls_of-snoc :
      (id : ℕ) (cs : List (Call E K)) (c : Call E K)
      → calls_of id (cs ++ c ∷ []) ≡ calls_of id cs + (if id == c.id then 1 else 0)
  unfolding calls_of
  calls_of-snoc id [] c = ground arith
  calls_of-snoc id (d ∷ cs) c = ground (arith, calls_of-snoc id cs c)

  pub insert-keyed :
      (self : Batch E K) (op : Operation E K)
      → ((id : ℕ) (o : Operation E K) → self.operations id ≡ some o → o.id ≡ id)
      → (id : ℕ) (o : Operation E K) → (insert self op).operations id ≡ some o
      → o.id ≡ id
  unfolding insert
  insert-keyed self op keyed id o h = elim (Bool-cases (id == op.id)) [
    | inl same ↦ ground (arith)
    | inr other ↦ keyed id o (ground arith)
  ]

  -- An operation of the table is replaced by one that has the same id and the same callback.
  insert-IsOnce :
      (self : Batch E K) (op op' : Operation E K)
      → self.operations op.id ≡ some op
      → op'.id ≡ op.id
      → op'.callback ≡ op.callback
      → IsOnce self
      → IsOnce (insert self op')
  unfolding insert
  insert-IsOnce self op op' there same same_callback h = record {
    keyed = insert-keyed self op' h.keyed;
    once = λ id. elim (Bool-cases (id == op'.id)) [
      | inl own ↦
          rw own (rw ((==_iff id op'.id).0 own ∙ same, same_callback) (rw there at (h.once op.id)))
      | inr other ↦ rw other (h.once id)
    ];
  }

  run_callback_cb-IsOnce :
      (self : Batch E K) (op : Operation E K)
      → self.operations op.id ≡ some op
      → IsOnce self
      → IsOnce (run_callback_cb self op)
  unfolding run_callback_cb
  run_callback_cb-IsOnce self op there h = elim (Option-cases op.callback) [
    | inl unset ↦ rw unset h
    | inr (k, set) ↦ rw set (called k set)
  ]
    where
      call : K → Call E K
      call k = record {
        callback = k;
        id = op.id;
        type = op.type;
        entry = op.entry;
        error = op.error;
      }

      called :
          (k : K)
          → op.callback ≡ some k
          → IsOnce (
              insert
                (record self { calls = self.calls ++ call k ∷ [] })
                (record op { callback = none }))
      called k set = record {
        keyed =
            insert-keyed (record self { calls = self.calls ++ call k ∷ [] })
              (record op { callback = none }) h.keyed;
        once = λ id. elim (Bool-cases (id == op.id)) [
          | inl own ↦ rw calls_of-snoc (
              rw own
                (rw ((==_iff id op.id).0 own) (omega (arith, (rw (there, set) at (h.once op.id))))))
          | inr other ↦ rw (calls_of-snoc, other) (omega (arith, h.once id))
        ];
      }

  queue-IsOnce :
      (self : Batch E K) (ids : List ℕ) → IsOnce self → IsOnce (record self { idle = ids })
  queue-IsOnce self ids h = record { keyed = h.keyed; once = h.once }

  dispatch_to-IsOnce :
      (o : Option K) (is_async : Bool) (self : Batch E K) (op : Operation E K)
      → self.operations op.id ≡ some op
      → IsOnce self
      → IsOnce (dispatch_to o is_async self op)
  unfolding dispatch_to
  dispatch_to-IsOnce none is_async self op there h = h
  dispatch_to-IsOnce (some k) true self op there h = queue-IsOnce self (self.idle ++ op.id ∷ []) h
  dispatch_to-IsOnce (some k) false self op there h = run_callback_cb-IsOnce self op there h

  dispatch-IsOnce :
      (self : Batch E K) (op : Operation E K)
      → self.operations op.id ≡ some op
      → IsOnce self
      → IsOnce (dispatch self op)
  unfolding dispatch
  dispatch-IsOnce self op there h = dispatch_to-IsOnce op.callback self.is_async self op there h

  pub insert-get :
      (self : Batch E K) (op : Operation E K) → (insert self op).operations op.id ≡ some op
  unfolding insert
  insert-get self op = ground arith

  -- What a result makes of its operation.
  unfoldable pub finished : Operation E K → Option E → Option ServiceError → Operation E K
  finished op entry error = record op { query_id = none; entry = entry; error = error }

  finished-IsOnce :
      (self : Batch E K) (op : Operation E K) (entry : Option E) (error : Option ServiceError)
      → self.operations op.id ≡ some op
      → IsOnce self
      → IsOnce (dispatch (insert self (finished op entry error)) (finished op entry error))
  unfolding finished
  finished-IsOnce self op entry error there h =
      dispatch-IsOnce _ (finished op entry error) (insert-get self (finished op entry error))
        (insert-IsOnce self op (finished op entry error) there refl refl h)

  run_callback-IsOnce :
      (self : Batch E K) (op : Operation E K) (entry : Option E) (error : Option ServiceError)
      → self.operations op.id ≡ some op
      → IsOnce self
      → IsOnce (run_callback self op entry error)
  unfolding run_callback finished
  run_callback-IsOnce self op (some e) (some error) there h = h
  run_callback-IsOnce self op (some e) none there h = finished-IsOnce self op (some e) none there h
  run_callback-IsOnce self op none error there h = finished-IsOnce self op none error there h

  take_result-IsOnce :
      (o : Option (Operation E K)) (entry : Option E) (error : Option ServiceError)
      (self : Batch E K) (id : ℕ)
      → self.operations id ≡ o
      → IsOnce self
      → IsOnce (take_result o entry error self)
  unfolding take_result
  take_result-IsOnce none entry error self id found h = h
  take_result-IsOnce (some op) entry error self id found h =
      run_callback-IsOnce self op entry error (ap self.operations (h.keyed id op found) ∙ found) h

  run_idle-IsOnce :
      (o : Option (Operation E K)) (self : Batch E K) (id : ℕ)
      → self.operations id ≡ o
      → IsOnce self
      → IsOnce (run_idle o self)
  unfolding run_idle
  run_idle-IsOnce none self id found h = h
  run_idle-IsOnce (some op) self id found h =
      run_callback_cb-IsOnce self op (ap self.operations (h.keyed id op found) ∙ found) h

  take_idle-IsOnce : (ids : List ℕ) (self : Batch E K) → IsOnce self → IsOnce (take_idle ids self)
  unfolding take_idle
  take_idle-IsOnce [] self h = h
  take_idle-IsOnce (id ∷ ids) self h =
      run_idle-IsOnce (self.operations id) (record self { idle = ids }) id refl
        (queue-IsOnce self ids h)

  run_step-IsOnce : (self : Batch E K) (s : Step E) → IsOnce self → IsOnce (run_step self s)
  unfolding run_step
  run_step-IsOnce self (result id entry error) h =
      take_result-IsOnce (self.operations id) entry error self id refl h
  run_step-IsOnce self main_loop h = take_idle-IsOnce self.idle self h

  -- From a table whose operations stand under their ids, each with its callback set at most where it
  -- has not been called: whatever results come in, in whatever order, and however the main loop runs
  -- between them, no callback is called twice, and this stays so.
  pub run_steps-IsOnce :
      (self : Batch E K) (steps : List (Step E))
      → IsOnce self
      → ((id : ℕ) → calls_of id (run_steps self steps).calls ≤ 1) × IsOnce (run_steps self steps)
  unfolding run_steps
  run_steps-IsOnce self [] h = (λ id. omega (arith, h.once id), h)
  run_steps-IsOnce self (s ∷ steps) h =
      run_steps-IsOnce (run_step self s) steps (run_step-IsOnce self s h)
