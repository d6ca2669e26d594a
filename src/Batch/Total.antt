-- ===== src/Batch/Total.antt =====
-- How many calls an operation of gdata/gdata-batch-operation.c has had or still waits for: no step
-- changes this number.
use libgdata.Base.{
  Bool, true, false, ℕ, ◌+◌, ◌≤◌, ◌≡◌, refl, ap, ◌∙◌, Option, none, some, List, [], ◌∷◌, ◌++◌, ◌==◌,
  ==_iff, Bool-cases, Option-cases, inl, inr, arith,
}
use libgdata.Service.Errors.{ServiceError}
use libgdata.Batch.{
  Operation, Call, Batch, insert, run_callback_cb, run_callback, dispatch_to, dispatch,
}
use libgdata.Batch.Calls.{calls_of, calls_of-snoc, waiting, insert-keyed, insert-get, finished}

module _ {E K : Type 0} where
  abbrev pub total : ℕ → Batch E K → ℕ
  total id self = calls_of id self.calls + waiting (self.operations id)

  abbrev pub IsKeyed : Batch E K → Type 0
  IsKeyed self = (id : ℕ) (op : Operation E K) → self.operations id ≡ some op → op.id ≡ id

  -- What a step from a keyed table to another keeps.
  pub record Keeps (self self' : Batch E K) : Type 0 where
    pub keyed : IsKeyed self'
    pub totals : (id : ℕ) → total id self' ≡ total id self
    pub called : (id : ℕ) → calls_of id self.calls ≤ calls_of id self'.calls
    pub async : self'.is_async ≡ self.is_async
    pub absent : (id : ℕ) → self.operations id ≡ none → self'.operations id ≡ none

  pub Keeps-refl : (self : Batch E K) → IsKeyed self → Keeps self self
  Keeps-refl self keyed = record {
    keyed = keyed;
    totals = λ id. refl;
    called = λ id. omega arith;
    async = refl;
    absent = λ id h. h;
  }

  pub Keeps-trans : (a b c : Batch E K) → Keeps a b → Keeps b c → Keeps a c
  Keeps-trans a b c h k = record {
    keyed = k.keyed;
    totals = λ id. k.totals id ∙ h.totals id;
    called = λ id. let x = h.called id in let y = k.called id in omega arith;
    async = k.async ∙ h.async;
    absent = λ id none_there. k.absent id (h.absent id none_there);
  }

  -- An operation of the table is replaced by one with the same id and the same callback.
  insert-Keeps :
      (self : Batch E K) (op op' : Operation E K)
      → self.operations op.id ≡ some op
      → op'.id ≡ op.id
      → op'.callback ≡ op.callback
      → IsKeyed self
      → Keeps self (insert self op')
  unfolding insert
  insert-Keeps self op op' there same same_callback keyed = record {
    keyed = insert-keyed self op' keyed;
    totals = λ id. elim (Bool-cases (id == op'.id)) [
      | inl own ↦ rw own (rw ((==_iff id op'.id).0 own ∙ same, there, same_callback) refl)
      | inr other ↦ rw other refl
    ];
    called = λ id. omega arith;
    async = refl;
    absent = λ id h. elim (Bool-cases (id == op'.id)) [
      | inl own ↦
          let found : self.operations id ≡ some op =
            ap self.operations ((==_iff id op'.id).0 own ∙ same) ∙ there in
          cc
      | inr other ↦ rw other h
    ];
  }

  run_callback_cb-Keeps :
      (self : Batch E K) (op : Operation E K)
      → self.operations op.id ≡ some op
      → IsKeyed self
      → Keeps self (run_callback_cb self op)
  unfolding run_callback_cb insert
  run_callback_cb-Keeps self op there keyed = elim (Option-cases op.callback) [
    | inl unset ↦ rw unset (Keeps-refl self keyed)
    | inr (k, set) ↦ rw set (called k set)
  ]
    where
      call : K → Call E K
      call k = record {
        callback = k;
        id = op.id;
        type = op.type;
        entry = op.entry;
        error = op.error;
      }

      called :
          (k : K)
          → op.callback ≡ some k
          → Keeps self (
              insert
                (record self { calls = self.calls ++ call k ∷ [] })
                (record op { callback = none }))
      called k set = record {
        keyed =
            insert-keyed (record self { calls = self.calls ++ call k ∷ [] })
              (record op { callback = none }) keyed;
        totals = λ id. elim (Bool-cases (id == op.id)) [
          | inl own ↦
              rw (calls_of-snoc, own) (rw ((==_iff id op.id).0 own, there, set) (omega arith))
          | inr other ↦ rw (calls_of-snoc, other) (omega arith)
        ];
        called = λ id. rw calls_of-snoc (omega arith);
        async = refl;
        absent = λ id h. elim (Bool-cases (id == op.id)) [
          | inl own ↦
              let found : self.operations id ≡ some op =
                ap self.operations ((==_iff id op.id).0 own) ∙ there in
              cc
          | inr other ↦ rw other h
        ];
      }

  queue-Keeps :
      (self : Batch E K) (ids : List ℕ) → IsKeyed self → Keeps self (record self { idle = ids })
  queue-Keeps self ids keyed = record {
    keyed = keyed;
    totals = λ id. refl;
    called = λ id. omega arith;
    async = refl;
    absent = λ id h. h;
  }

  dispatch_to-Keeps :
      (o : Option K) (is_async : Bool) (self : Batch E K) (op : Operation E K)
      → self.operations op.id ≡ some op
      → IsKeyed self
      → Keeps self (dispatch_to o is_async self op)
  unfolding dispatch_to
  dispatch_to-Keeps none is_async self op there keyed = Keeps-refl self keyed
  dispatch_to-Keeps (some k) true self op there keyed =
      queue-Keeps self (self.idle ++ op.id ∷ []) keyed
  dispatch_to-Keeps (some k) false self op there keyed = run_callback_cb-Keeps self op there keyed

  finished-Keeps :
      (self : Batch E K) (op : Operation E K) (entry : Option E) (error : Option ServiceError)
      → self.operations op.id ≡ some op
      → IsKeyed self
      → Keeps self (dispatch (insert self (finished op entry error)) (finished op entry error))
  unfolding finished dispatch insert
  finished-Keeps self op entry error there keyed =
      let op' = finished op entry error in
      let h = insert-Keeps self op op' there refl refl keyed in
      Keeps-trans self (insert self op') _ h (
        dispatch_to-Keeps op.callback self.is_async (insert self op') op' (insert-get self op')
          h.keyed)

  -- The calls that an operation has had and those that it waits for are the same before and after a
  -- result comes in for it, or for another.
  pub run_callback-Keeps :
      (self : Batch E K) (op : Operation E K) (entry : Option E) (error : Option ServiceError)
      → self.operations op.id ≡ some op
      → IsKeyed self
      → Keeps self (run_callback self op entry error)
  unfolding run_callback finished
  run_callback-Keeps self op (some e) (some error) there keyed = Keeps-refl self keyed
  run_callback-Keeps self op (some e) none there keyed =
      finished-Keeps self op (some e) none there keyed
  run_callback-Keeps self op none error there keyed = finished-Keeps self op none error there keyed

  dispatch_to-waiting :
      (o : Option K) (is_async : Bool) (self : Batch E K) (op : Operation E K)
      → op.callback ≡ o
      → is_async ≡ false
      → waiting ((dispatch_to o is_async (insert self op) op).operations op.id) ≡ 0
  unfolding dispatch_to insert run_callback_cb
  dispatch_to-waiting none is_async self op set sync = rw ((==_iff op.id op.id).1 refl, set) refl
  dispatch_to-waiting (some k) true self op set sync = cc
  dispatch_to-waiting (some k) false self op set sync = rw (set, (==_iff op.id op.id).1 refl) refl

  -- A synchronous result leaves no call to wait for.
  pub run_callback-waiting :
      (self : Batch E K) (op : Operation E K) (error : Option ServiceError)
      → self.is_async ≡ false
      → waiting ((run_callback self op none error).operations op.id) ≡ 0
  unfolding run_callback dispatch insert
  run_callback-waiting self op error sync =
      dispatch_to-waiting op.callback self.is_async self
        (record op { query_id = none; entry = none; error = error }) refl sync
