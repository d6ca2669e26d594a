-- ===== src/Batch/Run/Once.antt =====
-- `gdata_batch_operation_run` of gdata/gdata-batch-operation.c: how often it has the callbacks called.
use libgdata.Base.{
  ℕ, ◌≡◌, refl, sym, ap, ◌∙◌, Bool, true, false, ◌||◌, Option, none, some, List, [], ◌∷◌, ◌++◌,
  Text, ◌⊎◌, inl, inr, Bool-cases, Option-cases, arith,
}
use libgdata.Service.Errors.{
  Status, ServiceError, parse_error_response, OperationType, is_ok, is_none_status,
  is_cancelled_status,
}
use libgdata.Service.{Exchange, send_message}
use libgdata.Batch.{Operation, Batch, run_callback}
use libgdata.Batch.Calls.{calls_of, waiting}
use libgdata.Batch.Total.{
  IsKeyed, Keeps, Keeps-refl, Keeps-trans, total, run_callback-Keeps, run_callback-waiting,
}
use libgdata.Batch.Feed.{Library, Parse, parsed, refused, crashed, parse_answer}
use libgdata.Batch.Feed.Parsing.{parse_answer-Keeps, ParseKeeps}
use libgdata.Batch.Run.{
  Result, call_failed, fail_all, finish_run, read_body, read_status, start_run, run, build_feed,
  first_error,
}

-- The hash table's iteration comes to an id.
abbrev pub Among : ℕ → List ℕ → Type 0
Among id [] = ⊥
Among id (i ∷ ids) = (id ≡ i) ⊎ Among id ids

module _ {E K : Type 0} (library : Library E K) where
  waiting-le :
      (a b : Batch E K) (id : ℕ)
      → Keeps a b
      → waiting (a.operations id) ≡ 0
      → waiting (b.operations id) ≡ 0
  waiting-le a b id h none_left = omega (arith, h.totals id, h.called id)

  call_failed-Keeps :
      (o : Option (Operation E K)) (error : Option ServiceError) (self : Batch E K) (id : ℕ)
      → self.operations id ≡ o
      → IsKeyed self
      → Keeps self (call_failed library o error self)
  unfolding call_failed
  call_failed-Keeps none error self id found keyed = Keeps-refl self keyed
  call_failed-Keeps (some op) error self id found keyed =
      run_callback-Keeps self op none error (ap self.operations (keyed id op found) ∙ found) keyed

  call_failed-waiting :
      (o : Option (Operation E K)) (error : Option ServiceError) (self : Batch E K) (id : ℕ)
      → self.operations id ≡ o
      → IsKeyed self
      → self.is_async ≡ false
      → waiting ((call_failed library o error self).operations id) ≡ 0
  unfolding call_failed
  call_failed-waiting none error self id found keyed sync = rw found refl
  call_failed-waiting (some op) error self id found keyed sync =
      ap (λ i. waiting ((run_callback self op none error).operations i)) (sym (keyed id op found))
      ∙ run_callback-waiting self op error sync

  fail_all-Keeps :
      (ids : List ℕ) (error : Option ServiceError) (self : Batch E K)
      → IsKeyed self
      → Keeps self (fail_all library ids error self)
  unfolding fail_all
  fail_all-Keeps [] error self keyed = Keeps-refl self keyed
  fail_all-Keeps (id ∷ ids) error self keyed =
      let here = call_failed-Keeps (self.operations id) error self id refl keyed in
      Keeps-trans self _ _ here
        (fail_all-Keeps ids error (call_failed library (self.operations id) error self) here.keyed)

  fail_all-waiting :
      (ids : List ℕ) (error : Option ServiceError) (self : Batch E K) (id : ℕ)
      → IsKeyed self
      → self.is_async ≡ false
      → Among id ids
      → waiting ((fail_all library ids error self).operations id) ≡ 0
  unfolding fail_all
  fail_all-waiting [] error self id keyed sync there = elim there [ ]
  fail_all-waiting (i ∷ ids) error self id keyed sync (inl here) =
      let self' = call_failed library (self.operations i) error self in
      let kept = call_failed-Keeps (self.operations i) error self i refl keyed in
      waiting-le self' _ id (fail_all-Keeps ids error self' kept.keyed) (
        ap (λ j. waiting (self'.operations j)) here
        ∙ call_failed-waiting (self.operations i) error self i refl keyed sync)
  fail_all-waiting (i ∷ ids) error self id keyed sync (inr later) =
      let kept = call_failed-Keeps (self.operations i) error self i refl keyed in
      fail_all-waiting ids error (call_failed library (self.operations i) error self) id kept.keyed
        (kept.async ∙ sync) later

  -- The iteration comes to every operation of the table.
  abbrev pub IsCovered : Batch E K → Type 0
  IsCovered self =
      (id : ℕ) (op : Operation E K) → self.operations id ≡ some op → Among id library.order

  -- The calls of a result: none more or fewer than the callbacks that were set, and none left to wait
  -- for where the run has failed.
  abbrev pub CallsAll : Batch E K → Result E K → Type 0
  CallsAll self r =
      ((id : ℕ) → total id r.batch ≡ total id self)
      × (r.success ≡ false → (id : ℕ) → calls_of id r.batch.calls ≡ total id self)

  abbrev pub RunCalls : Batch E K → Option (Result E K) → Type 0
  RunCalls self none = Unit
  RunCalls self (some r) = CallsAll self r

  -- From the state `b` that a parse leaves.
  fail_all-CallsAll :
      (self b : Batch E K) (error : Option ServiceError)
      → Keeps self b
      → self.is_async ≡ false
      → IsCovered self
      → CallsAll self (record {
        success = false;
        error = error;
        batch = fail_all library library.order error b;
      })
  fail_all-CallsAll self b error h sync covered =
      let later = fail_all-Keeps library.order error b h.keyed in
      let whole = Keeps-trans self b _ h later in
      (
        whole.totals,
        λ failed id.
            let settled : waiting ((fail_all library library.order error b).operations id) ≡ 0 =
              elim (Option-cases (self.operations id)) [
                | inl missing ↦ ap waiting (whole.absent id missing)
                | inr (op, there) ↦
                    fail_all-waiting library.order error b id h.keyed (h.async ∙ sync)
                      (covered id op there)
              ] in
            omega (arith, whole.totals id),
      )

  finish_run-RunCalls :
      (self : Batch E K) (p : Parse (Batch E K))
      → ParseKeeps library self p
      → self.is_async ≡ false
      → IsCovered self
      → RunCalls self (finish_run library p)
  unfolding finish_run
  finish_run-RunCalls self (parsed b) h sync covered = (h.totals, λ failed. cc)
  finish_run-RunCalls self (refused b error) h sync covered =
      fail_all-CallsAll self b (some error) h sync covered
  finish_run-RunCalls self crashed h sync covered = tt

  read_status-RunCalls :
      (number : Status → ℕ) (sent : Option (Status × Exchange)) (self : Batch E K)
      → IsKeyed self
      → self.is_async ≡ false
      → IsCovered self
      → RunCalls self (read_status library number sent self)
  unfolding read_status
  read_status-RunCalls number none self keyed sync covered = tt
  read_status-RunCalls number (some (status, x)) self keyed sync covered =
      elim (Bool-cases (is_ok status)) [
        | inl good ↦ rw good (body x.body)
        | inr bad ↦ elim (Bool-cases (is_none_status status || is_cancelled_status status)) [
          | inl set ↦
              rw (bad, set)
                (fail_all-CallsAll self self (first_error x.errors) (Keeps-refl self keyed) sync
                  covered)
          | inr unset ↦
              rw (bad, unset) (fail_all-CallsAll self self _ (Keeps-refl self keyed) sync covered)
        ]
      ]
    where
      body : (t : Option Text) → RunCalls self (read_body library t self)
      body none = tt
      body (some []) = fail_all-CallsAll self self none (Keeps-refl self keyed) sync covered
      body (some (c ∷ t)) =
          finish_run-RunCalls self (parse_answer library (library.read_document (c ∷ t)) self)
            (parse_answer-Keeps library (library.read_document (c ∷ t)) self keyed) sync covered

  start_run-RunCalls :
      (has_run : Bool) (message : Exchange) (self : Batch E K)
      → IsKeyed self
      → self.is_async ≡ false
      → IsCovered self
      → has_run ≡ false
      → RunCalls self (start_run library has_run message self)
  unfolding start_run
  start_run-RunCalls true message self keyed sync covered first = cc
  start_run-RunCalls false message self keyed sync covered first =
      let around = library.around (build_feed library library.order self) in
      read_status-RunCalls around.number (send_message around message)
        (record self { has_run = true }) keyed sync covered

  -- A synchronous run calls no callback that was not set, and none twice; where it fails, it has
  -- called every callback that was set, exactly once, also where the answer was read in part. Its
  -- operations stand under their ids, and the hash table's iteration comes to each.
  pub run-CallsAll :
      (message : Exchange) (self : Batch E K)
      → IsKeyed self
      → self.is_async ≡ false
      → IsCovered self
      → self.has_run ≡ false
      → RunCalls self (run library message self)
  unfolding run
  run-CallsAll message self keyed sync covered first =
      start_run-RunCalls self.has_run message self keyed sync covered first

  start_run-failed :
      (has_run : Bool) (message : Exchange) (self : Batch E K) (status : Status) (x : Exchange)
      → has_run ≡ false
      → send_message (library.around (build_feed library library.order self)) message
        ≡ some (status, x)
      → is_ok status ≡ false
      → (r : Result E K) × (start_run library has_run message self ≡ some r) × (r.success ≡ false)
  unfolding start_run read_status
  start_run-failed true message self status x first sent bad = cc
  start_run-failed false message self status x first sent bad =
      let number = (library.around (build_feed library library.order self)).number in
      elim (Bool-cases (is_none_status status || is_cancelled_status status)) [
        | inl set ↦ (result (first_error x.errors), rw (sent, bad, set) refl, refl)
        | inr unset ↦ (
          result (
              first_error (
                x.errors
                ++ parse_error_response OperationType.batch (number status) status x.reason x.body
                  ∷ [])),
          rw (sent, bad, unset) refl,
          refl,
        )
      ]
    where
      result : Option ServiceError → Result E K
      result error = record {
        success = false;
        error = error;
        batch = fail_all library library.order error (record self { has_run = true });
      }

  -- Where the status of the answer is not 200, whatever it is, a synchronous run returns, fails, and
  -- has called every callback that was set, exactly once.
  pub run-failed :
      (message : Exchange) (self : Batch E K) (status : Status) (x : Exchange)
      → IsKeyed self
      → self.is_async ≡ false
      → IsCovered self
      → self.has_run ≡ false
      → send_message (library.around (build_feed library library.order self)) message
        ≡ some (status, x)
      → is_ok status ≡ false
      → (r : Result E K) × (run library message self ≡ some r)
        × (r.success ≡ false)
        × ((id : ℕ) → calls_of id r.batch.calls ≡ total id self)
  unfolding run
  run-failed message self status x keyed sync covered first sent bad =
      let (r, returned, failed) =
        start_run-failed self.has_run message self status x first sent bad in
      let calls : CallsAll self r =
        rw returned at (start_run-RunCalls self.has_run message self keyed sync covered first) in
      (r, returned, failed, calls.1 failed)
