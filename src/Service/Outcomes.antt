-- ===== src/Service/Outcomes.antt =====
-- What the calls of gdata/gdata-service.c that insert and delete an entry come to.
use libgdata.Base.{
  ℕ, ◌≤◌, ◌≡◌, refl, ap, inl, inr, Bool, true, false, ◌||◌, Option, none, some, [], ◌∷◌, ◌++◌, Text,
  codes, arith, Bool-cases, Option-cases,
}
use libgdata.Service.Errors.{
  Status, status_none, status_cancelled, status_cant_resolve, status_cant_resolve_proxy,
  status_cant_connect, status_cant_connect_proxy, status_ssl_failed, status_io_error,
  status_malformed, code, cancelled_error, protocol_error, already_inserted, OperationType,
  insertion, deletion, parse_error_response, is_none_status, is_cancelled_status, is_code,
}
use libgdata.Service.{Surroundings, Exchange, exchange_for, set_error, send_message}
use libgdata.Service.Sending.{IsDocumented, Reported, send_message_lem}
use libgdata.Service.Entries.{
  ServiceState, Request, Entry, Answer, failed, of_parse, read_reply, read_entry, insert_request,
  insert_entry, delete_request, delete_entry,
}

module _ (around : Surroundings) (type : OperationType) (accepts : Status → Bool) where
  -- How a request ends, by the status `s` and the exchange `x` that its message came back with: whether
  -- it is a success, and the exchange that it leaves, with never more than one error. `lost` is a
  -- redirect that names no place.
  pub data ReplyResult (s : Status) (x : Exchange) : Bool → Exchange → Type 0 where
    done : accepts s ≡ true → x.errors ≡ [] → ReplyResult s x true x
    cancelled : s ≡ status_cancelled → x.errors ≡ cancelled_error ∷ [] → ReplyResult s x false x
    lost : s ≡ status_none → x.errors ≡ [] → ReplyResult s x false x
    invalid :
        s ≡ status_none
        → x.errors ≡ protocol_error (codes "Invalid redirect URI: (null)") ∷ []
        → ReplyResult s x false x
    refused :
        (x' : Exchange)
        → accepts s ≡ false
        → is_none_status s ≡ false
        → is_cancelled_status s ≡ false
        → x'.sends ≡ x.sends
        → x'.errors ≡ parse_error_response type (around.number s) s x.reason x.body ∷ []
        → ReplyResult s x false x'

  settled_reply :
      (s : Status) (x : Exchange)
      → is_none_status s ≡ false
      → is_cancelled_status s ≡ false
      → x.errors ≡ []
      → ReplyResult s x
          (read_reply around type accepts (s, x)).0
          (read_reply around type accepts (s, x)).1
  unfolding read_reply set_error
  settled_reply s x some_status live clear = elim (Bool-cases (accepts s)) [
    | inl fine ↦ simp (some_status, live, fine) (done fine clear)
    | inr wrong ↦
        simp (some_status, live, wrong)
          (refused (set_error x (parse_error_response type (around.number s) s x.reason x.body))
            wrong some_status live refl
            (ap (λ es. es ++ parse_error_response type (around.number s) s x.reason x.body ∷ [])
              clear))
  ]

  pub read_reply-ReplyResult :
      (s : Status) (x : Exchange)
      → Reported s x.errors
      → ReplyResult s x
          (read_reply around type accepts (s, x)).0
          (read_reply around type accepts (s, x)).1
  unfolding read_reply
  read_reply-ReplyResult status_none x (inl clear) = lost refl clear
  read_reply-ReplyResult status_none x (inr wrong) = invalid refl wrong
  read_reply-ReplyResult status_cancelled x h = cancelled refl h
  read_reply-ReplyResult status_cant_resolve x h = settled_reply status_cant_resolve x refl refl h
  read_reply-ReplyResult status_cant_resolve_proxy x h =
      settled_reply status_cant_resolve_proxy x refl refl h
  read_reply-ReplyResult status_cant_connect x h = settled_reply status_cant_connect x refl refl h
  read_reply-ReplyResult status_cant_connect_proxy x h =
      settled_reply status_cant_connect_proxy x refl refl h
  read_reply-ReplyResult status_ssl_failed x h = settled_reply status_ssl_failed x refl refl h
  read_reply-ReplyResult status_io_error x h = settled_reply status_io_error x refl refl h
  read_reply-ReplyResult status_malformed x h = settled_reply status_malformed x refl refl h
  read_reply-ReplyResult (code n) x h = settled_reply (code n) x refl refl h

  pub sends-read_reply :
      (s : Status) (x : Exchange) → (read_reply around type accepts (s, x)).1.sends ≡ x.sends
  unfolding read_reply set_error
  sends-read_reply s x = ground arith

module _ (around : Surroundings) (documented : IsDocumented around) where
  -- Whatever the server, the network and the authorizer do, the deletion of an entry that has an edit
  -- link returns, after at most three sends, and goes by the status that its message came back with. It
  -- succeeds, with no error, exactly for 200. Else it fails: cancelled, with that error; for a redirect
  -- that led nowhere, with the error for its URI, or none where it named no place; and for any other
  -- status with the one error that the service makes of it.
  pub delete_entry-ReplyResult :
      (self : ServiceState) (domain : Option ℕ) (e : Entry) (stopped : Bool) (request : Request)
      → delete_request around self domain e ≡ some request
      → (s : Status) × (x0 : Exchange) × (success : Bool) × (x : Exchange) × (send_message around
            (exchange_for request.uri stopped)
          ≡ some (s, x0))
        × (delete_entry around self domain e stopped ≡ some (success, x))
        × (x.sends ≤ 3)
        × ReplyResult around deletion (is_code 200) s x0 success x
  unfolding delete_entry
  delete_entry-ReplyResult self domain e stopped request asked =
      let (s, x, run, count, reported) =
        send_message_lem around documented (exchange_for request.uri stopped) refl in
      (
        s,
        x,
        (read_reply around deletion (is_code 200) (s, x)).0,
        (read_reply around deletion (is_code 200) (s, x)).1,
        run,
        rw asked (rw run refl),
        rw (sends-read_reply around deletion (is_code 200) s x) (omega arith),
        read_reply-ReplyResult around deletion (is_code 200) s x reported,
      )

  -- The statuses 201 and 200.
  abbrev pub is_created : Status → Bool
  is_created s = is_code 201 s || is_code 200 s

  module _ {ℓ} {E : Type ℓ} (parse : Bool → Text → Option E) (e : Entry) where
    -- How an insertion comes out, by what its message came back with, if it was sent: at once, for an
    -- entry that has been inserted; or with what the parser makes of the answer; or with no entry; or,
    -- without a body, in a failed assertion.
    pub data InsertResult (sent : Option (Status × Exchange))
        : Option (Exchange × Answer E) → Type ℓ where
      inserted_before :
          (x : Exchange)
          → e.is_inserted ≡ true
          → x.sends ≡ 0
          → x.errors ≡ already_inserted (codes "The entry has already been inserted.") ∷ []
          → InsertResult sent (some (x, failed))
      parsed :
          (s : Status) (x : Exchange) (body : Text)
          → e.is_inserted ≡ false
          → sent ≡ some (s, x)
          → is_created s ≡ true
          → x.sends ≤ 3
          → x.errors ≡ []
          → x.body ≡ some body
          → InsertResult sent (some (x, of_parse (parse e.is_json body)))
      not_done :
          (s : Status) (x x' : Exchange)
          → e.is_inserted ≡ false
          → sent ≡ some (s, x)
          → x'.sends ≤ 3
          → ReplyResult around insertion is_created s x false x'
          → InsertResult sent (some (x', failed))
      bodiless :
          (s : Status) (x : Exchange)
          → e.is_inserted ≡ false
          → sent ≡ some (s, x)
          → is_created s ≡ true
          → x.body ≡ none
          → InsertResult sent none

    InsertResult-read :
        {sent : Option (Status × Exchange)} {s : Status} {x : Exchange} {success : Bool}
        {x' : Exchange}
        → e.is_inserted ≡ false
        → sent ≡ some (s, x)
        → x'.sends ≤ 3
        → ReplyResult around insertion is_created s x success x'
        → InsertResult sent (read_entry around parse e.is_json (success, x'))
    unfolding read_entry
    InsertResult-read {x = x} fresh run few (done fine clear) = elim (Option-cases x.body) [
      | inl nothing ↦ simp nothing (bodiless _ x fresh run fine nothing)
      | inr (body, held) ↦ simp held (parsed _ x body fresh run fine few clear held)
    ]
    InsertResult-read {x = x} fresh run few (cancelled same told) =
        not_done _ x x fresh run few (cancelled same told)
    InsertResult-read {x = x} fresh run few (lost same told) =
        not_done _ x x fresh run few (lost same told)
    InsertResult-read {x = x} fresh run few (invalid same told) =
        not_done _ x x fresh run few (invalid same told)
    InsertResult-read {x = x} fresh run few (refused x' wrong some_status live same told) =
        not_done _ x x' fresh run few (refused x' wrong some_status live same told)

    -- Whatever the server, the network and the authorizer do, an insertion comes out in one of these
    -- ways. An entry that has been inserted is refused, with that error, and nothing is sent. Else it
    -- is sent at most three times, and goes by the status that its message came back with. For 201 or
    -- 200 no error is set, and it gives what the parser makes of the body, read in the entry's own
    -- type; without a body an assertion fails. For any other status there is no entry, and at most one
    -- error: the cancellation's; for a redirect that led nowhere the one for its URI, or none where it
    -- named no place; else the one that the service makes of the status.
    pub insert_entry-InsertResult :
        (self : ServiceState) (domain : Option ℕ) (upload_uri : Text) (stopped : Bool)
        → InsertResult
            (send_message around
              (exchange_for (insert_request around parse self domain upload_uri e).uri stopped))
            (insert_entry around parse self domain upload_uri e stopped)
    unfolding insert_entry
    insert_entry-InsertResult self domain upload_uri stopped = elim (Bool-cases e.is_inserted) [
      | inl before ↦ simp before (
          inserted_before
            (set_error
              (exchange_for (insert_request around parse self domain upload_uri e).uri stopped)
              (already_inserted (codes "The entry has already been inserted.")))
            before refl refl)
      | inr fresh ↦
          let (s, x, run, count, reported) =
            send_message_lem around documented
              (exchange_for (insert_request around parse self domain upload_uri e).uri stopped)
              refl in
          simp (fresh, run)
            (InsertResult-read fresh refl
              (rw (sends-read_reply around insertion is_created s x) (omega arith))
              (read_reply-ReplyResult around insertion is_created s x reported))
    ]
