-- ===== src/Service/Updates.antt =====
-- What the update of an entry by gdata/gdata-service.c comes to.
use libgdata.Base.{
  ℕ, ◌≤◌, ◌≡◌, refl, inl, inr, Bool, true, false, Option, none, some, [], Text, arith, Option-cases,
  ap, ==_iff,
}
use libgdata.Service.{Surroundings, Exchange, exchange_for, send_message}
use libgdata.Service.Entries.{
  ServiceState, Request, Entry, Answer, no_body, failed, of_parse, read_reply, read_updated,
  update_request, update_entry,
}
use libgdata.Service.Errors.{
  Status, status_none, status_cancelled, status_cant_resolve, status_cant_resolve_proxy,
  status_cant_connect, status_cant_connect_proxy, status_ssl_failed, status_io_error,
  status_malformed, code, update, is_code,
}
use libgdata.Service.Outcomes.{
  ReplyResult, done, cancelled, lost, invalid, refused, read_reply-ReplyResult, sends-read_reply,
}
use libgdata.Service.Sending.{IsDocumented, send_message_lem}

module _ {ℓ} {E : Type ℓ} (around : Surroundings) (documented : IsDocumented around)
    (parse : Bool → Text → Option E) (e : Entry) where
  -- How an update comes out, by the status `s` and the exchange `x` that its message came back with:
  -- with what the parser makes of the answer; with neither an entry nor an error, where the answer has
  -- no body; or with no entry.
  pub data UpdateResult (s : Status) (x : Exchange) : Exchange × Answer E → Type ℓ where
    parsed :
        (body : Text)
        → s ≡ code 200
        → x.errors ≡ []
        → x.body ≡ some body
        → UpdateResult s x (x, of_parse (parse e.is_json body))
    silent : s ≡ code 200 → x.errors ≡ [] → x.body ≡ none → UpdateResult s x (x, no_body)
    not_done :
        (x' : Exchange)
        → is_code 200 s ≡ false
        → ReplyResult around update (is_code 200) s x false x'
        → UpdateResult s x (x', failed)

  is_code-eq : (s : Status) (n : ℕ) → is_code n s ≡ true → s ≡ code n
  is_code-eq (code m) n h = ap code ((==_iff m n).0 h)
  is_code-eq status_none n h = cc
  is_code-eq status_cancelled n h = cc
  is_code-eq status_cant_resolve n h = cc
  is_code-eq status_cant_resolve_proxy n h = cc
  is_code-eq status_cant_connect n h = cc
  is_code-eq status_cant_connect_proxy n h = cc
  is_code-eq status_ssl_failed n h = cc
  is_code-eq status_io_error n h = cc
  is_code-eq status_malformed n h = cc

  sends-read_updated :
      (r : Bool × Exchange) → (read_updated around parse e.is_json r).0.sends ≡ r.1.sends
  unfolding read_updated
  sends-read_updated (false, x) = refl
  sends-read_updated (true, x) = refl

  UpdateResult-done :
      (s : Status) (x : Exchange)
      → s ≡ code 200
      → x.errors ≡ []
      → UpdateResult s x (read_updated around parse e.is_json (true, x))
  unfolding read_updated
  UpdateResult-done s x fine clear = elim (Option-cases x.body) [
    | inl nothing ↦ simp nothing (silent fine clear nothing)
    | inr (body, there) ↦ simp there (parsed body fine clear there)
  ]

  UpdateResult-read :
      {s : Status} {x : Exchange} {success : Bool} {x' : Exchange}
      → ReplyResult around update (is_code 200) s x success x'
      → UpdateResult s x (read_updated around parse e.is_json (success, x'))
  unfolding read_updated
  UpdateResult-read {s = s} {x = x} (done fine clear) =
      UpdateResult-done s x (is_code-eq s 200 fine) clear
  UpdateResult-read {x = x} (cancelled same told) =
      not_done x (ap (is_code 200) same) (cancelled same told)
  UpdateResult-read {x = x} (lost same told) = not_done x (ap (is_code 200) same) (lost same told)
  UpdateResult-read {x = x} (invalid same told) =
      not_done x (ap (is_code 200) same) (invalid same told)
  UpdateResult-read (refused x' wrong some_status live same told) =
      not_done x' wrong (refused x' wrong some_status live same told)

  -- The update of an entry that has an edit link returns, whatever the server, the network and the
  -- authorizer do, after at most three sends, and goes by the status that its message came back with.
  -- For 200 it sets no error, and gives what the parser makes of the body; where the answer has no
  -- body, the call hands back neither an entry nor an error. For any other status there is no entry,
  -- and at most one error: the cancellation's; for a redirect that led nowhere the one for its URI, or
  -- none where it named no place; else the one that the service makes of the status.
  pub update_entry-UpdateResult :
      (self : ServiceState) (domain : Option ℕ) (stopped : Bool) (request : Request)
      → update_request around parse self domain e ≡ some request
      → (s : Status) × (x : Exchange) × (r : Exchange × Answer E) × (send_message around
            (exchange_for request.uri stopped)
          ≡ some (s, x))
        × (update_entry around parse self domain e stopped ≡ some r)
        × (r.0.sends ≤ 3)
        × UpdateResult s x r
  unfolding update_entry read_updated
  update_entry-UpdateResult self domain stopped request asked =
      let (s, x, run, count, reported) =
        send_message_lem around documented (exchange_for request.uri stopped) refl in
      let reply = read_reply around update (is_code 200) (s, x) in
      (
        s,
        x,
        read_updated around parse e.is_json reply,
        run,
        rw asked (rw run refl),
        rw (sends-read_updated reply)
            (rw (sends-read_reply around update (is_code 200) s x) (omega arith)),
        UpdateResult-read (read_reply-ReplyResult around update (is_code 200) s x reported),
      )
