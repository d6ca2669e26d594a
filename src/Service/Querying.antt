-- ===== src/Service/Querying.antt =====
-- `_gdata_service_query` of gdata/gdata-service.c: what it reports of an answer.
use libgdata.Base.{
  ℕ, suc, and_false, ◌+◌, ◌≤◌, ◌≡◌, inl, inr, refl, Bool, true, false, none, some, [], ◌∷◌, ◌++◌,
  codes, arith, ◌==◌, Bool-cases, ◌||◌, ap, ==_iff,
}
use libgdata.Service.Errors.{
  Status, status_none, status_cancelled, status_cant_resolve, status_cant_resolve_proxy,
  status_cant_connect, status_cant_connect_proxy, status_ssl_failed, status_io_error,
  status_malformed, code, cancelled_error, protocol_error, parse_error_response, query, shown_body,
  generic_error, is_code, is_cancelled_status,
}
use libgdata.Service.{
  Surroundings, Exchange, send_message, send_query, read_status, actually_send_message,
  set_cancelled, send_or_cancel, send_redirected, set_error,
}
use libgdata.Service.Sending.{IsDocumented, Reported, send_message_lem}

module _ (around : Surroundings) where
  -- What a query hands back, by the status `s` and the exchange `x` that its message came back with:
  -- whether it returns the message, and the exchange that it leaves. In `overwritten` an error is set
  -- while another one stands.
  pub data QueryResult (s : Status) (x : Exchange) : Bool → Exchange → Type 0 where
    got : s ≡ code 200 → x.errors ≡ [] → QueryResult s x true x
    not_modified : s ≡ code 304 → x.errors ≡ [] → QueryResult s x false x
    stopped : s ≡ status_cancelled → x.errors ≡ cancelled_error ∷ [] → QueryResult s x false x
    refused :
        (x' : Exchange)
        → is_code 200 s ≡ false
        → is_code 304 s ≡ false
        → is_cancelled_status s ≡ false
        → x'.sends ≡ x.sends
        → x'.errors ≡ parse_error_response query (around.number s) s x.reason x.body ∷ []
        → QueryResult s x false x'
    overwritten :
        (x' : Exchange)
        → s ≡ status_none
        → x'.sends ≡ x.sends
        → x'.errors
          ≡ protocol_error (codes "Invalid redirect URI: (null)")
            ∷ parse_error_response query (around.number s) s x.reason x.body
            ∷ []
        → QueryResult s x false x'

  -- The error that stands for a status is set behind those that stand.
  refused_by :
      (s : Status) (x : Exchange)
      → is_code 200 s ≡ false
      → is_code 304 s ≡ false
      → is_cancelled_status s ≡ false
      → x.errors ≡ []
      → QueryResult s x false
          (set_error x (parse_error_response query (around.number s) s x.reason x.body))
  unfolding set_error
  refused_by s x not_ok modified live clear =
      refused (set_error x (parse_error_response query (around.number s) s x.reason x.body)) not_ok
        modified live refl
        (ap (λ es. es ++ parse_error_response query (around.number s) s x.reason x.body ∷ []) clear)

  overwritten_by :
      (x : Exchange)
      → x.errors ≡ protocol_error (codes "Invalid redirect URI: (null)") ∷ []
      → QueryResult status_none x false (
          set_error x
            (parse_error_response query (around.number status_none) status_none x.reason x.body))
  unfolding set_error
  overwritten_by x invalid =
      let e = parse_error_response query (around.number status_none) status_none x.reason x.body in
      overwritten (set_error x e) refl refl (ap (λ es. es ++ e ∷ []) invalid)

module _ (around : Surroundings) (documented : IsDocumented around) where
  read_status_code-QueryResult :
      (n : ℕ) (x : Exchange)
      → x.errors ≡ []
      → QueryResult around
          (code n)
          x
          (read_status around (code n) x).0
          (read_status around (code n) x).1
  unfolding read_status
  read_status_code-QueryResult n x clear = elim (Bool-cases (n == 304)) [
    | inl same ↦ simp same (not_modified (ap code ((==_iff n 304).0 same)) clear)
    | inr other ↦ elim (Bool-cases (n == 200)) [
      | inl fine ↦ simp (other, fine) (got (ap code ((==_iff n 200).0 fine)) clear)
      | inr wrong ↦ simp (other, wrong) (refused_by around (code n) x wrong other refl clear)
    ]
  ]

  read_status-QueryResult :
      (s : Status) (x : Exchange)
      → Reported s x.errors
      → QueryResult around s x (read_status around s x).0 (read_status around s x).1
  unfolding read_status
  read_status-QueryResult status_none x (inl clear) =
      refused_by around status_none x refl refl refl clear
  read_status-QueryResult status_none x (inr invalid) = overwritten_by around x invalid
  read_status-QueryResult status_cancelled x h = stopped refl h
  read_status-QueryResult status_cant_resolve x h =
      refused_by around status_cant_resolve x refl refl refl h
  read_status-QueryResult status_cant_resolve_proxy x h =
      refused_by around status_cant_resolve_proxy x refl refl refl h
  read_status-QueryResult status_cant_connect x h =
      refused_by around status_cant_connect x refl refl refl h
  read_status-QueryResult status_cant_connect_proxy x h =
      refused_by around status_cant_connect_proxy x refl refl refl h
  read_status-QueryResult status_ssl_failed x h =
      refused_by around status_ssl_failed x refl refl refl h
  read_status-QueryResult status_io_error x h = refused_by around status_io_error x refl refl refl h
  read_status-QueryResult status_malformed x h =
      refused_by around status_malformed x refl refl refl h
  read_status-QueryResult (code n) x h = read_status_code-QueryResult n x h

  sends-read_status : (s : Status) (x : Exchange) → (read_status around s x).1.sends ≡ x.sends
  unfolding read_status
  sends-read_status s x = ground arith

  -- With no error set before, a query returns after at most three sends, and goes by the status that
  -- its message came back with. For 200 it hands back the message and sets no error; for 304 neither;
  -- for a cancelled message it leaves the error of that. For every other status it hands back no
  -- message, and sets the one error that the service makes of the status, which is a second one where
  -- the error for an invalid redirect stands.
  pub send_query-QueryResult :
      (x : Exchange)
      → x.errors ≡ []
      → (s : Status) × (x0 : Exchange) × (got_message : Bool) × (x' : Exchange) × (send_message
            around x
          ≡ some (s, x0))
        × (send_query around x ≡ some (got_message, x'))
        × (x'.sends ≤ x.sends + 3)
        × QueryResult around s x0 got_message x'
  unfolding send_query
  send_query-QueryResult x clear =
      let (s, x0, run, count, reported) = send_message_lem around documented x clear in
      (
        s,
        x0,
        (read_status around s x0).0,
        (read_status around s x0).1,
        run,
        rw run refl,
        rw (sends-read_status s x0) count,
        read_status-QueryResult s x0 reported,
      )

  -- A server that answers 304 to the ETag of a query, with no place to go, is taken for one that
  -- redirects: the query reports an error for the status none, and not that nothing was modified.
  send_query_not_modified :
      (x : Exchange)
      → x.errors ≡ []
      → x.cancelled ≡ false
      → (around.answer x.sends x.message).status ≡ code 304
      → (around.answer x.sends x.message).location ≡ none
      → (x' : Exchange) × (send_query around x ≡ some (false, x'))
        × (x'.errors
            ≡ generic_error query (around.number status_none) (
                shown_body
                  (around.answer x.sends x.message).body
                  (around.answer x.sends x.message).reason)
              ∷ [])
  unfolding send_query send_message actually_send_message send_or_cancel set_cancelled
      send_redirected read_status parse_error_response generic_error
  send_query_not_modified x clear running status nowhere =
      let away : around.is_redirection (code 304) ≡ true = documented.redirection (code 304) in
      let r = around.answer x.sends x.message in
      (
        (read_status around status_none (record x {
          status = r.status;
          location = r.location;
          reason = r.reason;
          body = r.body;
          cancelled = x.cancelled || r.cancels;
          sends = suc x.sends;
        })).1,
        simp (running, status, nowhere, away, and_false) refl,
        rw clear refl,
      )
