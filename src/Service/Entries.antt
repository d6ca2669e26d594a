-- ===== src/Service/Entries.antt =====
-- The requests of gdata/gdata-service.c for entries: `_gdata_service_build_message`, and the calls that
-- insert, update and delete one.
use libgdata.Base.{
  ℕ, Bool, true, false, not, ◌&&◌, ◌||◌, Option, none, some, List, [], ◌∷◌, ◌++◌, Text, codes,
  if◌then◌else◌,
}
use libgdata.Service.{Surroundings, Exchange, exchange_for, set_error, send_message, ◌>>=◌}
use libgdata.Service.Errors.{
  Status, OperationType, insertion, update, deletion, already_inserted, is_code, is_ok,
  is_none_status, is_cancelled_status, parse_error_response,
}
use libgdata.Service.Uris.{fix_uri_scheme}

-- A message before it is sent: its headers are those that are appended, in order, and its body has a
-- content type. `domain` is the one that is kept on the message.
pub record Request : Type 0 where
  pub method : Text
  pub uri : Text
  pub headers : List (Text × Text)
  pub domain : Option ℕ
  pub body : Option (Text × Text)

-- The service; `authorizer` is what `gdata_authorizer_process_request` appends to a message with a
-- domain, if there is an authorizer.
pub record ServiceState : Type 0 where
  pub authorizer : Option (Option ℕ → List (Text × Text))
  pub api_version : Text
  pub locale : Option Text

abbrev pub header_if : Text → Option Text → List (Text × Text)
header_if name none = []
header_if name (some t) = (name, t) ∷ []

abbrev pub authorized_headers :
    Option (Option ℕ → List (Text × Text)) → Option ℕ → List (Text × Text)
authorized_headers none domain = []
authorized_headers (some process) domain = process domain

abbrev pub kept_domain : Option (Option ℕ → List (Text × Text)) → Option ℕ → Option ℕ
kept_domain none domain = none
kept_domain (some process) domain = domain

-- `real_append_query_headers`
unfoldable pub append_query_headers : ServiceState → Option ℕ → Request → Request
append_query_headers self domain r = record r {
  headers =
      r.headers
      ++ (authorized_headers self.authorizer domain
          ++ ((codes "GData-Version", self.api_version)
              ∷ header_if (codes "Accept-Language") self.locale));
  domain = kept_domain self.authorizer domain;
}

-- `_gdata_service_build_message`; `with_port` puts the HTTPS port into a URI.
unfoldable pub build_message :
    (Text → Text) → ServiceState → Option ℕ → Text → Text → Option Text → Bool → Request
unfolding append_query_headers
build_message with_port self domain method uri etag if_match =
    let r =
      append_query_headers self domain (record {
        method = method;
        uri = with_port uri;
        headers = [];
        domain = none;
        body = none;
      }) in
    record r {
      headers =
          r.headers
          ++ header_if (if if_match then codes "If-Match" else codes "If-None-Match") etag;
    }

-- `gdata_service_is_authorized`, for the domains of the service.
unfoldable pub is_authorized : Option (ℕ → Bool) → List ℕ → Bool
is_authorized none domains = false
is_authorized (some is_authorized_for) [] = true
is_authorized (some is_authorized_for) (domain ∷ domains) =
    is_authorized_for domain && is_authorized (some is_authorized_for) domains

-- What the class of an entry says of it: whether it has been inserted, the URIs of its links "self"
-- and "edit", its ETag, whether its content type is "application/json", and its text in that type.
pub record Entry : Type 0 where
  pub is_inserted : Bool
  pub self_link : Option Text
  pub edit_link : Option Text
  pub etag : Option Text
  pub is_json : Bool
  pub shown : Text

-- How a call that hands back an entry ends: with an entry; with NULL, and what the parser sets; with
-- NULL, where there is no body to parse; or with NULL, and the errors of the exchange.
pub data Answer {ℓ} (E : Type ℓ) : Type ℓ where
  entry : E → Answer E
  unparsable : Answer E
  no_body : Answer E
  failed : Answer E

abbrev pub of_parse {ℓ} : {E : Type ℓ} → Option E → Answer E
of_parse none = unparsable
of_parse (some e) = entry e

-- The body of a message with an entry.
unfoldable pub entry_body : Entry → Text × Text
entry_body e =
    if e.is_json
    then (codes "application/json", e.shown)
    else (codes "application/atom+xml", e.shown)

unfoldable pub edit_uri : Entry → Option Text
edit_uri e = if e.is_json then e.self_link else e.edit_link

module _ (around : Surroundings) where
  -- What an insertion, an update or a deletion makes of the status: whether it is a success.
  unfoldable pub read_reply : OperationType → (Status → Bool) → Status × Exchange → Bool × Exchange
  unfolding set_error
  read_reply type accepts r =
      if is_none_status r.0 || is_cancelled_status r.0
      then (false, r.1)
      else if not (accepts r.0)
      then (
        false,
        set_error r.1 (parse_error_response type (around.number r.0) r.0 r.1.reason r.1.body),
      )
      else (true, r.1)

-- `parse` is `gdata_parsable_new_from_json` or `gdata_parsable_new_from_xml`, by its first argument.
module _ {ℓ} {E : Type ℓ} (around : Surroundings) (parse : Bool → Text → Option E) where
  -- The parse of the answer to an insertion or a query; the outer `none` is the failed assertion on the body.
  unfoldable pub read_entry : Bool → Bool × Exchange → Option (Exchange × Answer E)
  read_entry is_json (false, x) = some (x, failed)
  read_entry is_json (true, x) = elim x.body [
    | none ↦ none
    | some body ↦ some (x, of_parse (parse is_json body))
  ]

  -- The same without the assertion: an update hands a missing body on to the parser, which refuses it.
  unfoldable pub read_updated : Bool → Bool × Exchange → Exchange × Answer E
  read_updated is_json (false, x) = (x, failed)
  read_updated is_json (true, x) =
      (x, elim x.body [ none ↦ no_body | some body ↦ of_parse (parse is_json body) ])

  abbrev pub is_created_or_ok : Status → Bool
  is_created_or_ok s = is_code 201 s || is_ok s

  -- `gdata_service_insert_entry`, with the message that it sends.
  unfoldable pub insert_request : ServiceState → Option ℕ → Text → Entry → Request
  unfolding build_message entry_body
  insert_request self domain upload_uri e =
      record (build_message around.with_port self domain (codes "POST") upload_uri none false) {
        body = some (entry_body e);
      }

  unfoldable pub insert_entry :
      ServiceState → Option ℕ → Text → Entry → Bool → Option (Exchange × Answer E)
  unfolding insert_request read_reply read_entry set_error
  insert_entry self domain upload_uri e cancelled =
      let x = exchange_for (insert_request self domain upload_uri e).uri cancelled in
      if e.is_inserted
      then some
          (set_error x (already_inserted (codes "The entry has already been inserted.")), failed)
      else (send_message around x >>= λ r.
          read_entry e.is_json (read_reply around insertion is_created_or_ok r))

  -- `gdata_service_update_entry`; an entry without the link fails an assertion.
  unfoldable pub update_request : ServiceState → Option ℕ → Entry → Option Request
  unfolding build_message entry_body edit_uri
  update_request self domain e = do
    uri ← edit_uri e
    some (record (build_message around.with_port self domain (codes "PUT") uri e.etag true) {
      body = some (entry_body e);
    })

  unfoldable pub update_entry :
      ServiceState → Option ℕ → Entry → Bool → Option (Exchange × Answer E)
  unfolding update_request read_reply read_updated
  update_entry self domain e cancelled = do
    request ← update_request self domain e
    r ← send_message around (exchange_for request.uri cancelled)
    some (read_updated e.is_json (read_reply around update is_ok r))

module _ (around : Surroundings) where
  -- `gdata_service_delete_entry`; a link that is no URI gives a message for a NULL URI, which is not
  -- modelled, and `none`.
  unfoldable pub delete_request : ServiceState → Option ℕ → Entry → Option Request
  unfolding build_message edit_uri fix_uri_scheme
  delete_request self domain e = do
    uri ← edit_uri e
    fixed ← fix_uri_scheme uri
    fixed_uri ← fixed
    some (build_message around.with_port self domain (codes "DELETE") fixed_uri e.etag true)

  unfoldable pub delete_entry : ServiceState → Option ℕ → Entry → Bool → Option (Bool × Exchange)
  unfolding delete_request read_reply
  delete_entry self domain e cancelled = do
    request ← delete_request self domain e
    r ← send_message around (exchange_for request.uri cancelled)
    some (read_reply around deletion is_ok r)
