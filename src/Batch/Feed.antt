-- ===== src/Batch/Feed.antt =====
-- gdata/gdata-batch-feed.c: the parse of the answer to a batch, which has the operations' callbacks
-- called. What libxml, `strtoul` and the service say is in the record `Library`; so
-- is what the classes of the entries and of the feed, which are virtual, make of a node.
pub mod Parsing
use libgdata.Base.{
  ℕ, ◌+◌, ◌%◌, Bool, true, false, ◌&&◌, ◌||◌, not, Option, none, some, List, [], ◌∷◌, ◌++◌, Text,
  codes, text_eq, ◌==◌, ◌⊎◌, inl, inr, if◌then◌else◌,
}
use libgdata.Base.Word.{u32}
use libgdata.Parser.Errors.{Element}
use libgdata.Parser.Element.{is_namespace}
use libgdata.Service.Errors.{
  Status, ServiceError, protocol_error, parse_error_response, http_error, shown_body, code,
  is_none_status, is_cancelled_status, is_ok, OperationType,
}
use libgdata.Service.{Surroundings, Exchange, Message, send_message}
use libgdata.Batch.{Operation, Batch, get_operation, run_callback}
use libgdata.Batch

-- A child of an answer's `<entry>`; `dump` is what `xmlNodeDump` gives for its children.
pub record Child : Type 0 where
  pub is_text : Bool
  pub element : Element
  pub dump : Text

pub record Node : Type 0 where
  pub element : Element
  pub children : List Child

-- An entry of the feed that a run sends.
pub record FeedEntry (E : Type 0) : Type 0 where
  pub entry : E
  pub batch_id : ℕ
  pub batch_type : Batch.OperationType

-- `order` is the order of the hash table's iteration.
pub record Library (E K : Type 0) : Type 0 where
  pub order : List ℕ
  pub strtoul : Text → ℕ
  pub status_of : ℕ → Status
  pub is_successful : Status → Bool
  pub new_entry : Option Text → E
  pub around : List (FeedEntry E) → Surroundings
  pub read_document : Text → List Node ⊎ ServiceError
  pub read_entry : Operation E K → Node → E ⊎ ServiceError
  pub parse_feed_node : Node → Option ServiceError
  pub post_parse : List Node → Option ServiceError

-- What a parse of a part of the answer comes to: it goes on, it fails, or the program does, at a NULL
-- pointer or a failed assertion.
pub data Parse (A : Type 0) : Type 0 where
  parsed : A → Parse A
  refused : A → ServiceError → Parse A
  crashed : Parse A

-- The variables of the loop over an entry's children.
pub record Found : Type 0 where
  pub id : ℕ
  pub status_code : ℕ
  pub status_reason : Option Text
  pub status_response : Text

abbrev pub nothing_found : Found
nothing_found = record { id = 0; status_code = 0; status_reason = none; status_response = [] }

abbrev pub batch_uri : Text
batch_uri = codes "http://schemas.google.com/gdata/batch"

-- `gdata_parser_error_required_element_missing`
unfoldable pub required_element_missing : Text → Text → ServiceError
required_element_missing element_name parent_element_name = protocol_error (
    codes "A required element (<"
    ++ (parent_element_name ++ (codes "/" ++ (element_name ++ codes ">) was not present."))))

-- The operation type of a batch operation is passed as the service's, and both are enumerations: a
-- query has the number 0, which is none of the service's, and the others have the number of the
-- service's type in front of theirs.
abbrev pub passed_as : Batch.OperationType → Option OperationType
passed_as Batch.query = none
passed_as Batch.insertion = some OperationType.query
passed_as Batch.update = some OperationType.insertion
passed_as Batch.deletion = some OperationType.update

-- The statuses that the first `switch` of `real_parse_error_response` handles.
abbrev pub is_specific : Status → Bool
is_specific (code n) =
    (n == 400) || (n == 401) || (n == 403) || (n == 404) || (n == 409) || (n == 412)
is_specific s = not (is_none_status s || is_cancelled_status s)

-- `real_parse_error_response` with that type; its last `switch` fails an assertion on the number 0.
unfoldable pub parse_batch_error :
    Option OperationType → ℕ → Status → Text → Option Text → Option ServiceError
parse_batch_error (some type) number status reason body =
    some (parse_error_response type number status reason body)
parse_batch_error none number status reason body =
    if is_specific status
    then some (parse_error_response OperationType.query number status reason body)
    else none

abbrev pub or_null : Option Text → Text
or_null none = codes "(null)"
or_null (some t) = t

module _ {E K : Type 0} (library : Library E K) where
  -- A child in the batch namespace; `none` is `strtoul` of NULL.
  unfoldable pub read_number : Option Text → Option ℕ
  read_number none = none
  read_number (some t) = some (library.strtoul t % u32)

  abbrev pub with_id : Option ℕ → Found → Option Found
  with_id none f = none
  with_id (some n) f = some (record f { id = n })

  abbrev pub with_status : Option ℕ → Option Text → Text → Found → Option Found
  with_status none reason dump f = none
  with_status (some n) reason dump f = some (record f {
    status_code = n;
    status_reason = reason;
    status_response = f.status_response ++ dump;
  })

  unfoldable pub read_child : Child → Found → Option Found
  unfolding read_number
  read_child c f =
      if c.is_text || not (is_namespace c.element batch_uri)
      then some f
      else if text_eq c.element.name (codes "id")
      then with_id (read_number c.element.content) f
      else if text_eq c.element.name (codes "status")
      then with_status (read_number (c.element.property (codes "code")))
          (c.element.property (codes "reason")) c.dump f
      else some f

  abbrev pub is_complete : Found → Bool
  is_complete f = not (f.id == 0) && not (f.status_code == 0)

  -- The loop over the children. For a child that is skipped the test at the end comes out as before.
  unfoldable pub read_children : List Child → Found → Option Found
  unfolding read_child
  read_children [] f = some f
  read_children (c ∷ cs) f = elim (read_child c f) [
    | none ↦ none
    | some f' ↦ let rest = read_children cs f' in if is_complete f' then some f' else rest
  ]

  -- The end of `parse_xml`, where the status is a success.
  unfoldable pub run_success : Operation E K → E ⊎ ServiceError → Batch E K → Parse (Batch E K)
  run_success op (inl e) self = parsed (run_callback self op (some e) none)
  run_success op (inr error) self = refused self error

  abbrev pub is_deletion : Batch.OperationType → Bool
  is_deletion Batch.deletion = true
  is_deletion _ = false

  unfoldable pub run_failure : Operation E K → Option ServiceError → Batch E K → Parse (Batch E K)
  run_failure op none self = crashed
  run_failure op (some error) self = parsed (run_callback self op none (some error))

  unfoldable pub take_entry : Option (Operation E K) → Found → Node → Batch E K → Parse (Batch E K)
  unfolding run_success run_failure parse_batch_error
  take_entry none f node self = crashed
  take_entry (some op) f node self =
      let status = library.status_of f.status_code in
      if not (library.is_successful status)
      then run_failure op
          (parse_batch_error (passed_as op.type) f.status_code status (or_null f.status_reason)
            (some f.status_response))
          self
      else if is_deletion op.type
      then parsed (run_callback self op none none)
      else run_success op (library.read_entry op node) self

  -- The checks in front of it.
  unfoldable pub check_found : Option Found → Node → Batch E K → Parse (Batch E K)
  unfolding take_entry required_element_missing
  check_found none node self = crashed
  check_found (some f) node self =
      if f.id == 0
      then refused self (required_element_missing (codes "batch:id") (codes "entry"))
      else if f.status_code == 0
      then refused self (required_element_missing (codes "batch:status") (codes "entry"))
      else take_entry (get_operation self f.id) f node self

  -- What the parent class makes of another node.
  unfoldable pub parse_other : Option ServiceError → Batch E K → Parse (Batch E K)
  parse_other none self = parsed self
  parse_other (some error) self = refused self error

  -- `parse_xml`
  unfoldable pub parse_xml : Node → Batch E K → Parse (Batch E K)
  unfolding read_children check_found parse_other
  parse_xml node self =
      if text_eq node.element.name (codes "entry")
      then check_found (read_children node.children nothing_found) node self
      else parse_other (library.parse_feed_node node) self

  -- The nodes of an answer, one after the other, and the last check of the feed.
  unfoldable pub parse_nodes : List Node → Batch E K → Parse (Batch E K)
  unfolding parse_xml
  parse_nodes [] self = parsed self
  parse_nodes (node ∷ nodes) self = elim (parse_xml node self) [
    | parsed self' ↦ parse_nodes nodes self'
    | refused self' error ↦ refused self' error
    | crashed ↦ crashed
  ]

  abbrev pub then_check : Option ServiceError → Parse (Batch E K) → Parse (Batch E K)
  then_check (some error) (parsed self) = refused self error
  then_check (some error) (refused self e) = refused self e
  then_check (some error) crashed = crashed
  then_check none p = p

  unfoldable pub parse_answer : List Node ⊎ ServiceError → Batch E K → Parse (Batch E K)
  unfolding parse_nodes
  parse_answer (inr error) self = refused self error
  parse_answer (inl nodes) self = then_check (library.post_parse nodes) (parse_nodes nodes self)
