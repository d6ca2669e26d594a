-- ===== src/Service/Errors.antt =====
-- The statuses and errors of gdata/gdata-service.c, and `real_parse_error_response`.
use libgdata.Base.{
  String, ℕ, Bool, true, false, Option, none, some, [], ◌∷◌, ◌++◌, Text, codes, ◌==◌, if◌then◌else◌,
}
use libgdata.Base.Printf.{print_decimal}

-- libsoup's `SOUP_STATUS_` names for what is no HTTP status, as far as the file tells them apart;
-- every other status stands with its number.
pub data Status : Type 0 where
  status_none : Status
  status_cancelled : Status
  status_cant_resolve : Status
  status_cant_resolve_proxy : Status
  status_cant_connect : Status
  status_cant_connect_proxy : Status
  status_ssl_failed : Status
  status_io_error : Status
  status_malformed : Status
  code : ℕ → Status

abbrev pub is_none_status : Status → Bool
is_none_status status_none = true
is_none_status _ = false

abbrev pub is_cancelled_status : Status → Bool
is_cancelled_status status_cancelled = true
is_cancelled_status _ = false

-- The four statuses that libsoup may give in place of the cancelled one.
abbrev pub is_connection_failure : Status → Bool
is_connection_failure status_io_error = true
is_connection_failure status_ssl_failed = true
is_connection_failure status_cant_connect = true
is_connection_failure status_cant_resolve = true
is_connection_failure _ = false

abbrev pub is_code : ℕ → Status → Bool
is_code n (code m) = m == n
is_code n _ = false

abbrev pub is_ok : Status → Bool
is_ok = is_code 200

abbrev pub is_not_modified : Status → Bool
is_not_modified = is_code 304

abbrev pub is_unauthorized : Status → Bool
is_unauthorized = is_code 401

-- An error of the domain `GDATA_SERVICE_ERROR` by its code, with its untranslated message; and
-- `G_IO_ERROR_CANCELLED`.
pub data ServiceError : Type 0 where
  cancelled_error : ServiceError
  network_error : Text → ServiceError
  proxy_error : Text → ServiceError
  protocol_error : Text → ServiceError
  authentication_required : Text → ServiceError
  not_found : Text → ServiceError
  conflict : Text → ServiceError
  with_batch_operation : Text → ServiceError
  forbidden : Text → ServiceError
  already_inserted : Text → ServiceError

pub data OperationType : Type 0 where
  query : OperationType
  insertion : OperationType
  update : OperationType
  deletion : OperationType
  download : OperationType
  upload : OperationType
  authentication : OperationType
  batch : OperationType

abbrev pub generic_message : String → ℕ → Text → Text
generic_message what n shown = codes "Error code " ++ (print_decimal n ++ (codes what ++ shown))

-- The second `switch`.
unfoldable pub generic_error : OperationType → ℕ → Text → ServiceError
generic_error authentication n t = protocol_error (generic_message " when authenticating: " n t)
generic_error query n t = protocol_error (generic_message " when querying: " n t)
generic_error insertion n t = protocol_error (generic_message " when inserting an entry: " n t)
generic_error update n t = protocol_error (generic_message " when updating an entry: " n t)
generic_error deletion n t = protocol_error (generic_message " when deleting an entry: " n t)
generic_error download n t = protocol_error (generic_message " when downloading: " n t)
generic_error upload n t = protocol_error (generic_message " when uploading: " n t)
generic_error batch n t =
    with_batch_operation (generic_message " when running a batch operation: " n t)

-- The response body, or the reason phrase where the body is NULL or empty.
abbrev pub shown_body : Option Text → Text → Text
shown_body none reason = reason
shown_body (some []) reason = reason
shown_body (some (c ∷ s)) reason = c ∷ s

-- The HTTP statuses of the first `switch`.
unfoldable pub http_error : OperationType → ℕ → ℕ → Text → ServiceError
http_error type n number shown =
    if n == 400
    then protocol_error
        (codes "Invalid request URI or header, or unsupported nonstandard parameter: " ++ shown)
    else if n == 401
    then authentication_required (codes "Authentication required: " ++ shown)
    else if n == 403
    then authentication_required (codes "Authentication required: " ++ shown)
    else if n == 404
    then not_found (codes "The requested resource was not found: " ++ shown)
    else if n == 409
    then conflict (codes "The entry has been modified since it was downloaded: " ++ shown)
    else if n == 412
    then conflict (codes "The entry has been modified since it was downloaded: " ++ shown)
    else generic_error type number shown

-- `real_parse_error_response`; `number` is the status as the generic messages print it.
unfoldable pub parse_error_response : OperationType → ℕ → Status → Text → Option Text → ServiceError
unfolding http_error generic_error
parse_error_response type number status_cant_resolve reason body =
    network_error (codes "Cannot connect to the service's server.")
parse_error_response type number status_cant_connect reason body =
    network_error (codes "Cannot connect to the service's server.")
parse_error_response type number status_ssl_failed reason body =
    network_error (codes "Cannot connect to the service's server.")
parse_error_response type number status_io_error reason body =
    network_error (codes "Cannot connect to the service's server.")
parse_error_response type number status_cant_resolve_proxy reason body =
    proxy_error (codes "Cannot connect to the proxy server.")
parse_error_response type number status_cant_connect_proxy reason body =
    proxy_error (codes "Cannot connect to the proxy server.")
parse_error_response type number status_malformed reason body = protocol_error (
    codes "Invalid request URI or header, or unsupported nonstandard parameter: "
    ++ shown_body body reason)
parse_error_response type number (code n) reason body =
    http_error type n number (shown_body body reason)
parse_error_response type number status_none reason body =
    generic_error type number (shown_body body reason)
parse_error_response type number status_cancelled reason body =
    generic_error type number (shown_body body reason)
