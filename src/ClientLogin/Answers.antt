-- ===== src/ClientLogin/Answers.antt =====
-- `authenticate` of gdata/gdata-client-login-authorizer.c: what the server answers, and what the
-- application answers to a CAPTCHA, is a list of turns.
use libgdata.Base.{
  ℕ, Bool, false, ◌||◌, Option, none, some, List, [], ◌∷◌, ◌++◌, Text, codes, ◌==◌, if◌then◌else◌,
  ◌⊎◌, inl, inr,
}
use libgdata.Base.Printf.{print_decimal}
use libgdata.Service.Errors.{
  Status, status_cant_resolve, status_cant_resolve_proxy, status_cant_connect,
  status_cant_connect_proxy, status_ssl_failed, status_io_error, status_malformed, code,
  ServiceError, cancelled_error, network_error, proxy_error, protocol_error,
  authentication_required, not_found, conflict, is_ok, is_cancelled_status, shown_body,
}
use libgdata.ClientLogin.Fields.{field, strncmp}

-- `GDataClientLoginAuthorizerError`, with the URI that the message shows, and the errors of the
-- service.
pub data LoginError : Type 0 where
  service_error : ServiceError → LoginError
  service_unavailable : Text → LoginError
  bad_authentication : LoginError
  not_verified : Text → LoginError
  terms_not_agreed : Text → LoginError
  captcha_required : LoginError
  account_deleted : Text → LoginError
  account_disabled : Text → LoginError
  service_disabled : Text → LoginError
  account_migrated : Text → LoginError
  invalid_second_factor : LoginError

abbrev pub malformed : LoginError
malformed = service_error (protocol_error (codes "The server returned a malformed response."))

-- The token, which is not empty.
unfoldable pub check_token : Option Text → Text ⊎ LoginError
check_token none = inr malformed
check_token (some []) = inr malformed
check_token (some (c ∷ token)) = inl (c ∷ token)

-- `parse_authentication_response`
unfoldable pub parse_authentication_response : Text → Text ⊎ LoginError
unfolding field check_token
parse_authentication_response body = check_token (field (codes "Auth=") body)

-- `parse_error_response`; `number` is the status as the message prints it.
unfoldable pub parse_error_response : ℕ → Status → Text → Option Text → ServiceError
parse_error_response number status reason body =
    let shown = shown_body body reason in
    let generic = protocol_error (
      codes "Error code " ++ (print_decimal number ++ (codes " when authenticating: " ++ shown))) in
    elim status [
      | status_cant_resolve ↦ network_error (codes "Cannot connect to the service's server.")
      | status_cant_connect ↦ network_error (codes "Cannot connect to the service's server.")
      | status_ssl_failed ↦ network_error (codes "Cannot connect to the service's server.")
      | status_io_error ↦ network_error (codes "Cannot connect to the service's server.")
      | status_cant_resolve_proxy ↦ proxy_error (codes "Cannot connect to the proxy server.")
      | status_cant_connect_proxy ↦ proxy_error (codes "Cannot connect to the proxy server.")
      | status_malformed ↦
          protocol_error
            (codes "Invalid request URI or header, or unsupported nonstandard parameter: " ++ shown)
      | code n ↦
          if n == 400
          then protocol_error (
              codes "Invalid request URI or header, or unsupported nonstandard parameter: "
              ++ shown)
          else if (n == 401) || (n == 403)
          then authentication_required (codes "Authentication required: " ++ shown)
          else if n == 404
          then not_found (codes "The requested resource was not found: " ++ shown)
          else if (n == 409) || (n == 412)
          then conflict (codes "The entry has been modified since it was downloaded: " ++ shown)
          else generic
      | _ ↦ generic
    ]

-- A message of a login: the status of the answer, its number and its reason phrase, the body, and what
-- the application would answer to a CAPTCHA in it.
pub record Turn : Type 0 where
  pub status : Status
  pub number : ℕ
  pub reason : Text
  pub body : Option Text
  pub captcha_answer : Option Text

-- What is made of a turn. It ends the login, with the CAPTCHA that has been shown, if one has, and a
-- token or an error; or the next message goes out with a CAPTCHA's token and its answer; or a
-- `g_assert` fails.
pub data Step : Type 0 where
  ended : List Text → Text ⊎ LoginError → Step
  again : Text → Text → Text → Step
  asserted : Step

unfoldable pub protocol_error_of : Turn → LoginError
unfolding parse_error_response
protocol_error_of t = service_error (parse_error_response t.number t.status t.reason t.body)

-- The answer of the application, by the token.
unfoldable pub read_token : Turn → Text → Text → Option Text → Step
unfolding protocol_error_of
read_token t uri a none = ended (uri ∷ []) (inr (protocol_error_of t))
read_token t uri a (some token) = again uri token a

unfoldable pub read_challenge : Turn → Text → Text → Option Text → Step
unfolding read_token field
read_challenge t body uri none = ended (uri ∷ []) (inr captcha_required)
read_challenge t body uri (some []) = ended (uri ∷ []) (inr captcha_required)
read_challenge t body uri (some (c ∷ a)) =
    read_token t uri (c ∷ a) (field (codes "CaptchaToken=") body)

-- A CAPTCHA, by its URI below the base URI.
unfoldable pub read_captcha : Turn → Text → Option Text → Step
unfolding protocol_error_of read_challenge
read_captcha t body none = ended [] (inr (protocol_error_of t))
read_captcha t body (some path) =
    read_challenge t body (codes "http://www.google.com/accounts/" ++ path) t.captcha_answer

abbrev pub is_second_factor : Option Text → Bool
is_second_factor none = false
is_second_factor (some info) = strncmp info (codes "InvalidSecondFactor")

-- The errors that come with a URI.
unfoldable pub error_with_uri : LoginError → Text → Option Text → LoginError
unfolding strncmp
error_with_uri unknown value none = unknown
error_with_uri unknown value (some uri) =
    if strncmp value (codes "NotVerified")
    then not_verified uri
    else if strncmp value (codes "TermsNotAgreed")
    then terms_not_agreed uri
    else if strncmp value (codes "AccountMigrated")
    then account_migrated uri
    else if strncmp value (codes "AccountDeleted")
    then account_deleted uri
    else if strncmp value (codes "AccountDisabled")
    then account_disabled uri
    else if strncmp value (codes "ServiceDisabled")
    then service_disabled uri
    else if strncmp value (codes "ServiceUnavailable")
    then service_unavailable uri
    else unknown

-- An error that is no CAPTCHA.
unfoldable pub read_error : LoginError → Text → Text → LoginError
unfolding error_with_uri field
read_error unknown body value =
    if strncmp value (codes "Unknown")
    then unknown
    else if strncmp value (codes "BadAuthentication")
    then if is_second_factor (field (codes "Info=") body)
      then invalid_second_factor
      else bad_authentication
    else error_with_uri unknown value (field (codes "Url=") body)

-- The body of a status that is not 200, by the value of `Error=`.
unfoldable pub read_failure : Turn → Text → Option Text → Step
unfolding protocol_error_of read_captcha read_error
read_failure t body none = ended [] (inr (protocol_error_of t))
read_failure t body (some value) =
    if strncmp value (codes "CaptchaRequired")
    then read_captcha t body (field (codes "CaptchaUrl=") body)
    else ended [] (inr (read_error (protocol_error_of t) body value))

unfoldable pub read_turn : Option Text → Turn → Step
unfolding read_failure protocol_error_of parse_authentication_response
read_turn none t =
    if is_cancelled_status t.status
    then ended [] (inr (service_error cancelled_error))
    else if is_ok t.status
    then asserted
    else ended [] (inr (protocol_error_of t))
read_turn (some body) t =
    if is_cancelled_status t.status
    then ended [] (inr (service_error cancelled_error))
    else if is_ok t.status
    then ended [] (parse_authentication_response body)
    else read_failure t body (field (codes "Error=") body)

-- A login: its token or its error, the CAPTCHAs that the application has been shown, and for each
-- message the CAPTCHA's token and answer in it.
pub record Login : Type 0 where
  pub result : Text ⊎ LoginError
  pub captchas : List Text
  pub messages : List (Option (Text × Text))

abbrev pub with_message : Option (Text × Text) → Text → Option Login → Option Login
with_message sent uri none = none
with_message sent uri (some l) =
    some (record l { captchas = uri ∷ l.captchas; messages = sent ∷ l.messages })

-- `authenticate`, with what the server and the application answer in turn; `none` is a login that is
-- not answered to its end, or fails an assertion.
unfoldable pub authenticate : Option (Text × Text) → List Turn → Option Login
unfolding read_turn
authenticate sent [] = none
authenticate sent (t ∷ turns) = elim (read_turn t.body t) [
  | ended shown result ↦ some (record { result = result; captchas = shown; messages = sent ∷ [] })
  | again uri token a ↦ with_message sent uri (authenticate (some (token, a)) turns)
  | asserted ↦ none
]
