-- ===== src/Oauth1/Requests.antt =====
-- The two requests of gdata/gdata-oauth1-authorizer.c for a token, and the token that they leave.
use libgdata.Base.{
  ℕ, Bool, true, false, not, ◌||◌, Option, none, some, List, [], ◌∷◌, ◌++◌, Text, codes, text_eq,
  if◌then◌else◌,
}
use libgdata.Oauth1.{Library, insert, sign_message}
use libgdata.Oauth1.Authorizer.{Authorizer}
use libgdata.Service.{exchange_for, Surroundings, Exchange, actually_send_message, set_error, ◌>>=◌}
use libgdata.Service.Errors.{ServiceError, protocol_error, forbidden, is_cancelled_status, is_ok}

-- What libsoup makes of forms: `soup_form_encode_hash`, and a lookup in `soup_form_decode`. `order` is
-- the order of the iteration over the domains, `scope` is `gdata_authorization_domain_get_scope`, and
-- `escaped_utf8` is `g_string_append_uri_escaped` where it leaves UTF-8 alone.
pub record Forms : Type 0 where
  pub encode : List (Text × Text) → Text
  pub decode : Text → Text → Option Text
  pub order : List ℕ → List ℕ
  pub scope : ℕ → Text
  pub escaped_utf8 : Text → Text

-- A text that is not NULL and not empty, with another one.
unfoldable pub both_given : Option Text → Option Text → Option (Text × Text)
both_given (some (c ∷ t)) (some (e ∷ s)) = some (c ∷ t, e ∷ s)
both_given _ _ = none

abbrev pub is_empty : Text → Bool
is_empty [] = true
is_empty (c ∷ t) = false

abbrev pub is_true : Option Text → Bool
is_true none = false
is_true (some t) = text_eq t (codes "true")

-- A message that goes out: its URI, its body, and its header Authorization.
pub record Request : Type 0 where
  pub uri : Text
  pub body : Text
  pub header : Text

-- What the request for a token hands back: the URI, the token and its secret.
pub record RequestToken : Type 0 where
  pub authentication_uri : Text
  pub token : Text
  pub token_secret : Text

abbrev pub malformed : ServiceError
malformed = protocol_error (codes "The server returned a malformed response.")

-- The loop that builds the list of scopes.
unfoldable pub join_scopes : (ℕ → Text) → Bool → List ℕ → Text
join_scopes scope is_first [] = []
join_scopes scope is_first (domain ∷ ds) =
    (if is_first then [] else codes " ") ++ (scope domain ++ join_scopes scope false ds)

module _ (library : Library) (forms : Forms) (around : Surroundings) where
  unfoldable pub scopes_of : Authorizer → Text
  unfolding join_scopes
  scopes_of a = join_scopes forms.scope true (forms.order a.authorization_domains)

  -- A signed request to `uri` with `parameters`.
  unfoldable pub signed_request :
      Text → List (Text × Text) → Option Text → Option Text → Text → Text → Request
  signed_request uri parameters token token_secret nonce timestamp =
      let uri' = around.with_port uri in
      record {
        uri = uri';
        body = forms.encode parameters;
        header =
            sign_message library (codes "POST") uri' token token_secret parameters nonce timestamp;
      }

  -- The message of `gdata_oauth1_authorizer_request_authentication_uri`.
  unfoldable pub token_request : Authorizer → Text → Text → Request
  unfolding scopes_of signed_request
  token_request a nonce timestamp =
      let p1 = insert [] (codes "scope") (scopes_of a) in
      let p2 = insert p1 (codes "xoauth_displayname") a.application_name in
      let p3 = insert p2 (codes "oauth_callback") (codes "oob") in
      signed_request (codes "https://www.google.com/accounts/OAuthGetRequestToken") p3 none none
        nonce timestamp

  -- The message of `gdata_oauth1_authorizer_request_authorization`.
  unfoldable pub access_request : Text → Text → Text → Text → Text → Request
  unfolding signed_request
  access_request token token_secret verifier nonce timestamp =
      signed_request (codes "https://www.google.com/accounts/OAuthGetAccessToken")
        (insert [] (codes "oauth_verifier") verifier) (some token) (some token_secret) nonce
        timestamp

  abbrev pub locale_field : Option Text → Text
  locale_field none = []
  locale_field (some t) = codes "&hl=" ++ forms.escaped_utf8 t

  unfoldable pub authentication_uri : Option Text → Text → Text
  authentication_uri locale token =
      codes "https://www.google.com/accounts/OAuthAuthorizeToken?oauth_token="
      ++ (forms.escaped_utf8 token ++ locale_field locale)

  -- The details of the answer to the request for a token.
  unfoldable pub read_token : Authorizer → Text → Exchange → Exchange × Option RequestToken
  unfolding both_given authentication_uri set_error
  read_token a body x =
      elim (both_given (forms.decode body (codes "oauth_token"))
        (forms.decode body (codes "oauth_token_secret"))) [
          | none ↦ (set_error x malformed, none)
          | some (t, s) ↦
              if is_true (forms.decode body (codes "oauth_callback_confirmed"))
              then (
                x,
                some (record {
                  authentication_uri = authentication_uri a.locale t;
                  token = t;
                  token_secret = s;
                }),
              )
              else (set_error x malformed, none)
        ]

  -- What it makes of the status; `none` is the failed assertion on the body.
  unfoldable pub read_token_answer : Authorizer → Exchange → Option (Exchange × Option RequestToken)
  unfolding read_token set_error
  read_token_answer a x =
      if is_cancelled_status x.status
      then some (x, none)
      else if not (is_ok x.status)
      then some (
        set_error x
            (protocol_error (codes "The server rejected the temporary credentials request.")),
        none,
      )
      else elim x.body [ none ↦ none | some body ↦ some (read_token a body x) ]

  -- `gdata_oauth1_authorizer_request_authentication_uri`: it does not change the authorizer.
  unfoldable pub request_authentication_uri :
      Authorizer → Bool → Text → Text → Option (Exchange × Option RequestToken)
  unfolding token_request read_token_answer
  request_authentication_uri a cancelled nonce timestamp =
      actually_send_message around (exchange_for (token_request a nonce timestamp).uri cancelled)
      >>= λ x. read_token_answer a x

  -- The details of the answer to the request for an access token, which the authorizer keeps.
  unfoldable pub store_token : Authorizer → Text → Exchange → Exchange × Bool × Authorizer
  unfolding both_given set_error
  store_token a body x =
      elim (both_given (forms.decode body (codes "oauth_token"))
        (forms.decode body (codes "oauth_token_secret"))) [
          | none ↦ (set_error x malformed, false, a)
          | some (t, s) ↦ (x, true, record a { token = some t; token_secret = some s })
        ]

  unfoldable pub read_access_answer : Authorizer → Exchange → Option (Exchange × Bool × Authorizer)
  unfolding store_token set_error
  read_access_answer a x =
      if is_cancelled_status x.status
      then some (x, false, a)
      else if not (is_ok x.status)
      then some
          (set_error x (forbidden (codes "Access was denied by the user or server.")), false, a)
      else elim x.body [ none ↦ none | some body ↦ some (store_token a body x) ]

  -- `gdata_oauth1_authorizer_request_authorization`; an empty argument is refused with no error.
  unfoldable pub request_authorization :
      Authorizer → Text → Text → Text → Bool → Text → Text → Option (Exchange × Bool × Authorizer)
  unfolding access_request read_access_answer
  request_authorization a token token_secret verifier cancelled nonce timestamp =
      let x =
        exchange_for (access_request token token_secret verifier nonce timestamp).uri cancelled in
      if is_empty token || (is_empty token_secret || is_empty verifier)
      then some (x, false, a)
      else (actually_send_message around x >>= λ x'. read_access_answer a x')
