-- ===== src/Oauth1/Tokens.antt =====
-- What the first request of gdata/gdata-oauth1-authorizer.c, the one for a request token, comes to.
use libgdata.Base.{◌≡◌, ◌≢◌, true, Option, none, some, [], ◌++◌, Text, codes}
use libgdata.Oauth1.{Library}
use libgdata.Oauth1.Authorizer.{Authorizer}
use libgdata.Oauth1.Requests.{Forms, RequestToken, authentication_uri}
use libgdata.Oauth1.Granting.{Refused, rejected}
use libgdata.Service.{Surroundings, Exchange}
use libgdata.Service.Errors.{is_code}

-- The page where the user grants the access to a token, by the locale of the authorizer.
abbrev pub granting_page : (Text → Text) → Option Text → Text → Text
granting_page escaped none t =
    codes "https://www.google.com/accounts/OAuthAuthorizeToken?oauth_token=" ++ escaped t
granting_page escaped (some locale) t =
    codes "https://www.google.com/accounts/OAuthAuthorizeToken?oauth_token="
    ++ (escaped t ++ (codes "&hl=" ++ escaped locale))

module _ (library : Library) (forms : Forms) (around : Surroundings) where
  -- How the request for a token comes out, by the exchange `x` that its message came back with: with
  -- the token and the secret that the answer names, and the address where the user grants the access;
  -- or with one error, and none of the three; or the answer has no body, and an assertion fails.
  pub data TokenResult (a : Authorizer) (x : Exchange)
      : Option (Exchange × Option RequestToken) → Type 0 where
    answered :
        (body t s address : Text)
        → is_code 200 x.status ≡ true
        → x.errors ≡ []
        → x.body ≡ some body
        → forms.decode body (codes "oauth_token") ≡ some t
        → forms.decode body (codes "oauth_token_secret") ≡ some s
        → forms.decode body (codes "oauth_callback_confirmed") ≡ some (codes "true")
        → t ≢ []
        → s ≢ []
        → address ≡ granting_page forms.escaped_utf8 a.locale t
        → TokenResult a x
            (some (x, some (record { authentication_uri = address; token = t; token_secret = s })))
    refused : (x' : Exchange) → Refused rejected x x' → TokenResult a x (some (x', none))
    no_body : is_code 200 x.status ≡ true → x.errors ≡ [] → x.body ≡ none → TokenResult a x none
