-- ===== src/Tests/OauthRequests.antt =====
-- The theorems on the requests of gdata/gdata-oauth1-authorizer.c at a concrete server.
use libgdata.Base.{
  ℕ, ◌≡◌, refl, true, false, ◌&&◌, none, some, [], ◌∷◌, ◌++◌, codes, text_eq, if◌then◌else◌,
}
use libgdata.Oauth1.{Library, sign_message}
use libgdata.Oauth1.Authorizer.{
  Authorizer, has_domain, new_for_authorization_domains, is_authorized_for_domain, process_request,
}
use libgdata.Oauth1.Requests.{Forms, request_authorization}
use libgdata.Oauth1.Domains.{request_authorization-is_authorized}
use libgdata.Service.{Surroundings, Exchange, actually_send_message}
use libgdata.Service.Errors.{Status, code}
use libgdata.Service.Sending.{IsDocumented, is_3xx}

abbrev plain : Library
plain = record {
  iterate = λ table. table;
  sort = λ list. list;
  escaped = λ t. t;
  bare = λ t. t;
  sign = λ key t. key ++ t;
}

-- A server that answers every form with one body, and a form with two details.
abbrev answering : Status → Surroundings
answering status = record {
  has_cancellable = false;
  answer = λ n m. record {
    status = status;
    location = none;
    reason = [];
    body = some (codes "b");
    cancels = false;
  };
  is_redirection = is_3xx;
  number = λ s. 500;
  with_base = λ base t. none;
  with_port = λ t. t;
  refresh = none;
}

answering-IsDocumented : (n : ℕ) → IsDocumented (answering (code n))
answering-IsDocumented n = record { answered = λ k m. refl; redirection = λ s. refl }

abbrev two_details : Forms
two_details = record {
  encode = λ p. [];
  decode = λ body name.
      if text_eq name (codes "oauth_callback_confirmed") then some (codes "true") else some name;
  order = λ ds. ds;
  scope = λ d. codes "s";
  escaped_utf8 = λ t. t;
}

abbrev two_domains : Authorizer
two_domains = record {
  application_name = codes "app";
  locale = some (codes "en");
  token = none;
  token_secret = none;
  authorization_domains = 2 ∷ 1 ∷ [];
}

abbrev answered_200 : Exchange
answered_200 = record {
  message = record {
    uri = codes "https://www.google.com/accounts/OAuthGetAccessToken";
    processed = 0;
  };
  status = code 200;
  location = none;
  reason = [];
  body = some (codes "b");
  cancelled = false;
  sends = 1;
  errors = [];
}

abbrev with_token : Authorizer
with_token = record two_domains {
  locale = none;
  token = some (codes "oauth_token");
  token_secret = some (codes "oauth_token_secret");
}

request_authorization-is_authorized_example :
    (is_authorized_for_domain (record two_domains { locale = none }) 1 ≡ false)
    × (is_authorized_for_domain with_token 1 ≡ (true && has_domain (1 ∷ 2 ∷ []) 1))
    × (process_request plain with_token (some 1) (codes "GET") (codes "u") (codes "n") (codes "1")
        ≡ some (
            if true && has_domain (1 ∷ 2 ∷ []) 1
            then some (
                sign_message plain
                  (codes "GET")
                  (codes "u")
                  (some (codes "oauth_token"))
                  (some (codes "oauth_token_secret"))
                  []
                  (codes "n")
                  (codes "1"))
            else none))
unfolding new_for_authorization_domains request_authorization actually_send_message text_eq
request_authorization-is_authorized_example =
    request_authorization-is_authorized plain two_details (answering (code 200)) (codes "app")
      (1 ∷ 2 ∷ []) (record two_domains { locale = none }) (codes "t") (codes "s") (codes "v") false
      (codes "n") (codes "1") answered_200 true with_token (answering-IsDocumented 200) refl
      (λ h. cc) (λ h. cc) (λ h. cc) refl 1 (codes "GET") (codes "u") (codes "n") (codes "1")
