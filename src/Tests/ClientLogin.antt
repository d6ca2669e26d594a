-- ===== src/Tests/ClientLogin.antt =====
-- The theorems on gdata/gdata-client-login-authorizer.c at concrete answers.
use libgdata.Base.{
  ℕ, ◌≡◌, refl, arith, none, some, List, [], ◌∷◌, ◌++◌, codes, inl, inr, ◌==◌, if◌then◌else◌,
}
use libgdata.Service.Errors.{code}
use libgdata.ClientLogin.Fields.{strip}
use libgdata.ClientLogin.Answers.{
  Turn, authenticate, parse_authentication_response, bad_authentication,
}
use libgdata.ClientLogin.Authorizer.{Authorizer, authenticate_loop}
use libgdata.ClientLogin.Reading.{AbsentBefore, parse_authentication_response-token}
use libgdata.ClientLogin.Granted.{AllAnswered, LoopResult, authenticate_loop-LoopResult}

session_line-AbsentBefore :
    AbsentBefore (codes "Auth=") (codes "SID=1" ++ 10 ∷ []) (codes "tok" ++ 10 ∷ [])
unfolding strip
session_line-AbsentBefore = (refl, (refl, (refl, (refl, (refl, (refl, tt))))))

parse_authentication_response-token_example :
    parse_authentication_response
      ((codes "SID=1" ++ 10 ∷ []) ++ (codes "Auth=" ++ (codes "tok" ++ 10 ∷ [])))
    ≡ inl (codes "tok")
parse_authentication_response-token_example =
    parse_authentication_response-token (codes "SID=1" ++ 10 ∷ []) (codes "ok") [] 116
      session_line-AbsentBefore ((λ h. omega arith), ((λ h. omega arith), ((λ h. omega arith), tt)))

-- The first domain's login comes to a token, and the second one's does not.
abbrev answered : ℕ → List Turn
answered domain =
    if domain == 1
    then record {
      status = code 200;
      number = 200;
      reason = codes "OK";
      body = some (codes "Auth=tok" ++ 10 ∷ []);
      captcha_answer = none;
    }
      ∷ []
    else record {
      status = code 403;
      number = 403;
      reason = codes "Forbidden";
      body = some (codes "Error=BadAuthentication" ++ 10 ∷ []);
      captcha_answer = none;
    }
      ∷ []

abbrev two_domains : Authorizer
two_domains = record { username = none; password = none; auth_tokens = (1, none) ∷ (2, none) ∷ [] }

two_domains-AllAnswered : AllAnswered answered two_domains.auth_tokens
unfolding authenticate
two_domains-AllAnswered = (
  (record { result = inl (codes "tok"); captchas = []; messages = none ∷ [] }, refl),
  ((record { result = inr bad_authentication; captchas = []; messages = none ∷ [] }, refl), tt),
)

authenticate_loop-LoopResult_example :
    LoopResult answered
      (codes "me")
      (codes "secret")
      two_domains
      (authenticate_loop answered (codes "me") (codes "secret") two_domains)
authenticate_loop-LoopResult_example =
    authenticate_loop-LoopResult answered (codes "me") (codes "secret") two_domains
      two_domains-AllAnswered
