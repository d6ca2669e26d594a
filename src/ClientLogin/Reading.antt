-- ===== src/ClientLogin/Reading.antt =====
-- What gdata/gdata-client-login-authorizer.c reads from a body, and how its errors compare with the
-- service's.
use libgdata.Base.{
  ℕ, ◌≡◌, refl, ap, ◌∙◌, Option, none, some, [], ◌∷◌, ◌++◌, Text, codes, Lacks, ==_iff, ne→==, inl,
  arith,
}
use libgdata.Service.Errors.{
  Status, status_none, status_cancelled, status_cant_resolve, status_cant_resolve_proxy,
  status_cant_connect, status_cant_connect_proxy, status_ssl_failed, status_io_error,
  status_malformed, code, http_error, generic_error, generic_message, authentication, shown_body,
}
use libgdata.Service.Errors
use libgdata.ClientLogin.Fields.{strip, after, line, field, bind}
use libgdata.ClientLogin.Answers.{check_token, parse_authentication_response, parse_error_response}

strip-append : (needle rest : Text) → strip needle (needle ++ rest) ≡ some rest
unfolding strip
strip-append [] rest = refl
strip-append (n ∷ needle) rest = rw ((==_iff n n).1 refl, strip-append needle rest) refl

-- `needle` stands at none of the places in `pre`, with `needle ++ rest` behind it.
abbrev pub AbsentBefore : Text → Text → Text → Type 0
AbsentBefore needle [] rest = Unit
AbsentBefore needle (c ∷ pre) rest =
    (strip needle ((c ∷ pre) ++ (needle ++ rest)) ≡ none) × AbsentBefore needle pre rest

after-append :
    (n : ℕ) (needle pre rest : Text)
    → AbsentBefore (n ∷ needle) pre rest
    → after (n ∷ needle) (pre ++ ((n ∷ needle) ++ rest)) ≡ some rest
unfolding after
after-append n needle [] rest absent = rw (strip-append (n ∷ needle) rest) refl
after-append n needle (c ∷ pre) rest (here, later) = rw here (after-append n needle pre rest later)

line-append : (value rest : Text) → Lacks 10 value → line (value ++ 10 ∷ rest) ≡ some value
unfolding line
line-append [] rest none_there = refl
line-append (c ∷ value) rest (here, later) = rw (ne→== c 10 here, line-append value rest later) refl

field-append :
    (n : ℕ) (needle pre value post : Text)
    → AbsentBefore (n ∷ needle) pre (value ++ 10 ∷ post)
    → Lacks 10 value
    → field (n ∷ needle) (pre ++ ((n ∷ needle) ++ (value ++ 10 ∷ post))) ≡ some value
unfolding field
field-append n needle pre value post absent one_line =
    ap (λ t. bind t line) (after-append n needle pre (value ++ 10 ∷ post) absent)
    ∙ line-append value post one_line

-- A token is read back from the first place with its name, up to the end of the line, wherever that
-- stands in the body and whatever follows.
pub parse_authentication_response-token :
    (pre token post : Text) (c : ℕ)
    → AbsentBefore (codes "Auth=") pre ((c ∷ token) ++ 10 ∷ post)
    → Lacks 10 (c ∷ token)
    → parse_authentication_response (pre ++ (codes "Auth=" ++ ((c ∷ token) ++ 10 ∷ post)))
      ≡ inl (c ∷ token)
unfolding parse_authentication_response check_token
parse_authentication_response-token pre token post c absent one_line =
    ap check_token (field-append 65 (codes "uth=") pre (c ∷ token) post absent one_line)

-- The error that a status stands for is the one that the service gives for an authentication.
parse_error_response-service :
    (number : ℕ) (status : Status) (reason : Text) (body : Option Text)
    → parse_error_response number status reason body
      ≡ Errors.parse_error_response authentication number status reason body
unfolding parse_error_response Errors.parse_error_response http_error generic_error
parse_error_response-service number status_none reason body = refl
parse_error_response-service number status_cancelled reason body = refl
parse_error_response-service number status_cant_resolve reason body = refl
parse_error_response-service number status_cant_resolve_proxy reason body = refl
parse_error_response-service number status_cant_connect reason body = refl
parse_error_response-service number status_cant_connect_proxy reason body = refl
parse_error_response-service number status_ssl_failed reason body = refl
parse_error_response-service number status_io_error reason body = refl
parse_error_response-service number status_malformed reason body = refl
parse_error_response-service number (code n) reason body = ground arith
