-- ===== src/Oauth1/Domains.antt =====
-- Which domains an authorizer of gdata/gdata-oauth1-authorizer.c is authorized for, from its creation
-- through the requests for an access token, and what that means for its messages.
use libgdata.Base.{
  ℕ, ◌≡◌, ◌≢◌, refl, sym, ap, ◌∙◌, Bool, true, false, ◌&&◌, ◌||◌, Option, none, some, List, [], ◌∷◌,
  Text, arith, ◌==◌, if◌then◌else◌, Bool-cases, inl, inr,
}
use libgdata.Oauth1.{Library, sign_message}
use libgdata.Oauth1.Authorizer.{
  Authorizer, has_domain, insert_domain, insert_domains, new_for_authorization_domains,
  is_authorized_for_domain, process_request, is_set, same_set,
}
use libgdata.Oauth1.Requests.{Forms, request_authorization}
use libgdata.Oauth1.Granting.{
  AccessResult, granted, refused, no_body, request_authorization-AccessResult,
}
use libgdata.Service.{Surroundings, Exchange}
use libgdata.Service.Sending.{IsDocumented}

has_domain-insert :
    (ds : List ℕ) (d e : ℕ) → has_domain (insert_domain ds d) e ≡ ((d == e) || has_domain ds e)
unfolding insert_domain has_domain
has_domain-insert ds d e = ground arith

or_swap : (x y z : Bool) → (x || (y || z)) ≡ ((y || x) || z)
or_swap true true z = refl
or_swap true false z = refl
or_swap false true z = refl
or_swap false false z = refl

or_false : (x : Bool) → (x || false) ≡ x
or_false true = refl
or_false false = refl

has_domain-insert_domains :
    (ds more : List ℕ) (e : ℕ)
    → has_domain (insert_domains ds more) e ≡ (has_domain more e || has_domain ds e)
unfolding insert_domains has_domain
has_domain-insert_domains ds [] e = refl
has_domain-insert_domains ds (d ∷ more) e =
    has_domain-insert_domains (insert_domain ds d) more e
    ∙ ap (λ t. has_domain more e || t) (has_domain-insert ds d e)
    ∙ or_swap (has_domain more e) (d == e) (has_domain ds e)

-- What an authorizer has right after it is made.
record IsNew (ds : List ℕ) (a : Authorizer) : Type 0 where
  no_token : a.token ≡ none
  no_secret : a.token_secret ≡ none
  registered : (e : ℕ) → has_domain a.authorization_domains e ≡ has_domain ds e

new_for_authorization_domains-IsNew :
    (name : Text) (ds : List ℕ) (a : Authorizer)
    → new_for_authorization_domains name ds ≡ some a
    → IsNew ds a
unfolding new_for_authorization_domains
new_for_authorization_domains-IsNew name [] a h = cc
new_for_authorization_domains-IsNew name (d ∷ ds) a h = record {
  no_token = cc;
  no_secret = cc;
  registered = λ e.
      ap (λ t. has_domain t e) (cc)
      ∙ has_domain-insert_domains [] (d ∷ ds) e
      ∙ or_false (has_domain (d ∷ ds) e);
}

module _ (library : Library) (forms : Forms) (around : Surroundings) where
  -- An authorizer that keeps its domains, with a token exactly if `done`.
  record Keeps (done : Bool) (a a' : Authorizer) : Type 0 where
    same_domains : a'.authorization_domains ≡ a.authorization_domains
    told : is_set a'.token ≡ done
    paired : same_set a'.token a'.token_secret ≡ true

  AccessResult-Keeps :
      (a : Authorizer) (x : Exchange) (done : Bool) (a' : Authorizer) {x0 : Exchange}
      {r : Option (Exchange × Bool × Authorizer)}
      → AccessResult forms a x0 r
      → a.token ≡ none
      → a.token_secret ≡ none
      → r ≡ some (x, done, a')
      → Keeps done a a'
  AccessResult-Keeps a x done a' (granted body t s good clear held tt' ss nt ns) h k e =
      let same_answer : true ≡ done = cc in
      let same : record a { token = some t; token_secret = some s } ≡ a' = cc in
      record {
        same_domains = ap (λ (b : Authorizer). b.authorization_domains) (sym same);
        told = ap (λ (b : Authorizer). is_set b.token) (sym same) ∙ same_answer;
        paired = ap (λ (b : Authorizer). same_set b.token b.token_secret) (sym same);
      }
  AccessResult-Keeps a x done a' (refused x' why) h k e =
      let same_answer : false ≡ done = cc in
      let same : a ≡ a' = cc in
      record {
        same_domains = ap (λ (b : Authorizer). b.authorization_domains) (sym same);
        told = ap (λ (b : Authorizer). is_set b.token) (sym same) ∙ ap is_set h ∙ same_answer;
        paired =
            ap (λ (b : Authorizer). same_set b.token b.token_secret) (sym same)
            ∙ ap (λ t. same_set t a.token_secret) h
            ∙ ap (λ t. same_set none t) k;
      }
  AccessResult-Keeps a x done a' (no_body good clear nothing) h k e = cc

  process_request_by :
      (a : Authorizer) (e : ℕ) (method uri nonce timestamp : Text)
      → same_set a.token a.token_secret ≡ true
      → process_request library a (some e) method uri nonce timestamp
        ≡ some (
            if is_authorized_for_domain a e
            then some (sign_message library method uri a.token a.token_secret [] nonce timestamp)
            else none)
  unfolding process_request is_authorized_for_domain
  process_request_by a e method uri nonce timestamp paired =
      elim (Bool-cases (is_set a.token && has_domain a.authorization_domains e)) [
        | inl signs ↦ simp (paired, signs)
        | inr not_this ↦ simp (paired, not_this)
      ]

  -- An authorizer that is made for the domains `ds` is authorized for none. Behind a request for an
  -- access token, all of whose arguments are given, it is authorized for a domain exactly if the
  -- request succeeded and the domain is one of `ds`; and the message of a domain is then signed with
  -- the token and its secret, every other message goes out as it is, and no assertion fails.
  pub request_authorization-is_authorized :
      (name : Text) (ds : List ℕ) (a : Authorizer) (token token_secret verifier : Text)
      (cancelled : Bool) (nonce timestamp : Text) (x : Exchange) (done : Bool) (a' : Authorizer)
      → IsDocumented around
      → new_for_authorization_domains name ds ≡ some a
      → token ≢ []
      → token_secret ≢ []
      → verifier ≢ []
      → request_authorization library forms around a token token_secret verifier cancelled nonce
          timestamp
        ≡ some (x, done, a')
      → (e : ℕ) (method uri nonce' timestamp' : Text)
      → (is_authorized_for_domain a e ≡ false)
        × (is_authorized_for_domain a' e ≡ (done && has_domain ds e))
        × (process_request library a' (some e) method uri nonce' timestamp'
            ≡ some (
                if done && has_domain ds e
                then some
                    (sign_message library method uri a'.token a'.token_secret [] nonce' timestamp')
                else none))
  unfolding is_authorized_for_domain
  request_authorization-is_authorized name ds a token token_secret verifier cancelled nonce
        timestamp x done a' documented made t s v ran e method uri nonce' timestamp' =
      let n = new_for_authorization_domains-IsNew name ds a made in
      let (x0, sent, few, result) =
        request_authorization-AccessResult library forms around documented a token token_secret
          verifier cancelled nonce timestamp t s v in
      let kept = AccessResult-Keeps a x done a' result n.no_token n.no_secret ran in
      let known : is_authorized_for_domain a' e ≡ (done && has_domain ds e) =
        ap (λ u. u && has_domain a'.authorization_domains e) kept.told
        ∙ ap (λ u. done && has_domain u e) kept.same_domains
        ∙ ap (λ u. done && u) (n.registered e) in
      (
        ap (λ u. is_set u && has_domain a.authorization_domains e) n.no_token,
        known,
        process_request_by a' e method uri nonce' timestamp' kept.paired
            ∙ ap
                (λ u. some (
                  if u
                  then some (
                      sign_message library method uri a'.token a'.token_secret [] nonce' timestamp')
                  else none))
                known,
      )
