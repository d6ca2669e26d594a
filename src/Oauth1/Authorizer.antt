-- ===== src/Oauth1/Authorizer.antt =====
-- The authorizer of gdata/gdata-oauth1-authorizer.c: the domains that it is made for, and the messages
-- that it signs. A domain of authorization is a number.
use libgdata.Base.{
  ℕ, Bool, true, false, not, ◌&&◌, ◌||◌, Option, none, some, List, [], ◌∷◌, Text, ◌==◌,
  if◌then◌else◌,
}
use libgdata.Oauth1.{Library, sign_message}

-- The hash table of domains is the list of its keys.
pub record Authorizer : Type 0 where
  pub application_name : Text
  pub locale : Option Text
  pub token : Option Text
  pub token_secret : Option Text
  pub authorization_domains : List ℕ

-- `g_hash_table_lookup (...) != NULL`, and `g_hash_table_insert`.
unfoldable pub has_domain : List ℕ → ℕ → Bool
has_domain [] domain = false
has_domain (e ∷ ds) domain = (e == domain) || has_domain ds domain

unfoldable pub insert_domain : List ℕ → ℕ → List ℕ
unfolding has_domain
insert_domain ds domain = if has_domain ds domain then ds else domain ∷ ds

unfoldable pub insert_domains : List ℕ → List ℕ → List ℕ
unfolding insert_domain
insert_domains ds [] = ds
insert_domains ds (domain ∷ more) = insert_domains (insert_domain ds domain) more

-- `gdata_oauth1_authorizer_new_for_authorization_domains`; a NULL list is refused.
unfoldable pub new_for_authorization_domains : Text → List ℕ → Option Authorizer
unfolding insert_domains
new_for_authorization_domains application_name [] = none
new_for_authorization_domains application_name (domain ∷ more) = some (record {
  application_name = application_name;
  locale = none;
  token = none;
  token_secret = none;
  authorization_domains = insert_domains [] (domain ∷ more);
})

abbrev pub is_set : Option Text → Bool
is_set none = false
is_set (some t) = true

unfoldable pub is_authorized_for_domain : Authorizer → ℕ → Bool
unfolding has_domain
is_authorized_for_domain a domain = is_set a.token && has_domain a.authorization_domains domain

abbrev pub same_set : Option Text → Option Text → Bool
same_set none t = not (is_set t)
same_set (some s) t = is_set t

abbrev pub in_domains : List ℕ → Option ℕ → Bool
in_domains ds none = false
in_domains ds (some domain) = has_domain ds domain

-- The header of a message with no parameters of its own, if the authorizer signs it; the outer
-- `none` is the failed assertion. A domain that is NULL is `none`.
unfoldable pub process_request :
    Library → Authorizer → Option ℕ → Text → Text → Text → Text → Option (Option Text)
unfolding has_domain
process_request library a domain method uri nonce timestamp =
    let header = sign_message library method uri a.token a.token_secret [] nonce timestamp in
    if same_set a.token a.token_secret
    then (if is_set a.token && in_domains a.authorization_domains domain
        then some (some header)
        else some none)
    else none
