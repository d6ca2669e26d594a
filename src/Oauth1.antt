-- ===== src/Oauth1.antt =====
-- `sign_message` of gdata/gdata-oauth1-authorizer.c: the signature of a message, and the header that
-- holds it. A text is its bytes.
pub mod Sorting
pub mod Order
pub mod Authorizer
pub mod Requests
pub mod Granting
pub mod Tokens
pub mod Domains
use libgdata.Base.{
  ℕ, Bool, true, false, ◌&&◌, ◌||◌, Option, none, some, List, [], ◌∷◌, ◌++◌, Text, codes, text_eq,
  ltb, ◌==◌, if◌then◌else◌,
}

-- What GLib, libsoup and liboauth do. `iterate` is the order of a hash table's iteration, `sort` is
-- `g_list_sort` with `g_strcmp0`, `escaped` is `g_string_append_uri_escaped`, `bare` takes the query
-- and the fragment off a URI, and `sign` is the HMAC of a text by a key, in base 64.
pub record Library : Type 0 where
  pub iterate : List (Text × Text) → List (Text × Text)
  pub sort : List Text → List Text
  pub escaped : Text → Text
  pub bare : Text → Text
  pub sign : Text → Text → Text

-- `g_hash_table_insert`
unfoldable pub insert : List (Text × Text) → Text → Text → List (Text × Text)
insert [] key value = (key, value) ∷ []
insert (p ∷ table) key value =
    let rest = insert table key value in if text_eq p.0 key then (p.0, value) ∷ table else p ∷ rest

abbrev pub insert_token : List (Text × Text) → Option Text → List (Text × Text)
insert_token table none = table
insert_token table (some token) = insert table (codes "oauth_token") token

-- The standard parameters, with those of the caller.
unfoldable pub all_parameters : List (Text × Text) → Text → Text → Option Text → List (Text × Text)
unfolding insert
all_parameters parameters nonce timestamp token =
    let p1 = insert parameters (codes "oauth_signature_method") (codes "HMAC-SHA1") in
    let p2 = insert p1 (codes "oauth_consumer_key") (codes "anonymous") in
    let p3 = insert p2 (codes "oauth_nonce") nonce in
    let p4 = insert p3 (codes "oauth_timestamp") timestamp in
    insert_token (insert p4 (codes "oauth_version") (codes "1.0")) token

abbrev pub or_empty : Option Text → Text
or_empty none = []
or_empty (some t) = t

-- The loop that concatenates the sorted pairs.
unfoldable pub join : Bool → List Text → Text
join is_first [] = []
join is_first (p ∷ pairs) = (if is_first then [] else codes "&") ++ (p ++ join false pairs)

module _ (library : Library) where
  unfoldable pub pair : Text × Text → Text
  pair p = library.escaped p.0 ++ (codes "=" ++ library.escaped p.1)

  -- The iteration over the table: each pair goes in front of the list.
  unfoldable pub pairs : List (Text × Text) → List Text → List Text
  unfolding pair
  pairs [] list = list
  pairs (p ∷ table) list = pairs table (pair p ∷ list)

  unfoldable pub query_string : List (Text × Text) → Text
  unfolding pairs join
  query_string parameters = join true (library.sort (pairs (library.iterate parameters) []))

  unfoldable pub signature_base_string : Text → Text → List (Text × Text) → Text
  unfolding query_string
  signature_base_string method uri parameters =
      library.escaped method
      ++ (codes "&"
          ++ (library.escaped (library.bare uri)
              ++ (codes "&" ++ library.escaped (query_string parameters))))

  abbrev pub escaped_secret : Option Text → Text
  escaped_secret none = []
  escaped_secret (some secret) = library.escaped secret

  unfoldable pub secret_string : Option Text → Text
  secret_string token_secret =
      library.escaped (codes "anonymous") ++ (codes "&" ++ escaped_secret token_secret)

  abbrev pub token_field : Option Text → Text
  token_field none = []
  token_field (some token) = 34 ∷ codes ",oauth_token=" ++ (34 ∷ library.escaped token)

  -- The header Authorization; a quotation mark is the code 34.
  unfoldable pub authorization_header : Text → Text → Text → Option Text → Text
  authorization_header signature nonce timestamp token =
      codes "OAuth oauth_consumer_key="
      ++ (34 ∷ library.escaped (codes "anonymous")
          ++ (token_field token
              ++ (34 ∷ codes ",oauth_signature_method="
                  ++ (34 ∷ library.escaped (codes "HMAC-SHA1")
                      ++ (34 ∷ codes ",oauth_signature="
                          ++ (34 ∷ library.escaped signature
                              ++ (34 ∷ codes ",oauth_timestamp="
                                  ++ (34 ∷ library.escaped timestamp
                                      ++ (34 ∷ codes ",oauth_nonce="
                                          ++ (34 ∷ library.escaped nonce
                                              ++ (34 ∷ codes ",oauth_version="
                                                  ++ (34 ∷ codes "1.0" ++ 34 ∷ []))))))))))))

  -- A message by its method and URI.
  unfoldable pub sign_message :
      Text → Text → Option Text → Option Text → List (Text × Text) → Text → Text → Text
  unfolding signature_base_string secret_string authorization_header all_parameters
  sign_message method uri token token_secret parameters nonce timestamp =
      let all = all_parameters parameters nonce timestamp token in
      let signature =
        library.sign (secret_string token_secret) (signature_base_string method uri all) in
      authorization_header signature nonce timestamp token
