-- ===== src/Oauth1/Order.antt =====
-- The signature of gdata/gdata-oauth1-authorizer.c and the order in which a hash table gives its
-- entries.
use libgdata.Base.{
  ℕ, ◌+◌, ◌≡◌, refl, sym, ap, ◌∙◌, true, Option, List, [], ◌∷◌, ◌++◌, codes, Text, text_eq,
  Bool-cases, inl, inr, arith, if◌then◌else◌,
}
use libgdata.Oauth1.{
  Library, pair, pairs, query_string, signature_base_string, all_parameters, secret_string,
  authorization_header, sign_message, join,
}
use libgdata.Oauth1.Sorting.{IsSorted, count, sorted_unique}

-- `g_list_sort` with `g_strcmp0` sorts a list, and neither adds to it nor takes from it.
pub record IsDocumented (library : Library) : Type 0 where
  pub sorted : (list : List Text) → IsSorted (library.sort list)
  pub kept : (list : List Text) (t : Text) → count t (library.sort list) ≡ count t list

-- The same entries in another order.
pub data Rearranged : List (Text × Text) → List (Text × Text) → Type 0 where
  nil : Rearranged [] []
  cons : (p : Text × Text) (t u : List (Text × Text)) → Rearranged t u → Rearranged (p ∷ t) (p ∷ u)
  swap : (p q : Text × Text) (t : List (Text × Text)) → Rearranged (p ∷ q ∷ t) (q ∷ p ∷ t)
  trans : (t u v : List (Text × Text)) → Rearranged t u → Rearranged u v → Rearranged t v

module _ (library : Library) where
  -- What one pair adds to a count.
  abbrev one : Text → Text × Text → ℕ
  one r p = if text_eq r (pair library p) then 1 else 0

  ones : Text → List (Text × Text) → ℕ
  ones r [] = 0
  ones r (p ∷ table) = one r p + ones r table

  count-pairs :
      (r : Text) (table : List (Text × Text)) (list : List Text)
      → count r (pairs library table list) ≡ ones r table + count r list
  unfolding pairs ones count
  count-pairs r [] list = omega arith
  count-pairs r (p ∷ table) list =
      let ih = count-pairs r table (pair library p ∷ list) in
      let here : count r (pair library p ∷ list) ≡ one r p + count r list =
        elim (Bool-cases (text_eq r (pair library p))) [
          | inl same ↦ rw same (omega arith)
          | inr other ↦ rw other (omega arith)
        ] in
      omega arith

  ones-Rearranged : (r : Text) {t u : List (Text × Text)} → Rearranged t u → ones r t ≡ ones r u
  unfolding ones
  ones-Rearranged r nil = refl
  ones-Rearranged r (cons p t u rest) = let ih = ones-Rearranged r rest in omega arith
  ones-Rearranged r (swap p q t) = omega arith
  ones-Rearranged r (trans t u v first second) = ones-Rearranged r first ∙ ones-Rearranged r second

  query_string-Rearranged :
      (iterate : List (Text × Text) → List (Text × Text)) (table : List (Text × Text))
      → IsDocumented library
      → Rearranged (iterate table) (library.iterate table)
      → query_string (record library { iterate = iterate }) table ≡ query_string library table
  unfolding query_string count
  query_string-Rearranged iterate table d same = ap (join true) (
      sorted_unique _ _ (d.sorted _) (d.sorted _) (λ r.
        d.kept (pairs library (iterate table) []) r
        ∙ count-pairs r (iterate table) []
        ∙ ap (λ n. n + 0) (ones-Rearranged r same)
        ∙ sym (count-pairs r (library.iterate table) [])
        ∙ sym (d.kept (pairs library (library.iterate table) []) r)))

  -- A message gets the same signature and the same header whatever the order in which the hash table
  -- gives the parameters.
  pub sign_message-Rearranged :
      (iterate : List (Text × Text) → List (Text × Text)) (method uri : Text)
      (token token_secret : Option Text) (parameters : List (Text × Text)) (nonce timestamp : Text)
      → IsDocumented library
      → ((table : List (Text × Text)) → Rearranged (iterate table) (library.iterate table))
      → sign_message
          (record library { iterate = iterate })
          method
          uri
          token
          token_secret
          parameters
          nonce
          timestamp
        ≡ sign_message library method uri token token_secret parameters nonce timestamp
  unfolding sign_message signature_base_string secret_string authorization_header
  sign_message-Rearranged iterate method uri token token_secret parameters nonce timestamp d same =
      let all = all_parameters parameters nonce timestamp token in
      ap
        (λ q.
          authorization_header library
            (library.sign (secret_string library token_secret) (
              library.escaped method
              ++ (codes "&"
                  ++ (library.escaped (library.bare uri) ++ (codes "&" ++ library.escaped q)))))
            nonce timestamp token)
        (query_string-Rearranged iterate all d (same all))
