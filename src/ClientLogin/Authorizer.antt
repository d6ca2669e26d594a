-- ===== src/ClientLogin/Authorizer.antt =====
-- `authenticate_loop` of gdata/gdata-client-login-authorizer.c, and the tokens that it leaves.
use libgdata.Base.{
  ℕ, Bool, true, false, ◌||◌, Option, none, some, List, [], ◌∷◌, ◌++◌, Text, codes, ◌==◌,
  if◌then◌else◌, ◌⊎◌, inl, inr,
}
use libgdata.ClientLogin.Answers.{LoginError, Turn, Login, authenticate}

-- `auth_tokens` is the hash table from domains to tokens, in the order of its iteration.
pub record Authorizer : Type 0 where
  pub username : Option Text
  pub password : Option Text
  pub auth_tokens : List (ℕ × Option Text)

-- The variables of the loop: `cumulative_success`, `*error` and `new_auth_tokens`.
pub record LoopState : Type 0 where
  pub success : Bool
  pub error : Option LoginError
  pub new_auth_tokens : List (ℕ × Option Text)

-- One round: only the first error is handed on.
unfoldable pub add_result : ℕ → Text ⊎ LoginError → LoopState → LoopState
add_result domain (inl token) s = record s {
  new_auth_tokens = s.new_auth_tokens ++ (domain, some token) ∷ [];
}
add_result domain (inr e) s = record {
  success = false;
  error = if s.success then some e else s.error;
  new_auth_tokens = s.new_auth_tokens ++ (domain, none) ∷ [];
}

abbrev pub is_at : ℕ → Bool
is_at c = c == 64

unfoldable pub has_at : Text → Bool
has_at [] = false
has_at (c ∷ t) = let rest = has_at t in is_at c || rest

-- The user name as a full address.
unfoldable pub full_address : Option Text → Option Text
unfolding has_at
full_address none = none
full_address (some name) = if has_at name then some name else some (name ++ codes "@gmail.com")

unfoldable pub clear_tokens : List (ℕ × Option Text) → List (ℕ × Option Text)
clear_tokens [] = []
clear_tokens (d ∷ ds) = (d.0, none) ∷ clear_tokens ds

-- `set_authentication_details`; without new tokens the domains stay and lose theirs.
unfoldable pub set_authentication_details :
    Option Text → Option Text → Option (List (ℕ × Option Text)) → Authorizer → Authorizer
unfolding full_address clear_tokens
set_authentication_details username password none self = record {
  username = full_address username;
  password = password;
  auth_tokens = clear_tokens self.auth_tokens;
}
set_authentication_details username password (some tokens) self = record {
  username = full_address username;
  password = password;
  auth_tokens = tokens;
}

-- `g_hash_table_lookup`
unfoldable pub lookup : ℕ → List (ℕ × Option Text) → Option Text
lookup domain [] = none
lookup domain (d ∷ ds) = let rest = lookup domain ds in if domain == d.0 then d.1 else rest

abbrev pub is_some : Option Text → Bool
is_some none = false
is_some (some t) = true

unfoldable pub is_authorized_for_domain : ℕ → Authorizer → Bool
unfolding lookup
is_authorized_for_domain domain self = is_some (lookup domain self.auth_tokens)

-- The header of a message by its token; `is_https` says whether the message's URI has that scheme.
unfoldable pub header_for : Bool → Option Text → Option Text
header_for is_https none = none
header_for is_https (some token) =
    if is_https then some (codes "GoogleLogin auth=" ++ token) else none

-- `process_request`: the header Authorization that it sets, if it sets one.
unfoldable pub process_request : Option ℕ → Bool → Authorizer → Option Text
unfolding lookup header_for
process_request none is_https self = none
process_request (some domain) is_https self = header_for is_https (lookup domain self.auth_tokens)

abbrev pub and_then : Option LoopState → (LoopState → Option LoopState) → Option LoopState
and_then none f = none
and_then (some s) f = f s

unfoldable pub next_login : ℕ → Option Login → LoopState → Option LoopState
unfolding add_result
next_login domain none s = none
next_login domain (some l) s = some (add_result domain l.result s)

-- `turns` is what is answered to the login for a domain.
module _ (turns : ℕ → List Turn) where
  unfoldable pub login_all : List (ℕ × Option Text) → LoopState → Option LoopState
  login_all [] s = some s
  login_all (d ∷ ds) s = and_then (next_login d.0 (authenticate none (turns d.0)) s) (login_all ds)

  abbrev pub finish_loop : Text → Text → Authorizer → LoopState → Authorizer
  finish_loop username password self s =
      if s.success
      then set_authentication_details (some username) (some password) (some s.new_auth_tokens) self
      else set_authentication_details none none none self

  -- `authenticate_loop`: whether it succeeds, its error, and the authorizer.
  unfoldable pub authenticate_loop :
      Text → Text → Authorizer → Option (Bool × Option LoginError × Authorizer)
  authenticate_loop username password self =
      elim (login_all self.auth_tokens
        (record { success = true; error = none; new_auth_tokens = [] })) [
          | none ↦ none
          | some s ↦ some (s.success, s.error, finish_loop username password self s)
        ]
