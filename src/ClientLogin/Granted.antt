-- ===== src/ClientLogin/Granted.antt =====
-- `authenticate_loop` of gdata/gdata-client-login-authorizer.c: which domains are authorized after it.
use libgdata.Base.{
  ℕ, ◌≡◌, refl, ap, ◌∙◌, Bool, true, false, Option, none, some, List, [], ◌∷◌, ◌++◌, append_assoc,
  append-nil, Text, ◌==◌, ◌⊎◌, inl, inr, Bool-cases,
}
use libgdata.ClientLogin.Answers.{LoginError, Turn, Login, authenticate}
use libgdata.ClientLogin.Authorizer.{
  is_some, is_authorized_for_domain, header_for, process_request, Authorizer, LoopState, add_result,
  full_address, clear_tokens, set_authentication_details, lookup, and_then, next_login, login_all,
  finish_loop, authenticate_loop,
}

abbrev Tokens : Type 0
Tokens = List (ℕ × Option Text)

-- The domains, without their tokens.
unfoldable pub domains : Tokens → List ℕ
domains [] = []
domains (d ∷ ds) = d.0 ∷ domains ds

-- The login for each domain has come to a token, and this stands beside the domain.
abbrev pub AllGranted : (ℕ → List Turn) → Tokens → Tokens → Type 0
AllGranted turns [] granted = granted ≡ []
AllGranted turns (d ∷ ds) [] = ⊥
AllGranted turns (d ∷ ds) (g ∷ gs) =
    ((l : Login) × (t : Text) × (authenticate none (turns d.0) ≡ some l)
      × (l.result ≡ inl t)
      × (g ≡ (d.0, some t)))
    × AllGranted turns ds gs

-- `e` is the error of the first domain whose login fails.
pub data FirstError (turns : ℕ → List Turn) (e : LoginError) : Tokens → Type 0 where
  here :
      (d : ℕ × Option Text) (ds : Tokens) (l : Login)
      → authenticate none (turns d.0) ≡ some l
      → l.result ≡ inr e
      → FirstError turns e (d ∷ ds)
  later :
      (d : ℕ × Option Text) (ds : Tokens) (l : Login) (t : Text)
      → authenticate none (turns d.0) ≡ some l
      → l.result ≡ inl t
      → FirstError turns e ds
      → FirstError turns e (d ∷ ds)

Result-cases :
    (r : Text ⊎ LoginError) → ((t : Text) × (r ≡ inl t)) ⊎ ((e : LoginError) × (r ≡ inr e))
Result-cases (inl t) = inl (t, refl)
Result-cases (inr e) = inr (e, refl)

-- Each login is answered to its end.
abbrev pub AllAnswered : (ℕ → List Turn) → Tokens → Type 0
AllAnswered turns [] = Unit
AllAnswered turns (d ∷ ds) =
    ((l : Login) × (authenticate none (turns d.0) ≡ some l)) × AllAnswered turns ds

module _ (turns : ℕ → List Turn) where
  -- How the rounds for `ds` come out, where no login has failed before.
  data Rounds (ds before : Tokens) : Option LoopState → Type 0 where
    all_granted :
        (new : Tokens)
        → AllGranted turns ds new
        → Rounds ds before
            (some (record { success = true; error = none; new_auth_tokens = before ++ new }))
    one_failed :
        (e : LoginError) (new : Tokens)
        → FirstError turns e ds
        → Rounds ds before
            (some (record { success = false; error = some e; new_auth_tokens = new }))

  login_all-cons :
      (d : ℕ × Option Text) (ds : Tokens) (s : LoopState) (l : Login) (r : Text ⊎ LoginError)
      → authenticate none (turns d.0) ≡ some l
      → l.result ≡ r
      → login_all turns (d ∷ ds) s ≡ login_all turns ds (add_result d.0 r s)
  unfolding login_all next_login
  login_all-cons d ds s l r run result =
      ap (λ o. and_then (next_login d.0 o s) (login_all turns ds)) run
      ∙ ap (λ t. login_all turns ds (add_result d.0 t s)) result

  -- Behind the first error nothing changes but the tokens, which are not kept.
  login_all-failed :
      (ds tokens : Tokens) (e : Option LoginError)
      → AllAnswered turns ds
      → (new : Tokens) × (login_all turns ds
            (record { success = false; error = e; new_auth_tokens = tokens })
          ≡ some (record { success = false; error = e; new_auth_tokens = new }))
  unfolding login_all add_result
  login_all-failed [] tokens e answered = (tokens, refl)
  login_all-failed (d ∷ ds) tokens e ((l, run), answered) =
      let s : LoopState = record { success = false; error = e; new_auth_tokens = tokens } in
      elim (Result-cases l.result) [
        | inl (t, granted) ↦
            let (new, ih) = login_all-failed ds (tokens ++ (d.0, some t) ∷ []) e answered in
            (new, login_all-cons d ds s l (inl t) run granted ∙ ih)
        | inr (e', denied) ↦
            let (new, ih) = login_all-failed ds (tokens ++ (d.0, none) ∷ []) e answered in
            (new, login_all-cons d ds s l (inr e') run denied ∙ ih)
      ]

  Rounds-later :
      (d : ℕ × Option Text) (ds before : Tokens) (l : Login) (t : Text)
      → authenticate none (turns d.0) ≡ some l
      → l.result ≡ inl t
      → {x : Option LoopState} → Rounds ds (before ++ (d.0, some t) ∷ []) x
      → Rounds (d ∷ ds) before x
  Rounds-later d ds before l t run granted (all_granted new rest) =
      rw (append_assoc before ((d.0, some t) ∷ []) new)
        (all_granted ((d.0, some t) ∷ new) ((l, t, run, granted, refl), rest))
  Rounds-later d ds before l t run granted (one_failed e new rest) =
      one_failed e new (later d ds l t run granted rest)

  login_all-Rounds :
      (ds before : Tokens)
      → AllAnswered turns ds
      → Rounds ds before
          (login_all turns ds (record { success = true; error = none; new_auth_tokens = before }))
  unfolding login_all add_result
  login_all-Rounds [] before answered = nothing_left
    where
      rounds_nil :
          Rounds [] before
            (some (record { success = true; error = none; new_auth_tokens = before ++ [] }))
      rounds_nil = all_granted [] refl

      nothing_left :
          Rounds [] before
            (some (record { success = true; error = none; new_auth_tokens = before }))
      nothing_left = rw (append-nil before) at (rounds_nil)
  login_all-Rounds (d ∷ ds) before ((l, run), answered) =
      let s : LoopState = record { success = true; error = none; new_auth_tokens = before } in
      elim (Result-cases l.result) [
        | inl (t, granted) ↦ rw (login_all-cons d ds s l (inl t) run granted) (
            Rounds-later d ds before l t run granted
              (login_all-Rounds ds (before ++ (d.0, some t) ∷ []) answered))
        | inr (e, denied) ↦
            let (new, ih) = login_all-failed ds (before ++ (d.0, none) ∷ []) (some e) answered in
            rw (login_all-cons d ds s l (inr e) run denied ∙ ih)
              (one_failed e new (here d ds l run denied))
      ]

  lookup-clear_tokens : (domain : ℕ) (ds : Tokens) → lookup domain (clear_tokens ds) ≡ none
  unfolding lookup clear_tokens
  lookup-clear_tokens domain [] = refl
  lookup-clear_tokens domain (d ∷ ds) = elim (Bool-cases (domain == d.0)) [
    | inl same ↦ rw same refl
    | inr other ↦ rw other (lookup-clear_tokens domain ds)
  ]

  domains-clear_tokens : (ds : Tokens) → domains (clear_tokens ds) ≡ domains ds
  unfolding domains clear_tokens
  domains-clear_tokens [] = refl
  domains-clear_tokens (d ∷ ds) = ap (λ t. d.0 ∷ t) (domains-clear_tokens ds)

  module _ (username password : Text) (self : Authorizer) where
    -- What the loop makes of the authorizer.
    pub data LoopResult : Option (Bool × Option LoginError × Authorizer) → Type 0 where
      authorized :
          (self' : Authorizer)
          → self'.username ≡ full_address (some username)
          → self'.password ≡ some password
          → AllGranted turns self.auth_tokens self'.auth_tokens
          → LoopResult (some (true, none, self'))
      denied_all :
          (e : LoginError) (self' : Authorizer)
          → FirstError turns e self.auth_tokens
          → self'.username ≡ none
          → self'.password ≡ none
          → domains self'.auth_tokens ≡ domains self.auth_tokens
          → ((domain : ℕ) → is_authorized_for_domain domain self' ≡ false)
          → ((domain : Option ℕ) (is_https : Bool) → process_request domain is_https self' ≡ none)
          → LoopResult (some (false, some e, self'))

    Rounds-LoopResult :
        {x : Option LoopState}
        → Rounds self.auth_tokens [] x
        → LoopResult (elim x [
          | none ↦ none
          | some s ↦ some (s.success, s.error, finish_loop turns username password self s)
        ])
    unfolding set_authentication_details full_address is_authorized_for_domain process_request
        header_for
    Rounds-LoopResult (all_granted new granted) = authorized _ refl refl granted
    Rounds-LoopResult (one_failed e new first) =
        denied_all e _ first refl refl (domains-clear_tokens self.auth_tokens)
          (λ domain. ap is_some (lookup-clear_tokens domain self.auth_tokens)) no_header
      where
        no_header :
            (domain : Option ℕ) (is_https : Bool)
            → process_request domain is_https (set_authentication_details none none none self)
              ≡ none
        no_header none is_https = refl
        no_header (some domain) is_https =
            ap (header_for is_https) (lookup-clear_tokens domain self.auth_tokens)

    -- Where every login is answered to its end, the loop returns. If each comes to a token, it
    -- succeeds, and the authorizer has exactly those tokens, with the user name as a full address and
    -- the password. If one does not, the loop fails with the error of the first such domain; the user
    -- name and the password are unset, the domains stay, and none of them is authorized, nor
    -- does any message get a header, not even for a domain whose login came to a token.
    pub authenticate_loop-LoopResult :
        AllAnswered turns self.auth_tokens
        → LoopResult (authenticate_loop turns username password self)
    unfolding authenticate_loop
    authenticate_loop-LoopResult answered =
        Rounds-LoopResult (login_all-Rounds self.auth_tokens [] answered)
