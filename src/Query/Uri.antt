-- ===== src/Query/Uri.antt =====
-- The URI under construction in the `get_query_uri` functions of the query classes: the text so
-- far, and `*params_started`. What GLib writes is a parameter, with what it documents as laws.
use libgdata.Base.{
  or_true, String, ℕ, ◌≡◌, refl, sym, ap, ◌∙◌, Bool, true, false, ◌||◌, Option, none, some, List,
  [], ◌∷◌, ◌++◌, append_assoc, append-nil, Text, codes, ltb, if◌then◌else◌, Lacks,
}
use libgdata.Base.Int.{ℤ, is_minus_one}
use libgdata.Base.Printf.{print_decimal}

pub record Uri : Type 0 where
  pub text : Text
  pub started : Bool

-- `g_string_append_uri_escaped` of a text, with the reserved characters to leave as they are (NULL
-- for none), and `g_time_val_to_iso8601` of a number of seconds.
pub record Glib : Type 0 where
  pub uri_escaped : Text → Option Text → Text
  pub iso8601 : ℤ → Text

-- An escaped text holds no reserved character but those asked for, and a time is written with
-- digits, `-`, `:`, `T` and `Z`; so neither holds the characters that cut a query into parts.
pub record IsDocumented (glib : Glib) : Type 0 where
  pub escaped_amp : (t : Text) → Lacks b'&' (glib.uri_escaped t none)
  pub escaped_question : (t : Text) → Lacks b'?' (glib.uri_escaped t none)
  pub escaped_path : (t : Text) → Lacks b'?' (glib.uri_escaped t (some (codes "/")))
  pub iso8601_amp : (t : ℤ) → Lacks b'&' (glib.iso8601 t)
  pub iso8601_question : (t : ℤ) → Lacks b'?' (glib.iso8601 t)

-- `APPEND_SEP`
unfoldable pub append_sep : Uri → Uri
append_sep u = record { text = u.text ++ (if u.started then b'&' else b'?') ∷ []; started = true }

-- `g_string_append`
unfoldable pub append : Uri → Text → Uri
append u t = record u { text = u.text ++ t }

-- The separator, and a parameter behind it.
unfoldable pub append_param : Uri → Text → Uri
unfolding append append_sep
append_param u t = append (append_sep u) t

-- Several parameters, each behind its separator.
unfoldable pub append_params : Uri → List Text → Uri
append_params u [] = u
append_params u (p ∷ ps) = append_params (append_param u p) ps

module _ (glib : Glib) where
  -- The parameters that one property makes: none where it is not set.
  abbrev pub escaped_param : String → Option Text → List Text
  escaped_param name none = []
  escaped_param name (some t) = (codes name ++ glib.uri_escaped t none) ∷ []

  abbrev pub time_param : String → ℤ → List Text
  time_param name t = if is_minus_one t then [] else (codes name ++ glib.iso8601 t) ∷ []

abbrev pub count_param : String → ℕ → List Text
count_param name n = if ltb 0 n then (codes name ++ print_decimal n) ∷ [] else []

abbrev pub flag_param : String → Bool → List Text
flag_param text b = if b then codes text ∷ [] else []

abbrev pub choice_param : String → String → Bool → List Text
choice_param on off true = codes on ∷ []
choice_param on off false = codes off ∷ []

-- The query part of a URI with these parameters; `started` says whether it has some already.
unfoldable pub render : Bool → List Text → Text
render started [] = []
render true (p ∷ ps) = b'&' ∷ (p ++ render true ps)
render false (p ∷ ps) = b'?' ∷ (p ++ render true ps)

pub append_params-append :
    (u : Uri) (ps qs : List Text)
    → append_params (append_params u ps) qs ≡ append_params u (ps ++ qs)
unfolding append_params
append_params-append u [] qs = refl
append_params-append u (p ∷ ps) qs = append_params-append (append_param u p) ps qs

abbrev pub some_param : List Text → Bool
some_param [] = false
some_param (p ∷ ps) = true

render-nil : (started : Bool) → [] ≡ render started []
unfolding render
render-nil true = refl
render-nil false = refl

render-cons :
    (started : Bool) (p : Text) (ps : List Text)
    → render started (p ∷ ps) ≡ (if started then b'&' else b'?') ∷ (p ++ render true ps)
unfolding render
render-cons true p ps = refl
render-cons false p ps = refl

or_false : (b : Bool) → b ≡ (b || false)
or_false true = refl
or_false false = refl

text_cons :
    (t : Text) (started : Bool) (p : Text) (ps : List Text)
    → ((t ++ (if started then b'&' else b'?') ∷ []) ++ p) ++ render true ps
      ≡ t ++ render started (p ∷ ps)
text_cons t started p ps = rw render-cons (simp append_assoc)

-- The parameters stand behind what was there, the first behind `?` unless the query had started.
pub append_params-render :
    (u : Uri) (ps : List Text)
    → append_params u ps
      ≡ record { text = u.text ++ render u.started ps; started = u.started || some_param ps }
unfolding append_params append_param append_sep append
append_params-render u [] = λ i. record { text = nothing i; started = or_false u.started i }
  where
    nothing : u.text ≡ u.text ++ render u.started []
    nothing = sym (append-nil u.text) ∙ ap (λ t. u.text ++ t) (render-nil u.started)
append_params-render u (p ∷ ps) = append_params-render (append_param u p) ps ∙ λ i. record {
  text = text_cons u.text u.started p ps i;
  started = sym (or_true u.started) i;
}
