-- ===== src/Service/Templates.antt =====
-- What `_gdata_service_build_uri` of gdata/gdata-service.c makes of a format and its arguments, and what
-- `_gdata_service_fix_uri_scheme` keeps of a URI.
use libgdata.Base.{
  ℕ, ◌≡◌, ◌≢◌, refl, sym, ap, ◌∙◌, true, false, none, some, List, [], ◌∷◌, ◌++◌, append_assoc,
  append-nil, Text, codes, ◌==◌, Bool-cases, inl, inr, Option-cases, ne→==,
}
use libgdata.Base.Int.{ℤ}
use libgdata.Service.{◌>>=◌}
use libgdata.Service.Uris.{
  Argument, string, path, number, print_integer, append_argument, format_uri, build_uri, has_prefix,
  behind_colon, fix_uri_scheme,
}

-- A URI with holes: a character that is no `%`, an escaped text, a text as it is, an integer, and `%`.
pub data Piece : Type 0 where
  literal : (c : ℕ) → c ≢ b'%' → Piece
  escaped_text : Text → Piece
  plain_text : Text → Piece
  integer : ℤ → Piece
  percent : Piece

unfoldable pub format_of : List Piece → Text
format_of [] = []
format_of (literal c h ∷ ps) = c ∷ format_of ps
format_of (escaped_text t ∷ ps) = b'%' ∷ b's' ∷ format_of ps
format_of (plain_text t ∷ ps) = b'%' ∷ b'p' ∷ format_of ps
format_of (integer i ∷ ps) = b'%' ∷ b'd' ∷ format_of ps
format_of (percent ∷ ps) = b'%' ∷ b'%' ∷ format_of ps

unfoldable pub arguments_of : List Piece → List Argument
arguments_of [] = []
arguments_of (literal c h ∷ ps) = arguments_of ps
arguments_of (escaped_text t ∷ ps) = string t ∷ arguments_of ps
arguments_of (plain_text t ∷ ps) = path t ∷ arguments_of ps
arguments_of (integer i ∷ ps) = number i ∷ arguments_of ps
arguments_of (percent ∷ ps) = arguments_of ps

unfoldable pub render : (Text → Text) → List Piece → Text
render escaped [] = []
render escaped (literal c h ∷ ps) = c ∷ render escaped ps
render escaped (escaped_text t ∷ ps) = escaped t ++ render escaped ps
render escaped (plain_text t ∷ ps) = t ++ render escaped ps
render escaped (integer i ∷ ps) = print_integer i ++ render escaped ps
render escaped (percent ∷ ps) = b'%' ∷ render escaped ps

-- A character that is no `%` is copied.
pub format_uri-literal :
    (escaped : Text → Text) (c : ℕ) (format : Text) (args : List Argument) (out : Text)
    → (c == b'%') ≡ false
    → format_uri escaped (c ∷ format) args out ≡ format_uri escaped format args (out ++ c ∷ [])
unfolding format_uri
format_uri-literal escaped c [] args out h = rw h
format_uri-literal escaped c (d ∷ format) args out h = rw h

append_argument-percent :
    (escaped : Text → Text) (args : List Argument)
    → append_argument escaped b'%' args ≡ some (codes "%", args)
unfolding append_argument
append_argument-percent escaped [] = refl
append_argument-percent escaped (string t ∷ args) = refl
append_argument-percent escaped (path t ∷ args) = refl
append_argument-percent escaped (number i ∷ args) = refl

format_uri-render :
    (escaped : Text → Text) (ps : List Piece) (out : Text)
    → format_uri escaped (format_of ps) (arguments_of ps) out ≡ some (out ++ render escaped ps)
unfolding format_uri format_of arguments_of render append_argument
format_uri-render escaped [] out = ap (λ t. some t) (sym (append-nil out))
format_uri-render escaped (literal c h ∷ ps) out =
    format_uri-literal escaped c (format_of ps) (arguments_of ps) out (ne→== c b'%' h)
    ∙ format_uri-render escaped ps (out ++ c ∷ [])
    ∙ ap (λ t. some t) (append_assoc out (c ∷ []) (render escaped ps))
format_uri-render escaped (escaped_text t ∷ ps) out =
    format_uri-render escaped ps (out ++ escaped t)
    ∙ ap (λ t. some t) (append_assoc out (escaped t) (render escaped ps))
format_uri-render escaped (plain_text t ∷ ps) out =
    format_uri-render escaped ps (out ++ t)
    ∙ ap (λ t. some t) (append_assoc out t (render escaped ps))
format_uri-render escaped (integer i ∷ ps) out =
    format_uri-render escaped ps (out ++ print_integer i)
    ∙ ap (λ t. some t) (append_assoc out (print_integer i) (render escaped ps))
format_uri-render escaped (percent ∷ ps) out =
    ap (λ m. m >>= λ p. format_uri escaped (format_of ps) p.1 (out ++ p.0))
      (append_argument-percent escaped (arguments_of ps))
    ∙ format_uri-render escaped ps (out ++ codes "%")
    ∙ ap (λ t. some t) (append_assoc out (codes "%") (render escaped ps))

behind_colon-https : (rest : Text) → behind_colon (codes "https:" ++ rest) ≡ some rest
unfolding behind_colon
behind_colon-https rest = refl

fix_secure : (t : Text) → has_prefix t (codes "https") ≡ true → fix_uri_scheme t ≡ some (some t)
unfolding fix_uri_scheme
fix_secure [] h = cc
fix_secure (c ∷ t) h = simp h

fix_other :
    (c : ℕ) (t : Text)
    → has_prefix (c ∷ t) (codes "https") ≡ false
    → fix_uri_scheme (c ∷ t)
      ≡ (behind_colon (c ∷ t) >>= λ rest. some (some (codes "https:" ++ rest)))
unfolding fix_uri_scheme
fix_other c t h = simp h

fix_empty : fix_uri_scheme [] ≡ some none
unfolding fix_uri_scheme
fix_empty = refl

https-prefix : (rest : Text) → has_prefix (codes "https:" ++ rest) (codes "https") ≡ true
unfolding has_prefix
https-prefix rest = refl

-- A URI with its scheme fixed begins with "https", is not changed by another call, and keeps what
-- stands behind the first colon.
fix_uri_scheme_twice :
    (uri t : Text)
    → fix_uri_scheme uri ≡ some (some t)
    → (has_prefix t (codes "https") ≡ true)
      × (fix_uri_scheme t ≡ some (some t))
      × (behind_colon t ≡ behind_colon uri)
fix_uri_scheme_twice [] t h = let wrong = sym fix_empty ∙ h in cc
fix_uri_scheme_twice (c ∷ uri) t h = elim (Bool-cases (has_prefix (c ∷ uri) (codes "https"))) [
  | inl secure ↦
      let same : some (some (c ∷ uri)) ≡ some (some t) = sym (fix_secure (c ∷ uri) secure) ∙ h in
      let same' : c ∷ uri ≡ t = cc in
      let secure' = ap (λ u. has_prefix u (codes "https")) (sym same') ∙ secure in
      (secure', fix_secure t secure', ap behind_colon (sym same'))
  | inr other ↦
      let fixed = sym (fix_other c uri other) ∙ h in
      elim (Option-cases (behind_colon (c ∷ uri))) [
        | inl nothing ↦
            let wrong : none ≡ some (some t) =
              sym (ap (λ m. m >>= λ rest. some (some (codes "https:" ++ rest))) nothing) ∙ fixed in
            cc
        | inr (rest, found) ↦
            let same : some (some (codes "https:" ++ rest)) ≡ some (some t) =
              sym (ap (λ m. m >>= λ rest. some (some (codes "https:" ++ rest))) found) ∙ fixed in
            let same' : codes "https:" ++ rest ≡ t = cc in
            let secure' = ap (λ u. has_prefix u (codes "https")) (sym same') ∙ https-prefix rest in
            (
              secure',
              fix_secure t secure',
              ap behind_colon (sym same') ∙ behind_colon-https rest ∙ sym found,
            )
      ]
]

-- A URI that is built from a format and its arguments is the format with each placeholder replaced by
-- its argument, in order: `%s` by the escaped text, `%p` by the text as it is, `%d` by the number, `%%`
-- by a percent sign; where that begins with "https", it is not changed any more.
pub build_uri-render :
    (escaped : Text → Text) (ps : List Piece)
    → has_prefix (render escaped ps) (codes "https") ≡ true
    → build_uri escaped (format_of ps) (arguments_of ps) ≡ some (some (render escaped ps))
unfolding build_uri
build_uri-render escaped ps h =
    ap (λ m. m >>= λ uri. fix_uri_scheme uri) (format_uri-render escaped ps [])
    ∙ fix_secure (render escaped ps) h
