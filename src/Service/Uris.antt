-- ===== src/Service/Uris.antt =====
-- `_gdata_service_fix_uri_scheme` and `_gdata_service_build_uri` of gdata/gdata-service.c. A failed
-- assertion, and a placeholder that is not known, end the program: they are `none`. A text is its bytes.
use libgdata.Base.{
  ℕ, ◌+◌, Bool, true, false, ◌&&◌, Option, none, some, List, [], ◌∷◌, ◌++◌, Text, codes, ◌==◌,
  if◌then◌else◌,
}
use libgdata.Base.Int.{ℤ, pos, negsuc}
use libgdata.Base.Printf.{print_decimal}
use libgdata.Service.{◌>>=◌}

-- `g_str_has_prefix`
unfoldable pub has_prefix : Text → Text → Bool
has_prefix t [] = true
has_prefix [] (p ∷ prefix) = false
has_prefix (c ∷ t) (p ∷ prefix) = (c == p) && has_prefix t prefix

-- What `g_strsplit (uri, ":", 2)` leaves behind the first colon, if there is one.
unfoldable pub behind_colon : Text → Option Text
behind_colon [] = none
behind_colon (c ∷ t) = let rest = behind_colon t in if c == b':' then some t else rest

abbrev pub is_empty : Text → Bool
is_empty [] = true
is_empty (c ∷ t) = false

-- `_gdata_service_fix_uri_scheme`; an empty URI is refused by a `g_return_val_if_fail`, which gives
-- NULL.
unfoldable pub fix_uri_scheme : Text → Option (Option Text)
unfolding has_prefix behind_colon
fix_uri_scheme uri =
    if is_empty uri
    then some none
    else if has_prefix uri (codes "https")
    then some (some uri)
    else (behind_colon uri >>= λ rest. some (some (codes "https:" ++ rest)))

-- The arguments of `_gdata_service_build_uri`, read by `%s`, `%p` and `%d`.
pub data Argument : Type 0 where
  string : Text → Argument
  path : Text → Argument
  number : ℤ → Argument

-- `%d`
unfoldable pub print_integer : ℤ → Text
print_integer (pos n) = print_decimal n
print_integer (negsuc n) = b'-' ∷ print_decimal (n + 1)

-- What a placeholder appends, with the arguments behind it. An argument that `va_arg` reads as another
-- type, or that is missing, is undefined in C, and `none` here.
unfoldable pub append_argument : (Text → Text) → ℕ → List Argument → Option (Text × List Argument)
unfolding print_integer
append_argument escaped c [] = if c == b'%' then some (codes "%", []) else none
append_argument escaped c (string t ∷ args) =
    if c == b's'
    then some (escaped t, args)
    else if c == b'%'
    then some (codes "%", string t ∷ args)
    else none
append_argument escaped c (path t ∷ args) =
    if c == b'p'
    then some (t, args)
    else if c == b'%'
    then some (codes "%", path t ∷ args)
    else none
append_argument escaped c (number i ∷ args) =
    if c == b'd'
    then some (print_integer i, args)
    else if c == b'%'
    then some (codes "%", number i ∷ args)
    else none

-- The loop over the format; `escaped` is `g_string_append_uri_escaped`.
unfoldable pub format_uri : (Text → Text) → Text → List Argument → Text → Option Text
unfolding append_argument
format_uri escaped [] args out = some out
format_uri escaped (c ∷ []) args out = if c == b'%' then none else some (out ++ c ∷ [])
format_uri escaped (c ∷ d ∷ format) args out =
    let copied = format_uri escaped (d ∷ format) args (out ++ c ∷ []) in
    let replaced =
      append_argument escaped d args >>= λ p. format_uri escaped format p.1 (out ++ p.0) in
    if c == b'%' then replaced else copied

-- `_gdata_service_build_uri`
unfoldable pub build_uri : (Text → Text) → Text → List Argument → Option (Option Text)
unfolding format_uri
build_uri escaped format args = format_uri escaped format args [] >>= λ uri. fix_uri_scheme uri
