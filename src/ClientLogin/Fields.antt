-- ===== src/ClientLogin/Fields.antt =====
-- The lines `Name=value` of the bodies that gdata/gdata-client-login-authorizer.c reads. A body is a C
-- string, without a NUL.
use libgdata.Base.{
  ℕ, Bool, true, false, ◌&&◌, Option, none, some, [], ◌∷◌, Text, ◌==◌, if◌then◌else◌,
}

-- `strstr` at one position: what follows `needle` there.
unfoldable pub strip : Text → Text → Option Text
strip [] t = some t
strip (n ∷ needle) [] = none
strip (n ∷ needle) (c ∷ t) = let rest = strip needle t in if n == c then rest else none

abbrev pub or_later : Option Text → Option Text → Option Text
or_later none later = later
or_later (some rest) later = some rest

-- `strstr (t, needle) + strlen (needle)`
unfoldable pub after : Text → Text → Option Text
unfolding strip
after needle [] = strip needle []
after needle (c ∷ t) = or_later (strip needle (c ∷ t)) (after needle t)

abbrev pub with_first : ℕ → Option Text → Option Text
with_first c none = none
with_first c (some t) = some (c ∷ t)

-- The text in front of `strstr (t, "\n")`.
unfoldable pub line : Text → Option Text
line [] = none
line (c ∷ t) = let rest = line t in if c == 10 then some [] else with_first c rest

abbrev pub bind : Option Text → (Text → Option Text) → Option Text
bind none f = none
bind (some t) f = f t

-- The value behind `name`, up to the end of its line.
unfoldable pub field : Text → Text → Option Text
unfolding after line
field name body = bind (after name body) line

-- `strncmp (value, name, strlen (value)) == 0`
unfoldable pub strncmp : Text → Text → Bool
strncmp [] name = true
strncmp (c ∷ value) [] = false
strncmp (c ∷ value) (n ∷ name) = let rest = strncmp value name in (c == n) && rest
