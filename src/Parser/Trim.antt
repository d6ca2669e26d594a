-- ===== src/Parser/Trim.antt =====
-- `gdata_parser_utf8_trim_whitespace` of gdata/gdata-parser.c. A text is the list of its code
-- points, and a pointer into it a position; GLib's `g_unichar_isspace` is the parameter `isspace`.
pub mod Laws
use libgdata.Base.{
  ℕ, zero, suc, ◌+◌, ◌-◌, Bool, true, false, Option, none, some, List, [], ◌∷◌, Text, ◌==◌,
  if◌then◌else◌, length, take, drop, get_or,
}

-- `while (*s != '\0' && g_unichar_isspace (...)) s = g_utf8_next_char (s);`
unfoldable pub leading : (ℕ → Bool) → Text → ℕ
leading isspace [] = 0
leading isspace (c ∷ s) = if isspace c then suc (leading isspace s) else 0

-- The second loop, with `len` characters behind the pointer `s`, which stands at position `start` of
-- the text; `_s` is the last of them. `none` is a step in front of the text.
unfoldable pub backtrack : (ℕ → Bool) → ℕ → Text → ℕ → Option ℕ
backtrack isspace start s zero = some 0
backtrack isspace start s (suc len) =
    if isspace (get_or s len 0)
    then if (start + len) == 0 then none else backtrack isspace start s len
    else some (suc len)

-- The text between `s` and `_s`, once `_s` has gone one character on. Its start is `len - 1`
-- characters behind `s`, and with `len` 0 in front of it.
unfoldable pub utf8_trim_whitespace : (ℕ → Bool) → Text → Option Text
unfolding leading backtrack
utf8_trim_whitespace isspace text =
    let start = leading isspace text in
    let s = drop start text in
    let len = length s in
    if (start + len) == 0
    then none
    else elim (backtrack isspace start s len) [ none ↦ none | some n ↦ some (take n s) ]
