-- ===== src/Parser/Escape.antt =====
-- `gdata_parser_string_append_escaped` of gdata/gdata-parser.c. A text is the list of its code
-- points here: `p` walks from one UTF-8 character to the next.
pub mod Decode
use libgdata.Base.{
  ℕ, Bool, ◌&&◌, ◌||◌, Option, none, some, List, [], ◌∷◌, ◌++◌, Text, codes, leb, ◌==◌,
  if◌then◌else◌,
}
use libgdata.Base.Printf.{print_hex}

-- The control characters that are written as numeric references.
unfoldable pub is_control : ℕ → Bool
is_control c =
    (leb 0x1 c && leb c 0x8)
    || ((leb 0xb c && leb c 0xc)
        || ((leb 0xe c && leb c 0x1f)
            || ((leb 0x7f c && leb c 0x84) || (leb 0x86 c && leb c 0x9f))))

-- What one round of the loop appends.
unfoldable pub escape_char : ℕ → Text
escape_char c =
    if c == b'&'
    then codes "&amp;"
    else if c == b'<'
    then codes "&lt;"
    else if c == b'>'
    then codes "&gt;"
    else if c == b'\''
    then codes "&apos;"
    else if c == b'"'
    then codes "&quot;"
    else if is_control c
    then codes "&#x" ++ (print_hex c ++ codes ";")
    else c ∷ []

-- The loop, which ends at the NUL.
unfoldable pub escape_loop : Text → Text → Text
escape_loop [] out = out
escape_loop (c ∷ s) out = if c == 0 then out else escape_loop s (out ++ escape_char c)

abbrev pub or_empty : Option Text → Text
or_empty none = []
or_empty (some s) = s

-- `pre`, `element_content` and `post` may each be NULL.
unfoldable pub string_append_escaped : Text → Option Text → Option Text → Option Text → Text
unfolding escape_loop
string_append_escaped xml_string pre element_content post =
    escape_loop (or_empty element_content) (xml_string ++ or_empty pre) ++ or_empty post
