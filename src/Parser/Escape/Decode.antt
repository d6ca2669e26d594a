-- ===== src/Parser/Escape/Decode.antt =====
-- A reader of the content of an element, as XML 1.1 has it, independent of gdata/gdata-parser.c, and the
-- proof that it gives an escaped text back.
use libgdata.Base.{
  ℕ, ◌+◌, ◌-◌, ◌*◌, ◌/◌, ◌%◌, ◌<◌, ◌≡◌, ◌≢◌, refl, sym, ap, ◌∙◌, Bool, true, false, ◌&&◌, ◌||◌,
  Option, none, some, [], ◌∷◌, ◌++◌, append_assoc, append-nil, Text, codes, leb, ltb, ◌==◌, text_eq,
  if◌then◌else◌, Lacks, All, not, Bool-cases, inl, inr, ==_iff, ne→==, ltb→lt, arith,
}
use mathlib.Core.Option
use libgdata.Base.Printf.{hex_digit, print_hex, print_hex_one, print_hex_two}
use libgdata.Parser.Escape.{is_control, escape_char, escape_loop, or_empty, string_append_escaped}

-- The reader is in plain text, or behind an `&` with the part of a reference that it has read.
pub data Mode : Type 0 where
  plain : Mode
  reference : Text → Mode

hex_digit_value : ℕ → Option ℕ
hex_digit_value c =
    if leb b'0' c && leb c b'9'
    then some (c - b'0')
    else if leb b'a' c && leb c b'f'
    then some (c - b'a' + 10)
    else none

-- The number that hexadecimal digits spell behind `n`.
hex_number : Text → ℕ → Option ℕ
hex_number [] n = some n
hex_number (c ∷ s) n = elim (hex_digit_value c) [ none ↦ none | some d ↦ hex_number s (n * 16 + d) ]

numeric : Text → Option ℕ
numeric [] = none
numeric (c ∷ []) = none
numeric (c ∷ d ∷ s) = if (c == b'#') && (d == b'x') then hex_number s 0 else none

-- The character that a reference stands for: the five names of XML, and hexadecimal numbers.
resolve : Text → Option ℕ
unfolding text_eq numeric hex_number hex_digit_value
resolve name =
    if text_eq name (codes "amp")
    then some b'&'
    else if text_eq name (codes "lt")
    then some b'<'
    else if text_eq name (codes "gt")
    then some b'>'
    else if text_eq name (codes "apos")
    then some b'\''
    else if text_eq name (codes "quot")
    then some b'"'
    else numeric name

-- The characters that may not stand in the text of an element or of an attribute.
abbrev is_markup : ℕ → Bool
is_markup c = (c == b'<') || ((c == b'>') || ((c == b'\'') || (c == b'"')))

-- XML's restricted characters, which may stand in a document as references only: the controls but for
-- the tab and the ends of lines. NUL may not stand there at all.
abbrev is_restricted : ℕ → Bool
is_restricted c =
    (ltb c 0x20 && not ((c == 0x9) || ((c == 0xa) || (c == 0xd))))
    || ((leb 0x7f c && leb c 0x9f) && not (c == 0x85))

-- The ends of lines that a reader of XML hands on as a line feed.
abbrev pub is_line_end : ℕ → Bool
is_line_end c = (c == 0xd) || ((c == 0x85) || (c == 0x2028))

-- What may not stand for itself.
abbrev is_refused : ℕ → Bool
is_refused c = is_markup c || (is_restricted c || is_line_end c)

-- The text that stands for an XML content; `none` if a character stands in it that may not, or that is
-- not handed on as it is, or if a reference is unknown or not finished.
pub read_content : Mode → Text → Option Text
unfolding resolve
read_content plain [] = some []
read_content (reference name) [] = none
read_content plain (c ∷ s) = elim (c == b'&') [
  | true ↦ read_content (reference []) s
  | false ↦ elim (is_refused c) [
    | true ↦ none
    | false ↦ Option.map (λ t. c ∷ t) (read_content plain s)
  ]
]
read_content (reference name) (c ∷ s) = elim (c == b';') [
  | true ↦ elim (resolve name) [
    | none ↦ none
    | some d ↦ Option.map (λ t. d ∷ t) (read_content plain s)
  ]
  | false ↦ read_content (reference (name ++ c ∷ [])) s
]

hex_digit-ne-semicolon : (d : ℕ) → d < 16 → (hex_digit d == b';') ≡ false
unfolding hex_digit
hex_digit-ne-semicolon d h = ground arith

hex_digit_value-hex_digit : (d : ℕ) → d < 16 → hex_digit_value (hex_digit d) ≡ some d
unfolding hex_digit hex_digit_value
hex_digit_value-hex_digit d h = ground arith

-- The reader goes over a character that does not end the reference.
read-inside :
    (name : Text) (c : ℕ) (s : Text)
    → (c == b';') ≡ false
    → read_content (reference name) (c ∷ s) ≡ read_content (reference (name ++ c ∷ [])) s
unfolding read_content
read-inside name c s h = ground arith

read-end :
    (name : Text) (d : ℕ) (s : Text)
    → resolve name ≡ some d
    → read_content (reference name) (b';' ∷ s) ≡ Option.map (λ t. d ∷ t) (read_content plain s)
unfolding read_content
read-end name d s h = ground arith

resolve_one : (d : ℕ) → d < 16 → resolve (codes "#x" ++ hex_digit d ∷ []) ≡ some d
unfolding resolve
resolve_one d h = rw (hex_digit_value-hex_digit d h, hex_number) (ground arith)

resolve_two :
    (d e : ℕ)
    → d < 16
    → e < 16
    → resolve (codes "#x" ++ hex_digit d ∷ hex_digit e ∷ []) ≡ some (d * 16 + e)
unfolding resolve
resolve_two d e h k = ground (arith, hex_digit_value-hex_digit d h, hex_digit_value-hex_digit e k)

is_control-lt : (c : ℕ) → is_control c ≡ true → c < 256
unfolding is_control
is_control-lt c h = ground arith

-- The characters that are not controls, and have no name, stand for themselves.
module _ (c : ℕ) (rest : Text) where
  read-named :
      (d : ℕ)
      → read_content plain (escape_char d ++ rest)
        ≡ Option.map (λ t. d ∷ t) (read_content plain rest)
      → (c == d) ≡ true
      → read_content plain (escape_char c ++ rest)
        ≡ Option.map (λ t. c ∷ t) (read_content plain rest)
  read-named d h e = rw ((==_iff c d).0 e) h

  read-control :
      is_control c ≡ true
      → read_content plain (codes "&#x" ++ (print_hex c ++ codes ";") ++ rest)
        ≡ Option.map (λ t. c ∷ t) (read_content plain rest)
  unfolding read_content is_control
  read-control h = elim (Bool-cases (ltb c 16)) [
    | inl one ↦
        let small = ltb→lt c 16 one in
        rw (print_hex_one c small) (
          read-inside (codes "#x") (hex_digit c) (b';' ∷ rest) (hex_digit-ne-semicolon c small)
          ∙ read-end (codes "#x" ++ hex_digit c ∷ []) c rest (resolve_one c small))
    | inr two ↦
        let high : c / 16 < 16 = omega (arith, is_control-lt c h) in
        let low : c % 16 < 16 = omega arith in
        let whole : c / 16 * 16 + c % 16 ≡ c = omega arith in
        rw (print_hex_two c two (is_control-lt c h)) (
          read-inside (codes "#x") (hex_digit (c / 16)) (hex_digit (c % 16) ∷ b';' ∷ rest)
            (hex_digit-ne-semicolon (c / 16) high)
          ∙ read-inside (codes "#x" ++ hex_digit (c / 16) ∷ []) (hex_digit (c % 16)) (b';' ∷ rest)
              (hex_digit-ne-semicolon (c % 16) low)
          ∙ read-end (codes "#x" ++ hex_digit (c / 16) ∷ hex_digit (c % 16) ∷ []) c rest
              (resolve_two (c / 16) (c % 16) high low ∙ ap some whole))
  ]

  read-plain :
      (c == b'&') ≡ false
      → is_refused c ≡ false
      → read_content plain (c ∷ rest) ≡ Option.map (λ t. c ∷ t) (read_content plain rest)
  unfolding read_content
  read-plain e f = ground arith

-- A character that is not escaped may stand for itself.
is_refused-not :
    (c : ℕ)
    → c ≢ 0
    → is_line_end c ≡ false
    → (c == b'<') ≡ false
    → (c == b'>') ≡ false
    → (c == b'\'') ≡ false
    → (c == b'"') ≡ false
    → is_control c ≡ false
    → is_refused c ≡ false
unfolding is_control
is_refused-not c nonzero same_line n2 n3 n4 n5 n6 = ground arith

-- One character, escaped, is read back.
read-escape_char :
    (c : ℕ) (rest : Text)
    → c ≢ 0
    → is_line_end c ≡ false
    → read_content plain (escape_char c ++ rest) ≡ Option.map (λ t. c ∷ t) (read_content plain rest)
unfolding escape_char read_content
read-escape_char c rest nonzero same_line = elim (Bool-cases (c == b'&')) [
  | inl e ↦ read-named c rest b'&' refl e
  | inr n1 ↦ elim (Bool-cases (c == b'<')) [
    | inl e ↦ read-named c rest b'<' refl e
    | inr n2 ↦ elim (Bool-cases (c == b'>')) [
      | inl e ↦ read-named c rest b'>' refl e
      | inr n3 ↦ elim (Bool-cases (c == b'\'')) [
        | inl e ↦ read-named c rest b'\'' refl e
        | inr n4 ↦ elim (Bool-cases (c == b'"')) [
          | inl e ↦ read-named c rest b'"' refl e
          | inr n5 ↦ elim (Bool-cases (is_control c)) [
            | inl e ↦ rw (n1, n2, n3, n4, n5, e) (read-control c rest e)
            | inr n6 ↦
                rw (n1, n2, n3, n4, n5, n6)
                  (read-plain c rest n1 (is_refused-not c nonzero same_line n2 n3 n4 n5 n6))
          ]
        ]
      ]
    ]
  ]
]

-- The loop appends; it stops at a NUL only.
escape_loop-append : (s out : Text) → Lacks 0 s → escape_loop s out ≡ out ++ escape_loop s []
unfolding escape_loop
escape_loop-append [] out h = sym (append-nil out)
escape_loop-append (c ∷ s) out (nonzero, h) = rw (ne→== c 0 nonzero) (
    escape_loop-append s (out ++ escape_char c) h
    ∙ append_assoc out (escape_char c) (escape_loop s [])
    ∙ ap (λ t. out ++ t) (sym (escape_loop-append s (escape_char c) h)))

read-escape_loop :
    (s : Text)
    → Lacks 0 s
    → All (λ c. is_line_end c ≡ false) s
    → read_content plain (escape_loop s []) ≡ some s
unfolding escape_loop
read-escape_loop [] h k = unfold read_content in refl
read-escape_loop (c ∷ s) (nonzero, h) (same_line, k) = rw (ne→== c 0 nonzero) (
    rw (escape_loop-append s (escape_char c) h) (
      read-escape_char c (escape_loop s []) nonzero same_line
      ∙ ap (Option.map (λ t. c ∷ t)) (read-escape_loop s h k)))

-- For every text with no NUL, and no end of a line but the line feed, what is appended between `pre` and
-- `post` (each of which may be NULL) is the content of an element as XML 1.1 has it, in which markup and
-- restricted characters stand as references only, and that reads as the text.
pub string_append_escaped-read :
    (xml_string : Text) (pre : Option Text) (s : Text) (post : Option Text)
    → Lacks 0 s
    → All (λ c. is_line_end c ≡ false) s
    → (content : Text) × (string_append_escaped xml_string pre (some s) post
        ≡ xml_string ++ (or_empty pre ++ (content ++ or_empty post)))
      × (read_content plain content ≡ some s)
unfolding string_append_escaped
string_append_escaped-read xml_string pre s post h k =
    (escape_loop s [], appended, read-escape_loop s h k)
  where
    appended :
        escape_loop s (xml_string ++ or_empty pre) ++ or_empty post
        ≡ xml_string ++ (or_empty pre ++ (escape_loop s [] ++ or_empty post))
    appended = rw (escape_loop-append s (xml_string ++ or_empty pre) h) (simp append_assoc)
