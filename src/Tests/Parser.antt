-- ===== src/Tests/Parser.antt =====
-- The theorems on gdata/gdata-parser.c and gdata/gdata-types.c at concrete inputs.
use libgdata.Base.{
  ◌≡◌, ◌≢◌, ◌↔◌, refl, true, false, Option, none, some, Text, codes, ◌++◌, [], ◌∷◌, arith, ◌==◌,
  text_eq, text_eq_refl, if◌then◌else◌,
}
use libgdata.Color.{Color, color_from_hexadecimal, color_to_hexadecimal}
use libgdata.Color.RoundTrip.{hex_value, IsByteColor, color_from-color_to}
use libgdata.Parser.Errors.{Element, JsonMember}
use libgdata.Parser.Element.{ParserOptions, parsed, string_from_element}
use libgdata.Parser.Element.Laws.{IsAllowed, value_of, string_from_element_iff}
use libgdata.Parser.Escape.{string_append_escaped}
use libgdata.Parser.Escape.Decode.{plain, read_content, string_append_escaped-read}
use libgdata.Parser.Trim.{utf8_trim_whitespace}
use libgdata.Parser.Trim.Laws.{IsBlank, StartsSolid, EndsSolid, utf8_trim_whitespace_lem}

abbrev teal : Color
teal = record { red = 10; green = 128; blue = 255 }

abbrev too_red : Color
too_red = record { red = 256; green = 0; blue = 255 }

color_from-color_to_example :
    color_from_hexadecimal hex_value (color_to_hexadecimal teal) too_red ≡ (true, teal)
color_from-color_to_example =
    color_from-color_to hex_value (λ c. refl) teal too_red
      (record { red_byte = omega arith; green_byte = omega arith; blue_byte = omega arith })

too_red-wide : ¬ (IsByteColor too_red)
too_red-wide h = let small = h.red_byte in omega arith

abbrev fish : Text
fish = codes "<Fish> & \"chips\"" ++ 1 ∷ 233 ∷ []

string_append_escaped-read_example :
    (content : Text) × (string_append_escaped
        (codes "<entry>")
        (some (codes "<title>"))
        (some fish)
        none
      ≡ codes "<entry>" ++ (codes "<title>" ++ (content ++ [])))
    × (read_content plain content ≡ some fish)
string_append_escaped-read_example =
    string_append_escaped-read (codes "<entry>") (some (codes "<title>")) fish none (omega arith) (
      refl,
      (
        refl,
        (
          refl,
          (
            refl,
            (
              refl,
              (
                refl,
                (
                  refl,
                  (
                    refl,
                    (
                      refl,
                      (refl, (refl, (refl, (refl, (refl, (refl, (refl, (refl, (refl, tt))))))))),
                    ),
                  ),
                ),
              ),
            ),
          ),
        ),
      ),
    )

padded-ne-nil : codes "  a b " ≢ []
padded-ne-nil h = cc

utf8_trim_whitespace_lem_example :
    (lead : Text) × (r : Text) × (trail : Text) × (utf8_trim_whitespace
        (λ c. c == 32)
        (codes "  a b ")
      ≡ some r)
    × (codes "  a b " ≡ lead ++ (r ++ trail))
    × IsBlank (λ c. c == 32) lead
    × IsBlank (λ c. c == 32) trail
    × StartsSolid (λ c. c == 32) r
    × EndsSolid (λ c. c == 32) r
utf8_trim_whitespace_lem_example =
    utf8_trim_whitespace_lem (λ c. c == 32) (codes "  a b ") padded-ne-nil

abbrev yes_property : Text → Option Text
yes_property name = if text_eq name (codes "primary") then some (codes "true") else none

abbrev title : Element
title = record {
  name = codes "title";
  ns = none;
  parent = none;
  content = some (codes "Minutes");
  property = yes_property;
}

abbrev strict : ParserOptions
strict = record { no_dupes = true; required = true; non_empty = true; default = false }

abbrev member : JsonMember
member = record {
  member_name = some (codes "title");
  string_value = some (codes "Minutes");
  string_error = none;
  boolean_value = false;
  boolean_error = none;
}

string_from_element_iff_example :
    (string_from_element title (codes "title") strict none ≡ parsed (some (codes "Minutes")) none)
    ↔ ((true ≡ true → ◌≡◌ {A = Option Text} none none)
        × IsAllowed strict (some (codes "Minutes"))
        × (some (codes "Minutes") ≡ value_of false (some (codes "Minutes"))))
string_from_element_iff_example =
    string_from_element_iff title (codes "title") strict none (some (codes "Minutes"))
      (text_eq_refl (codes "title"))

title_read :
    string_from_element title (codes "title") strict none ≡ parsed (some (codes "Minutes")) none
unfolding string_from_element text_eq
title_read = refl
