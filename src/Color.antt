-- ===== src/Color.antt =====
-- gdata/gdata-types.c: colours and their hexadecimal form. GLib's `g_ascii_xdigit_value` is the
-- parameter `xdigit_value`.
pub mod RoundTrip
use libgdata.Base.{
  ℕ, zero, suc, ◌+◌, ◌-◌, ◌*◌, ◌/◌, ◌%◌, ◌^◌, Bool, true, false, List, [], ◌∷◌, ◌++◌, Text, ltb,
  ◌==◌, if◌then◌else◌, length,
}
use libgdata.Base.Int.{ℤ, pos, negsuc}
use libgdata.Base.Printf.{print_hex}

-- Three `guint16` fields.
pub record Color : Type 0 where
  pub red : ℕ
  pub green : ℕ
  pub blue : ℕ

abbrev pub u16 : ℕ
u16 = 2 ^ 16

-- `if (*hexadecimal == '#') hexadecimal++;`
unfoldable pub skip_hash : Text → Text
skip_hash [] = []
skip_hash (c ∷ s) = if c == b'#' then s else c ∷ s

-- The two statements for one field: its high digit is stored before its low digit is read. `set`
-- stores into the field.
unfoldable pub read_channel : (Color → ℕ → Color) → ℤ → ℤ → Color → Bool × Color
read_channel set (negsuc n) low color = (false, color)
read_channel set (pos h) (negsuc n) color = (false, set color (h * 16 % u16))
read_channel set (pos h) (pos l) color =
    (true, set (set color (h * 16 % u16)) ((h * 16 % u16 + l) % u16))

abbrev pub set_red : Color → ℕ → Color
set_red c v = record c { red = v }

abbrev pub set_green : Color → ℕ → Color
set_green c v = record c { green = v }

abbrev pub set_blue : Color → ℕ → Color
set_blue c v = record c { blue = v }

-- The part behind the length test; its catch-all is never reached.
unfoldable pub read_digits : (ℕ → ℤ) → Text → Color → Bool × Color
read_digits xdigit_value (r ∷ r' ∷ g ∷ g' ∷ b ∷ b' ∷ []) color =
    let (red_read, with_red) = read_channel set_red (xdigit_value r) (xdigit_value r') color in
    let (green_read, with_green) =
      read_channel set_green (xdigit_value g) (xdigit_value g') with_red in
    if red_read
    then if green_read
      then read_channel set_blue (xdigit_value b) (xdigit_value b') with_green
      else (false, with_green)
    else (false, with_red)
read_digits xdigit_value s color = (false, color)

-- The result is what the function returns, with what `*color` holds afterwards.
unfoldable pub color_from_hexadecimal : (ℕ → ℤ) → Text → Color → Bool × Color
unfolding skip_hash read_digits
color_from_hexadecimal xdigit_value hexadecimal color =
    if length (skip_hash hexadecimal) == 6
    then read_digits xdigit_value (skip_hash hexadecimal) color
    else (false, color)

-- `%02x`
unfoldable pub print_channel : ℕ → Text
unfolding print_hex
print_channel v = if ltb v 16 then b'0' ∷ print_hex v else print_hex v

unfoldable pub color_to_hexadecimal : Color → Text
color_to_hexadecimal color =
    b'#' ∷ (print_channel color.red ++ (print_channel color.green ++ print_channel color.blue))
