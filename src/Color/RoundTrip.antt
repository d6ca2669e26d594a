-- ===== src/Color/RoundTrip.antt =====
-- The colours of gdata/gdata-types.c written and read back.
use libgdata.Base.{
  ne→==, ltb→ge, ℕ, zero, suc, ◌+◌, ◌-◌, ◌*◌, ◌/◌, ◌%◌, ◌≤◌, ◌<◌, ◌≡◌, refl, ◌∙◌, true, false, ◌&&◌,
  [], ◌∷◌, ◌++◌, Text, ltb, leb, if◌then◌else◌, length, arith, length-append, ◌≢◌, Bool-cases, inl,
  inr, lt→ltb, le→ltb, ltb→lt,
}
use libgdata.Base.Printf.{hex_digit, hex_digits}
use libgdata.Base.Int.{ℤ, pos, minus_one}
use libgdata.Color.{
  set_red, set_green, set_blue, Color, u16, read_channel, color_from_hexadecimal, print_channel,
  color_to_hexadecimal,
}

-- What GLib documents of `g_ascii_xdigit_value`: the value of a hexadecimal digit, and -1 else.
abbrev pub hex_value : ℕ → ℤ
hex_value c =
    if leb b'0' c && leb c b'9'
    then pos (c - b'0')
    else if leb b'a' c && leb c b'f'
    then pos (c - b'a' + 10)
    else if leb b'A' c && leb c b'F'
    then pos (c - b'A' + 10)
    else minus_one

hex_value-hex_digit : (d : ℕ) → d < 16 → hex_value (hex_digit d) ≡ pos d
unfolding hex_digit
hex_value-hex_digit d h = ground arith

-- A value of one byte is written as two digits.
print_channel_byte :
    (v : ℕ) → v < 256 → print_channel v ≡ hex_digit (v / 16) ∷ hex_digit (v % 16) ∷ []
unfolding print_channel
print_channel_byte v h = elim (Bool-cases (ltb v 16)) [
  | inl one ↦
      let small = ltb→lt v 16 one in
      let high : v / 16 ≡ 0 = omega arith in
      let low : v % 16 ≡ v = omega arith in rw (one, high, low) (unfold hex_digit in refl)
  | inr two ↦ rw (two, lt→ltb (v / 16) 16 (omega arith)) refl
]

-- Every value is written with two digits or more, and one that does not fit a byte with more.
length-hex_digits : (fuel v : ℕ) (out : Text) → length out ≤ length (hex_digits fuel v out)
unfolding hex_digits
length-hex_digits zero v out = omega arith
length-hex_digits (suc fuel) v out =
    ground (arith, length-hex_digits fuel (v / 16) (hex_digit (v % 16) ∷ out))

length-hex_digits-suc :
    (fuel v : ℕ) (out : Text) → suc (length out) ≤ length (hex_digits (suc fuel) v out)
unfolding hex_digits
length-hex_digits-suc fuel v out =
    ground (arith, length-hex_digits fuel (v / 16) (hex_digit (v % 16) ∷ out))

length-print_channel : (v : ℕ) → 2 ≤ length (print_channel v)
unfolding print_channel
length-print_channel v = elim (Bool-cases (ltb v 16)) [
  | inl one ↦ rw one (omega arith)
  | inr two ↦ rw two (length-hex_digits-suc 6 (v / 16) (hex_digit (v % 16) ∷ []))
]

length-print_channel_wide : (v : ℕ) → 256 ≤ v → 3 ≤ length (print_channel v)
unfolding print_channel
length-print_channel_wide v h =
    rw (le→ltb v 16 (omega arith), le→ltb (v / 16) 16 (omega arith))
      (length-hex_digits-suc 5 (v / 16 / 16) (hex_digit (v / 16 % 16) ∷ hex_digit (v % 16) ∷ []))

pub record IsByteColor (c : Color) : Type 0 where
  pub red_byte : c.red < 256
  pub green_byte : c.green < 256
  pub blue_byte : c.blue < 256

narrow : (v : ℕ) → length (print_channel v) ≤ 2 → v < 256
narrow v h = elim (Bool-cases (ltb v 256)) [
  | inl byte ↦ ltb→lt v 256 byte
  | inr wide ↦ absurd (omega (arith, length-print_channel_wide v (ltb→ge v 256 wide)))
]

-- The digits of three values are six only where each value fits a byte.
length-print_channels :
    (c : Color)
    → ¬ (IsByteColor c)
    → length (print_channel c.red ++ (print_channel c.green ++ print_channel c.blue)) ≢ 6
length-print_channels c h six =
    let r = length-print_channel c.red in
    let g = length-print_channel c.green in
    let b = length-print_channel c.blue in
    let outer =
      length-append (print_channel c.red) (print_channel c.green ++ print_channel c.blue) in
    let inner = length-append (print_channel c.green) (print_channel c.blue) in
    h (record {
      red_byte = narrow c.red (omega arith);
      green_byte = narrow c.green (omega arith);
      blue_byte = narrow c.blue (omega arith);
    })

module _ (xdigit_value : ℕ → ℤ) (documented : (c : ℕ) → xdigit_value c ≡ hex_value c) where
  xdigit_value-hex_digit : (d : ℕ) → d < 16 → xdigit_value (hex_digit d) ≡ pos d
  xdigit_value-hex_digit d h = documented (hex_digit d) ∙ hex_value-hex_digit d h

  channel_back :
      (set : Color → ℕ → Color) (v : ℕ) (old : Color)
      → v < 256
      → read_channel set (xdigit_value (hex_digit (v / 16))) (xdigit_value (hex_digit (v % 16))) old
        ≡ (true, set (set old (v / 16 * 16)) v)
  unfolding read_channel
  channel_back set v old h =
      let high_exact : v / 16 * 16 % u16 ≡ v / 16 * 16 = omega arith in
      let both_exact : (v / 16 * 16 % u16 + v % 16) % u16 ≡ v = omega arith in
      rw
        (
          xdigit_value-hex_digit (v / 16) (omega arith),
          xdigit_value-hex_digit (v % 16) (omega arith),
        )
        (λ i. (true, set (set old (high_exact i)) (both_exact i)))

  -- A colour whose three values fit a byte is read back from its hexadecimal form, whatever the
  -- variable held before.
  pub color_from-color_to :
      (color old : Color)
      → IsByteColor color
      → color_from_hexadecimal xdigit_value (color_to_hexadecimal color) old ≡ (true, color)
  unfolding color_from_hexadecimal color_to_hexadecimal
  color_from-color_to color old h =
      rw
        (
          print_channel_byte color.red h.red_byte,
          print_channel_byte color.green h.green_byte,
          print_channel_byte color.blue h.blue_byte,
        )
        (rw (channel_back set_red color.red old h.red_byte) (
          rw (channel_back set_green color.green (set_red old color.red) h.green_byte) (
            channel_back set_blue color.blue (set_green (set_red old color.red) color.green)
              h.blue_byte)))

  -- A colour with a value that does not fit a byte is written in a form that is refused, and that
  -- leaves the variable as it was.
  color_from-color_to_wide :
      (color old : Color)
      → ¬ (IsByteColor color)
      → color_from_hexadecimal xdigit_value (color_to_hexadecimal color) old ≡ (false, old)
  unfolding color_from_hexadecimal color_to_hexadecimal
  color_from-color_to_wide color old h = rw (ne→== _ 6 (length-print_channels color h)) refl
