-- ===== src/Base/Printf.antt =====
-- The conversions of C's `printf` that the library uses: `%x` and `%u` of an `unsigned int`.
use Prim.Native.Nat.{ℕ, zero, suc, ◌+◌, ◌-◌, ◌/◌, ◌%◌, ◌<◌}
use mathlib.Core.Bool.{false}
use mathlib.Core.List.{[], ◌∷◌}
use mathlib.Core.Path.{◌≡◌}
use native.Mathlib.Omega.{arith}
use libgdata.Base.Tests.{ltb, if◌then◌else◌, lt→ltb}
use libgdata.Base.Chars.{Text}

unfoldable pub hex_digit : ℕ → ℕ
hex_digit d = if ltb d 10 then b'0' + d else b'a' + (d - 10)

-- The digits of a number in front of `out`; an `unsigned int` has at most eight.
unfoldable pub hex_digits : ℕ → ℕ → Text → Text
hex_digits zero v out = out
hex_digits (suc fuel) v out =
    let more = hex_digits fuel (v / 16) (hex_digit (v % 16) ∷ out) in
    if ltb v 16 then hex_digit v ∷ out else more

-- `%x`
unfoldable pub print_hex : ℕ → Text
unfolding hex_digits
print_hex v = hex_digits 8 v []

-- The decimal digits; an `unsigned int` has at most ten.
unfoldable pub decimal_digits : ℕ → ℕ → Text → Text
decimal_digits zero v out = out
decimal_digits (suc fuel) v out =
    let more = decimal_digits fuel (v / 10) ((b'0' + v % 10) ∷ out) in
    if ltb v 10 then (b'0' + v) ∷ out else more

-- `%u`
unfoldable pub print_decimal : ℕ → Text
unfolding decimal_digits
print_decimal v = decimal_digits 10 v []

pub print_hex_one : (v : ℕ) → v < 16 → print_hex v ≡ hex_digit v ∷ []
unfolding print_hex
print_hex_one v h = rw (lt→ltb v 16 h)

pub print_hex_two :
    (v : ℕ)
    → ltb v 16 ≡ false
    → v < 256
    → print_hex v ≡ hex_digit (v / 16) ∷ hex_digit (v % 16) ∷ []
unfolding print_hex
print_hex_two v h k = rw (h, lt→ltb (v / 16) 16 (omega arith))
