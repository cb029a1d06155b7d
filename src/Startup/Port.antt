-- ===== src/Startup/Port.antt =====
-- `fmt.Sscanf(s, ":%d", &port)`, by which cmd/main.go reads the port: a colon, blanks, a sign and the
-- digits of an `int`; what stands after them does not matter.
pub mod Digits
use Prim.Native.Char.{Char, code}
use Prim.Native.String.{String, [], ◌∷◌}
use siger_api_gateway.Common.{
  ℕ, zero, suc, ◌+◌, ◌-◌, ◌*◌, ◌^◌, ◌==◌, Bool, true, false, ◌||◌, Option, none, some, ltb, eqb, ℤ,
  pos, negsuc, if◌then◌else◌, starts_with_colon, between,
}

-- `unicode.IsSpace`; a line feed, which is none of these, ends the reading with an error.
abbrev pub is_blank : Char → Bool
is_blank c =
    eqb (code c) 9
    || (between 11 13 (code c)
        || (eqb (code c) 32
            || (eqb (code c) 133
                || (eqb (code c) 160
                    || (eqb (code c) 5760
                        || (between 8192 8202 (code c)
                            || (between 8232 8233 (code c)
                                || (eqb (code c) 8239
                                    || (eqb (code c) 8287 || eqb (code c) 12288)))))))))

abbrev pub is_digit : Char → Bool
is_digit c = between 48 57 (code c)

unfoldable pub skip_blanks : String → String
skip_blanks [] = ""
skip_blanks (c ∷ s) = let rest = skip_blanks s in if is_blank c then rest else c ∷ s

-- The number of the digits at the start, after `n`.
unfoldable pub scan_digits : ℕ → String → ℕ
scan_digits n [] = n
scan_digits n (c ∷ s) =
    let rest = scan_digits (n * 10 + (code c - 48)) s in if is_digit c then rest else n

unfoldable pub scan_number : String → Option ℕ
unfolding scan_digits
scan_number [] = none
scan_number (c ∷ s) = if is_digit c then some (scan_digits 0 (c ∷ s)) else none

-- `strconv.ParseInt` for 64 bits.
abbrev positive : Option ℕ → Option ℤ
positive none = none
positive (some n) = if ltb n (2 ^ 63) then some (pos n) else none

abbrev negative : Option ℕ → Option ℤ
negative none = none
negative (some zero) = some (pos 0)
negative (some (suc n)) = if ltb n (2 ^ 63) then some (negsuc n) else none

unfoldable pub scan_signed : String → Option ℤ
unfolding scan_number
scan_signed [] = none
scan_signed (c ∷ s) =
    if eqb (code c) 45
    then negative (scan_number s)
    else if eqb (code c) 43
    then positive (scan_number s)
    else positive (scan_number (c ∷ s))

unfoldable pub sscanf_port : String → Option ℤ
unfolding skip_blanks scan_signed starts_with_colon
sscanf_port [] = none
sscanf_port (c ∷ s) = if starts_with_colon (c ∷ s) then scan_signed (skip_blanks s) else none

abbrev pub or_default : Option ℤ → ℤ
or_default none = pos 8080
or_default (some n) = n

-- The port that is registered. A text that is not longer than a byte cannot be read either.
unfoldable pub gateway_port : String → ℤ
unfolding sscanf_port
gateway_port port = or_default (sscanf_port port)
