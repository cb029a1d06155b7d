-- ===== src/Startup/Port/Digits.antt =====
-- What is read of a port that is a number.
use Prim.Native.Char.{Char, code}
use Prim.Native.String.{String, [], ◌∷◌}
use text.Mathlib.TextLemmas.{cons-append, append_assoc, nil-append, append-nil, nil≢cons}
use siger_api_gateway.Common.{
  ℕ, zero, suc, ◌+◌, ◌-◌, ◌*◌, ◌/◌, ◌%◌, ◌^◌, ◌<◌, ◌≤◌, ◌≡◌, refl, ap, ◌∙◌, sym, true, false, some,
  ltb, eqb, pos, concat, itoa, decimal, digit, arith, starts_with_colon, starts_with_colon-concat,
  Bool-cases, inl, inr, IsColon, ◌==◌, ne→eq_false,
}
use siger_api_gateway.Config.{valid_port}
use siger_api_gateway.Startup.Port.{
  is_blank, is_digit, skip_blanks, scan_digits, scan_number, scan_signed, sscanf_port, gateway_port,
  or_default,
}

-- A digit and its value.
abbrev IsDigitOf : ℕ → String → Type 0
IsDigitOf d [] = ⊥
IsDigitOf d (c ∷ []) = code c ≡ 48 + d
IsDigitOf d (c ∷ _) = ⊥

digit-IsDigitOf : (d : ℕ) → d < 10 → IsDigitOf d (digit d)
digit-IsDigitOf zero h = refl
digit-IsDigitOf (suc zero) h = refl
digit-IsDigitOf (suc (suc zero)) h = refl
digit-IsDigitOf (suc (suc (suc zero))) h = refl
digit-IsDigitOf (suc (suc (suc (suc zero)))) h = refl
digit-IsDigitOf (suc (suc (suc (suc (suc zero))))) h = refl
digit-IsDigitOf (suc (suc (suc (suc (suc (suc zero)))))) h = refl
digit-IsDigitOf (suc (suc (suc (suc (suc (suc (suc zero))))))) h = refl
digit-IsDigitOf (suc (suc (suc (suc (suc (suc (suc (suc zero)))))))) h = refl
digit-IsDigitOf (suc (suc (suc (suc (suc (suc (suc (suc (suc zero))))))))) h = refl
digit-IsDigitOf (suc (suc (suc (suc (suc (suc (suc (suc (suc (suc n)))))))))) h =
    absurd (omega (arith, h))

scan_digits-nil : (n : ℕ) → scan_digits n "" ≡ n
unfolding scan_digits
scan_digits-nil n = refl

scan_digits-IsDigitOf :
    (n d : ℕ) (w s : String)
    → d < 10
    → IsDigitOf d w
    → scan_digits n (concat w s) ≡ scan_digits (n * 10 + d) s
unfolding scan_digits
scan_digits-IsDigitOf n d [] s h i = elim i [ ]
scan_digits-IsDigitOf n d (c ∷ []) s h i =
    let value : code c - 48 ≡ d = omega (arith, i) in
    let digital : is_digit c ≡ true = ground (arith, i) in
    rw (cons-append c [] s, nil-append s, digital, value) refl
scan_digits-IsDigitOf n d (c ∷ e ∷ w) s h i = elim i [ ]

-- The digits of a number are read as that number.
scan_digits-decimal :
    (fuel n : ℕ) (s : String)
    → n ≤ fuel
    → scan_digits 0 (concat (decimal fuel n) s) ≡ scan_digits n s
unfolding decimal
scan_digits-decimal zero n s h =
    scan_digits-IsDigitOf 0 n (digit n) s (omega arith) (digit-IsDigitOf n (omega arith))
    ∙ ap (λ k. scan_digits k s) (omega arith)
scan_digits-decimal (suc fuel) n s h = elim (Bool-cases (ltb n 10)) [
  | inl t ↦ rw t (
      scan_digits-IsDigitOf 0 n (digit n) s (ground arith) (digit-IsDigitOf n (ground arith))
      ∙ ap (λ k. scan_digits k s) (omega arith))
  | inr t ↦ rw t (
      ap (scan_digits 0) (append_assoc (decimal fuel (n / 10)) (digit (n % 10)) s)
      ∙ scan_digits-decimal fuel (n / 10) (concat (digit (n % 10)) s) (ground arith)
      ∙ scan_digits-IsDigitOf (n / 10) (n % 10) (digit (n % 10)) s (omega arith)
          (digit-IsDigitOf (n % 10) (omega arith))
      ∙ ap (λ k. scan_digits k s) (omega arith))
]

-- A text that starts with a digit.
abbrev StartsWithDigit : String → Type 0
StartsWithDigit [] = ⊥
StartsWithDigit (c ∷ s) = is_digit c ≡ true

StartsWithDigit-concat : (w s : String) → StartsWithDigit w → StartsWithDigit (concat w s)
StartsWithDigit-concat [] s h = elim h [ ]
StartsWithDigit-concat (c ∷ w) s h = rw (cons-append c w s) h

IsDigitOf-StartsWithDigit : (d : ℕ) (w : String) → d < 10 → IsDigitOf d w → StartsWithDigit w
IsDigitOf-StartsWithDigit d [] h i = i
IsDigitOf-StartsWithDigit d (c ∷ []) h i = ground (arith, i)
IsDigitOf-StartsWithDigit d (c ∷ e ∷ w) h i = elim i [ ]

decimal-StartsWithDigit : (fuel n : ℕ) → n ≤ fuel → StartsWithDigit (decimal fuel n)
unfolding decimal
decimal-StartsWithDigit zero n h =
    IsDigitOf-StartsWithDigit n (digit n) (omega arith) (digit-IsDigitOf n (omega arith))
decimal-StartsWithDigit (suc fuel) n h = elim (Bool-cases (ltb n 10)) [
  | inl t ↦
      rw t (IsDigitOf-StartsWithDigit n (digit n) (ground arith) (digit-IsDigitOf n (ground arith)))
  | inr t ↦ rw t (
      StartsWithDigit-concat (decimal fuel (n / 10)) (digit (n % 10))
        (decimal-StartsWithDigit fuel (n / 10) (ground arith)))
]

scan_number-StartsWithDigit :
    (w : String) → StartsWithDigit w → scan_number w ≡ some (scan_digits 0 w)
unfolding scan_number
scan_number-StartsWithDigit [] h = elim h [ ]
scan_number-StartsWithDigit (c ∷ s) h = rw h refl

-- No blank and no sign stands before a digit.
scan_signed-StartsWithDigit :
    (w : String) (n : ℕ)
    → StartsWithDigit w
    → scan_digits 0 w ≡ n
    → n < 2 ^ 63
    → scan_signed (skip_blanks w) ≡ some (pos n)
unfolding scan_signed skip_blanks
scan_signed-StartsWithDigit [] n h e small = elim h [ ]
scan_signed-StartsWithDigit (c ∷ s) n h e small =
    let unblank : is_blank c ≡ false = ground arith in
    let no_minus : eqb (code c) 45 ≡ false = ground arith in
    let no_plus : eqb (code c) 43 ≡ false = ground arith in
    let fits : ltb n (2 ^ 63) ≡ true = ground arith in
    let read : scan_number (c ∷ s) ≡ some n = scan_number-StartsWithDigit (c ∷ s) h ∙ ap some e in
    rw (unblank, no_minus, no_plus, read, fits) refl

sscanf_port-IsColon :
    (w s : String) → IsColon w → sscanf_port (concat w s) ≡ scan_signed (skip_blanks s)
unfolding sscanf_port starts_with_colon
sscanf_port-IsColon [] s i = elim i [ ]
sscanf_port-IsColon (c ∷ []) s i =
    let colon : eqb (code c) 58 ≡ true = ground (arith, i) in
    rw (cons-append c [] s, nil-append s, colon) refl
sscanf_port-IsColon (c ∷ d ∷ w) s i = elim i [ ]

-- A colon and a number are read as that number.
pub gateway_port-itoa : (n : ℕ) → n < 2 ^ 63 → gateway_port (concat ":" (itoa (pos n))) ≡ pos n
unfolding gateway_port itoa
gateway_port-itoa n small =
    let read =
      scan_signed-StartsWithDigit (decimal n n) n (decimal-StartsWithDigit n n (omega arith))
        (ap (scan_digits 0) (sym (append-nil (decimal n n)))
          ∙ scan_digits-decimal n n "" (omega arith)
          ∙ scan_digits-nil n)
        small in
    ap or_default (sscanf_port-IsColon ":" (decimal n n) refl ∙ read)

cons-nonempty : (c : Char) (s : String) → ((c ∷ s) == "") ≡ false
cons-nonempty c s = ne→eq_false (c ∷ s) "" (λ e. nil≢cons (sym e))

StartsWithDigit-bare :
    (w : String) → StartsWithDigit w → (starts_with_colon w ≡ false) × ((w == "") ≡ false)
unfolding starts_with_colon
StartsWithDigit-bare [] h = elim h [ ]
StartsWithDigit-bare (c ∷ s) h = (ground arith, cons-nonempty c s)

starts_with_colon-nonempty : (w : String) → starts_with_colon w ≡ true → (w == "") ≡ false
unfolding starts_with_colon
starts_with_colon-nonempty [] h = cc
starts_with_colon-nonempty (c ∷ s) h = cons-nonempty c s

-- For a number below 2^63, written with a colon or without, the port that the validation of the
-- configuration makes of it is read back as that number when the gateway is registered.
pub gateway_port-valid_port :
    (n : ℕ)
    → n < 2 ^ 63
    → (gateway_port (valid_port (itoa (pos n))) ≡ pos n)
      × (gateway_port (valid_port (concat ":" (itoa (pos n)))) ≡ pos n)
unfolding itoa
gateway_port-valid_port n small =
    let (bare, some_text) =
      StartsWithDigit-bare (decimal n n) (decimal-StartsWithDigit n n (omega arith)) in
    let colon = starts_with_colon-concat (decimal n n) in
    let whole = starts_with_colon-nonempty (concat ":" (decimal n n)) colon in
    (
      rw (some_text, bare) (gateway_port-itoa n small),
      rw (whole, colon) (gateway_port-itoa n small),
    )
