-- ===== src/Common/Paths.antt =====
-- `strconv.Itoa`, slashes at the ends of a path, and a colon before a port.
use Prim.Native.Nat.{ℕ, zero, suc, ◌/◌, ◌%◌}
use Prim.Native.Char.{Char, code}
use Prim.Native.String.{String, [], ◌∷◌}
use mathlib.Core.Path.{◌≡◌, refl}
use mathlib.Core.Bool.{Bool, true, false}
use mathlib.Core.Option.{Option, none, some}
use mathlib.Core.List.{[], ◌∷◌}
use native.Mathlib.Omega.{arith}
use text.Mathlib.TextLemmas.{cons-append}
use siger_api_gateway.Common.Tests.{if◌then◌else◌, eqb, ltb}
use siger_api_gateway.Common.Lists.{get_elem?}
use siger_api_gateway.Common.Int.{ℤ, pos, negsuc}
use siger_api_gateway.Common.Texts.{concat}

abbrev or_else : String → Option String → String
or_else s none = s
or_else s (some t) = t

abbrev pub digit : ℕ → String
digit d = or_else "" (get_elem? ("0" ∷ "1" ∷ "2" ∷ "3" ∷ "4" ∷ "5" ∷ "6" ∷ "7" ∷ "8" ∷ "9" ∷ []) d)

-- A number has fewer digits than the fuel, which is the number itself.
unfoldable pub decimal : ℕ → ℕ → String
decimal zero n = digit n
decimal (suc fuel) n =
    let front = decimal fuel (n / 10) in if ltb n 10 then digit n else concat front (digit (n % 10))

-- `strconv.Itoa`
unfoldable pub itoa : ℤ → String
unfolding decimal
itoa (pos n) = decimal n n
itoa (negsuc n) = concat "-" (decimal (suc n) (suc n))

abbrev is_slash : Char → Bool
is_slash c = eqb (code c) 47

-- `strings.HasPrefix(s, "/")`
unfoldable pub starts_with_slash : String → Bool
starts_with_slash [] = false
starts_with_slash (c ∷ s) = is_slash c

-- `so_far` is the answer for the part before `s`.
ends_from : Bool → String → Bool
ends_from so_far [] = so_far
ends_from so_far (c ∷ s) = ends_from (is_slash c) s

-- `strings.HasSuffix(s, "/")`
unfoldable pub ends_with_slash : String → Bool
unfolding ends_from
ends_with_slash s = ends_from false s

-- `s[1:]`
abbrev pub drop_first : String → String
drop_first [] = ""
drop_first (c ∷ s) = s

-- The text is one slash.
abbrev IsSlash : String → Type 0
IsSlash [] = ⊥
IsSlash (c ∷ []) = code c ≡ 47
IsSlash (c ∷ _) = ⊥

starts_with_slash-concat-IsSlash :
    (w s : String) → IsSlash w → starts_with_slash (concat w s) ≡ true
unfolding starts_with_slash
starts_with_slash-concat-IsSlash [] s i = elim i [ ]
starts_with_slash-concat-IsSlash (c ∷ []) s i = rw (cons-append c [] s) (ground arith)
starts_with_slash-concat-IsSlash (c ∷ d ∷ w) s i = elim i [ ]

pub starts_with_slash-concat : (s : String) → starts_with_slash (concat "/" s) ≡ true
starts_with_slash-concat s = starts_with_slash-concat-IsSlash "/" s refl

-- `strings.HasPrefix(s, ":")`
unfoldable pub starts_with_colon : String → Bool
starts_with_colon [] = false
starts_with_colon (c ∷ s) = eqb (code c) 58

-- The text is one colon.
abbrev pub IsColon : String → Type 0
IsColon [] = ⊥
IsColon (c ∷ []) = code c ≡ 58
IsColon (c ∷ _) = ⊥

starts_with_colon-concat-IsColon :
    (w s : String) → IsColon w → starts_with_colon (concat w s) ≡ true
unfolding starts_with_colon
starts_with_colon-concat-IsColon [] s i = elim i [ ]
starts_with_colon-concat-IsColon (c ∷ []) s i = rw (cons-append c [] s) (ground arith)
starts_with_colon-concat-IsColon (c ∷ d ∷ w) s i = elim i [ ]

pub starts_with_colon-concat : (s : String) → starts_with_colon (concat ":" s) ≡ true
starts_with_colon-concat s = starts_with_colon-concat-IsColon ":" s refl
