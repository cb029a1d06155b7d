-- ===== src/Common/Texts.antt =====
-- `strings.Split(s, " ")`.
use Prim.Native.Char.{Char, code}
use Prim.Native.String
use Prim.Native.String.{String, [], ◌∷◌}
use mathlib.Core.Path.{◌≡◌, refl, sym, ◌∙◌, ap}
use mathlib.Core.Logic.{◌≢◌}
use mathlib.Core.Bool.{true, false}
use mathlib.Core.List.{List, [], ◌∷◌, ◌++◌}
use native.Mathlib.Omega.{arith}
use text.Mathlib.TextLemmas.{append-eq-nil_iff, append-nil, append_assoc, nil-append, cons-append}
use siger_api_gateway.Common.Tests.{if◌then◌else◌, eqb}

-- `s + t`
abbrev pub concat : String → String → String
concat s t = String.◌++◌ s t

abbrev push : String → Char → String
push s c = String.◌++◌ s (c ∷ [])

-- `parts` are the closed parts, `current` is the part that is being read.
split_from : List String → String → String → List String
split_from parts current [] = parts ++ current ∷ []
split_from parts current (c ∷ s) =
    let closed = split_from (parts ++ current ∷ []) "" s in
    let longer = split_from parts (push current c) s in if eqb (code c) 32 then closed else longer

unfoldable pub split_space : String → List String
unfolding split_from
split_space s = split_from [] "" s

abbrev pub NoSpace : String → Type 0
NoSpace [] = Unit
NoSpace (c ∷ s) = (code c ≢ 32) × NoSpace s

split_from-NoSpace :
    (parts : List String) (current s : String)
    → NoSpace s
    → split_from parts current s ≡ parts ++ String.◌++◌ current s ∷ []
unfolding split_from
split_from-NoSpace parts current [] h = ap (λ t. parts ++ t ∷ []) (sym (append-nil current))
split_from-NoSpace parts current (c ∷ s) (ne, h) =
    let e : eqb (code c) 32 ≡ false = ground arith in
    rw e (
      split_from-NoSpace parts (push current c) s h
      ∙ ap (λ t. parts ++ t ∷ [])
          (append_assoc current (c ∷ []) s
            ∙ ap (String.◌++◌ current) (cons-append c [] s ∙ ap (◌∷◌ c) (nil-append s))))

-- The text is one space.
abbrev IsSpace : String → Type 0
IsSpace [] = ⊥
IsSpace (c ∷ []) = code c ≡ 32
IsSpace (c ∷ _) = ⊥

split_from-space :
    (w current token : String)
    → IsSpace w
    → split_from [] current (concat w token) ≡ split_from (current ∷ []) "" token
unfolding split_from
split_from-space [] current token h = absurd h
split_from-space (c ∷ []) current token h =
    let e : eqb (code c) 32 ≡ true = ground arith in
    rw (cons-append c [] token) (rw (e, nil-append token))
split_from-space (c ∷ (d ∷ s)) current token h = absurd h

-- A first word without a space, a space, and a second word.
split_from-word :
    (word current token : String)
    → NoSpace word
    → split_from [] current (concat word (concat " " token))
      ≡ split_from (concat current word ∷ []) "" token
unfolding split_from
split_from-word [] current token h =
    rw (nil-append (concat " " token), append-nil current) (split_from-space " " current token refl)
split_from-word (c ∷ s) current token (ne, h) =
    let e : eqb (code c) 32 ≡ false = ground arith in
    rw (cons-append c s (concat " " token)) (
      rw e (
        split_from-word s (push current c) token h
        ∙ ap (λ t. split_from (t ∷ []) "" token)
            (append_assoc current (c ∷ []) s
              ∙ ap (String.◌++◌ current) (cons-append c [] s ∙ ap (◌∷◌ c) (nil-append s)))))

-- A token without a space is the second part after "Bearer ".
pub split_space-bearer :
    (token : String) → NoSpace token → split_space (concat "Bearer " token) ≡ "Bearer" ∷ token ∷ []
unfolding split_space
split_space-bearer token h =
    ap (split_from [] "") (append_assoc "Bearer" " " token)
    ∙ (split_from-word "Bearer" "" token (omega arith)
        ∙ (split_from-NoSpace ("Bearer" ∷ []) "" token h
            ∙ ap (λ t. "Bearer" ∷ t ∷ []) (nil-append token)))

pub concat-ne-empty : (s t : String) → s ≢ "" → concat s t ≢ ""
concat-ne-empty s t h e = h ((append-eq-nil_iff {p = s} {q = t}).0 e).0
