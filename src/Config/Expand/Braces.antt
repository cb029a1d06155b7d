-- ===== src/Config/Expand/Braces.antt =====
-- What `expand` makes of plain text and of a name in braces.
use Prim.Native.Char.{Char, code}
use Prim.Native.String.{String, [], ◌∷◌}
use text.Mathlib.TextLemmas.{nil-append, cons-append}
use siger_api_gateway.Common.{
  ℕ, ◌≡◌, ◌≢◌, refl, ap, ◌∙◌, true, false, some, arith, concat, eqb, ne→eq_false,
}
use siger_api_gateway.Config.Expand.Fuel.{expand-cons}
use siger_api_gateway.Config.Expand.{
  name_at, is_dollar, is_close, named, no_name, to_close, shell_name, expand,
}

-- No character of the text has the code `n`.
abbrev pub Lacks : ℕ → String → Type 0
Lacks n [] = Unit
Lacks n (c ∷ s) = (code c ≢ n) × Lacks n s

expand-cons_plain :
    (env : String → String) (c : Char) (s : String)
    → code c ≢ 36
    → expand env (c ∷ s) ≡ c ∷ expand env s
unfolding name_at
expand-cons_plain env c s ne =
    let e : is_dollar c ≡ false = ground arith in
    let absent : name_at c s ≡ no_name = rw e refl in expand-cons env c s ∙ rw absent refl

-- Text without a dollar stays as it is, also before other text.
pub expand-concat_plain :
    (env : String → String) (s t : String)
    → Lacks 36 s
    → expand env (concat s t) ≡ concat s (expand env t)
expand-concat_plain env [] t h = rw (nil-append t, nil-append (expand env t)) refl
expand-concat_plain env (c ∷ s) t (ne, h) =
    rw
      (
        cons-append c s t,
        cons-append c s (expand env t),
        expand-cons_plain env c (concat s t) ne,
        expand-concat_plain env s t h,
      )
      refl

-- The text is one closing brace.
abbrev IsCloseBrace : String → Type 0
IsCloseBrace [] = ⊥
IsCloseBrace (c ∷ []) = code c ≡ 125
IsCloseBrace (c ∷ _) = ⊥

to_close-concat :
    (name : String) (c : Char) (after : String)
    → Lacks 125 name
    → code c ≡ 125
    → to_close (concat name (c ∷ after)) ≡ some (name, after)
unfolding to_close
to_close-concat [] c after h e =
    let t : is_close c ≡ true = ground arith in rw (nil-append (c ∷ after), t) refl
to_close-concat (d ∷ name) c after (ne, h) e =
    let t : is_close d ≡ false = ground arith in
    rw (cons-append d name (c ∷ after), t, to_close-concat name c after h e) refl

-- A dollar, an opening brace.
expand-cons_braced :
    (env : String → String) (d o c : Char) (name after : String)
    → code d ≡ 36
    → code o ≡ 123
    → code c ≡ 125
    → Lacks 125 name
    → name ≢ ""
    → expand env (d ∷ o ∷ concat name (c ∷ after)) ≡ concat (env name) (expand env after)
unfolding name_at shell_name
expand-cons_braced env d o c name after ed eo ec h ne =
    let td : is_dollar d ≡ true = ground arith in
    let to : eqb (code o) 123 ≡ true = ground arith in
    let found : name_at d (o ∷ concat name (c ∷ after)) ≡ named name after =
      rw (td, to, to_close-concat name c after h ec, ne→eq_false name "" ne) refl in
    expand-cons env d (o ∷ concat name (c ∷ after)) ∙ rw found refl

-- The text is a dollar and an opening brace.
abbrev IsOpening : String → Type 0
IsOpening (d ∷ o ∷ []) = (code d ≡ 36) × (code o ≡ 123)
IsOpening _ = ⊥

expand-between :
    (env : String → String) (w v name after : String)
    → IsOpening w
    → IsCloseBrace v
    → Lacks 125 name
    → name ≢ ""
    → expand env (concat w (concat name (concat v after))) ≡ concat (env name) (expand env after)
expand-between env (d ∷ o ∷ []) (c ∷ []) name after (ed, eo) ec h ne =
    rw
      (
        cons-append c [] after,
        nil-append after,
        cons-append d (o ∷ []) (concat name (c ∷ after)),
        cons-append o [] (concat name (c ∷ after)),
        nil-append (concat name (c ∷ after)),
      )
      (expand-cons_braced env d o c name after ed eo ec h ne)
expand-between env [] v name after i j h ne = absurd i
expand-between env (d ∷ []) v name after i j h ne = absurd i
expand-between env (d ∷ o ∷ x ∷ w) v name after i j h ne = absurd i
expand-between env (d ∷ o ∷ []) [] name after i j h ne = absurd j
expand-between env (d ∷ o ∷ []) (c ∷ x ∷ v) name after i j h ne = absurd j

-- Where a text without a dollar stands before a name in braces, the text stays, the value of the
-- variable of just that name comes next, and what stands after is expanded in turn. The name is
-- all that stands between the braces, a colon and what follows it included.
pub expand-braces :
    (env : String → String) (before name after : String)
    → Lacks 36 before
    → Lacks 125 name
    → name ≢ ""
    → expand env (concat before (concat "${" (concat name (concat "}" after))))
      ≡ concat before (concat (env name) (expand env after))
expand-braces env before name after plain open_name named_name =
    expand-concat_plain env before (concat "${" (concat name (concat "}" after))) plain
    ∙ ap (concat before)
        (expand-between env "${" "}" name after (refl, refl) refl open_name named_name)
