-- ===== src/Config/Expand/Fuel.antt =====
-- The fuel of `expand` is enough.
use Prim.Native.Char.{Char, code}
use Prim.Native.String.{String, [], ◌∷◌}
use siger_api_gateway.Common.{
  ℕ, zero, suc, ◌≤◌, ◌<◌, ◌≡◌, refl, ap, inl, inr, ◌==◌, Option, none, some, arith, concat, eqb,
  Bool-cases,
}
use siger_api_gateway.Config.Expand.{
  is_special, is_dollar, is_close, ShellName, named, no_name, bad_syntax, to_close, alphanumerics,
  braced, plain_name, shell_name, name_at, round, expand_fuel, text_length, expand,
}

-- The text after the brace is shorter than `n`.
abbrev IsCut : ℕ → Option (String × String) → Type 0
IsCut n none = Unit
IsCut n (some (name, after)) = text_length after < n

to_close-IsCut : (s : String) → IsCut (text_length s) (to_close s)
unfolding to_close text_length
to_close-IsCut [] = tt
to_close-IsCut (c ∷ s) = elim (Bool-cases (is_close c)) [
  | inl t ↦ rw t (omega arith)
  | inr t ↦ rw t (later (to_close s) (to_close-IsCut s))
]
  where
    later :
        (o : Option (String × String))
        → IsCut (text_length s) o
        → IsCut
            (suc (text_length s))
            (elim o [ none ↦ none | some (name, after) ↦ some (c ∷ name, after) ])
    later none h = tt
    later (some (name, after)) h = omega arith

alphanumerics-le : (s : String) → text_length (alphanumerics s).1 ≤ text_length s
unfolding alphanumerics text_length
alphanumerics-le [] = omega arith
alphanumerics-le (c ∷ s) = ground (arith, alphanumerics-le s)

-- The text after a name is no longer than the text.
abbrev IsShorter : ℕ → ShellName → Type 0
IsShorter n (named name after) = text_length after ≤ n
IsShorter n no_name = Unit
IsShorter n (bad_syntax after) = text_length after ≤ n

braced-IsShorter :
    (s : String) (o : Option (String × String))
    → IsCut (text_length s) o
    → IsShorter (suc (text_length s)) (braced s o)
braced-IsShorter s none h = omega arith
braced-IsShorter s (some (name, after)) h = elim (Bool-cases (name == "")) [
  | inl t ↦ rw t (omega arith)
  | inr t ↦ rw t (omega arith)
]

plain_name-IsShorter :
    (n : ℕ) (p : String × String) → text_length p.1 ≤ n → IsShorter n (plain_name p)
plain_name-IsShorter n (name, after) h = elim (Bool-cases (name == "")) [
  | inl t ↦ rw t tt
  | inr t ↦ rw t h
]

shell_name-IsShorter : (s : String) → IsShorter (text_length s) (shell_name s)
unfolding shell_name text_length
shell_name-IsShorter [] = tt
shell_name-IsShorter (c ∷ s) = elim (Bool-cases (eqb (code c) 123)) [
  | inl t ↦ rw t (braced-IsShorter s (to_close s) (to_close-IsCut s))
  | inr t ↦ elim (Bool-cases (is_special c)) [
    | inl t' ↦ rw (t, t') (omega arith)
    | inr t' ↦
        rw (t, t')
          (plain_name-IsShorter (suc (text_length s)) (alphanumerics (c ∷ s))
            (alphanumerics-le (c ∷ s)))
  ]
]

name_at-IsShorter : (c : Char) (s : String) → IsShorter (text_length s) (name_at c s)
unfolding name_at
name_at-IsShorter c s = elim (Bool-cases (is_dollar c)) [
  | inl t ↦ rw t (shell_name-IsShorter s)
  | inr t ↦ rw t tt
]

-- Two ways to go on that agree on shorter texts.
round-agree :
    (env f g : String → String) (c : Char) (s : String) (n : ShellName)
    → ((t : String) → text_length t ≤ text_length s → f t ≡ g t)
    → IsShorter (text_length s) n
    → round env f c s n ≡ round env g c s n
round-agree env f g c s no_name ih h = ap (λ t. c ∷ t) (ih s (omega arith))
round-agree env f g c s (named name after) ih h = ap (λ t. concat (env name) t) (ih after h)
round-agree env f g c s (bad_syntax after) ih h = ih after h

expand_fuel-same :
    (env : String → String) (f g : ℕ) (s : String)
    → text_length s ≤ f
    → text_length s ≤ g
    → expand_fuel env f s ≡ expand_fuel env g s
unfolding expand_fuel text_length
expand_fuel-same env zero zero s hf hg = refl
expand_fuel-same env zero (suc g) [] hf hg = refl
expand_fuel-same env (suc f) zero [] hf hg = refl
expand_fuel-same env (suc f) (suc g) [] hf hg = refl
expand_fuel-same env zero (suc g) (c ∷ s) hf hg = absurd (omega arith)
expand_fuel-same env (suc f) zero (c ∷ s) hf hg = absurd (omega arith)
expand_fuel-same env (suc f) (suc g) (c ∷ s) hf hg =
    round-agree env (expand_fuel env f) (expand_fuel env g) c s (name_at c s)
      (λ t le. expand_fuel-same env f g t (omega arith) (omega arith)) (name_at-IsShorter c s)

-- Any fuel that is no less than the length of the text gives the same result: the expansion ends.
pub expand_fuel-enough :
    (env : String → String) (fuel : ℕ) (s : String)
    → text_length s ≤ fuel
    → expand_fuel env fuel s ≡ expand env s
unfolding expand
expand_fuel-enough env fuel s h = expand_fuel-same env fuel (text_length s) s h (omega arith)

-- The round of a character, after which the expansion goes on.
pub expand-cons :
    (env : String → String) (c : Char) (s : String)
    → expand env (c ∷ s) ≡ round env (expand env) c s (name_at c s)
unfolding expand expand_fuel text_length
expand-cons env c s =
    round-agree env (expand_fuel env (text_length s)) (expand env) c s (name_at c s)
      (λ t le. expand_fuel-same env (text_length s) (text_length t) t le (omega arith))
      (name_at-IsShorter c s)
