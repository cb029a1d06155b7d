-- ===== src/Config/Expand.antt =====
-- `os.ExpandEnv`, by which internal/config.go puts environment variables into the text of its file.
pub mod Fuel
pub mod Braces
use Prim.Native.Char.{Char, code}
use Prim.Native.String.{String, [], ◌∷◌}
use siger_api_gateway.Common.{
  ℕ, zero, suc, Bool, true, false, ◌&&◌, ◌||◌, ◌==◌, Option, none, some, concat, eqb, leb, between,
  if◌then◌else◌,
}

-- `isAlphaNum`: the underscore, digits and letters.
abbrev pub is_alphanumeric : Char → Bool
is_alphanumeric c =
    eqb (code c) 95
    || (between 48 57 (code c) || (between 97 122 (code c) || between 65 90 (code c)))

-- `isShellSpecialVar`: * # $ @ ! ? - and digits.
abbrev pub is_special : Char → Bool
is_special c =
    eqb (code c) 42
    || (eqb (code c) 35
        || (eqb (code c) 36
            || (eqb (code c) 64
                || (eqb (code c) 33
                    || (eqb (code c) 63 || (eqb (code c) 45 || between 48 57 (code c)))))))

abbrev pub is_dollar : Char → Bool
is_dollar c = eqb (code c) 36

abbrev pub is_close : Char → Bool
is_close c = eqb (code c) 125

-- What stands after a dollar: a name and the text after it; no name, where the dollar stays; or bad
-- syntax, with the text after what is dropped.
pub data ShellName : Type 0 where
  named : String → String → ShellName
  no_name : ShellName
  bad_syntax : String → ShellName

-- The text up to the closing brace, and the text after that.
unfoldable pub to_close : String → Option (String × String)
to_close [] = none
to_close (c ∷ s) =
    let rest = to_close s in
    if is_close c
    then some ("", s)
    else elim rest [ none ↦ none | some (name, after) ↦ some (c ∷ name, after) ]

-- The letters, digits and underscores at the start, and the text after them.
unfoldable pub alphanumerics : String → String × String
alphanumerics [] = ("", "")
alphanumerics (c ∷ s) =
    let (name, after) = alphanumerics s in
    if is_alphanumeric c then (c ∷ name, after) else ("", c ∷ s)

abbrev pub braced : String → Option (String × String) → ShellName
braced s none = bad_syntax s
braced s (some (name, after)) = if name == "" then bad_syntax after else named name after

abbrev pub plain_name : String × String → ShellName
plain_name (name, after) = if name == "" then no_name else named name after

-- `getShellName`. Its case for one special character in braces comes to the same as the general one.
unfoldable pub shell_name : String → ShellName
unfolding to_close alphanumerics
shell_name [] = no_name
shell_name (c ∷ s) =
    if eqb (code c) 123
    then braced s (to_close s)
    else if is_special c
    then named (c ∷ "") s
    else plain_name (alphanumerics (c ∷ s))

-- The name at a character, which may be a dollar, before the text `s`.
unfoldable pub name_at : Char → String → ShellName
unfolding shell_name
name_at c s = if is_dollar c then shell_name s else no_name

-- One round of the loop; `rest` goes on with the text that is left.
abbrev pub round : (String → String) → (String → String) → Char → String → ShellName → String
round env rest c s no_name = c ∷ rest s
round env rest c s (named name after) = concat (env name) (rest after)
round env rest c s (bad_syntax after) = rest after

-- `os.Expand`, on fuel.
unfoldable pub expand_fuel : (String → String) → ℕ → String → String
unfolding name_at
expand_fuel env zero s = s
expand_fuel env (suc fuel) [] = ""
expand_fuel env (suc fuel) (c ∷ s) = round env (expand_fuel env fuel) c s (name_at c s)

unfoldable pub text_length : String → ℕ
text_length [] = 0
text_length (c ∷ s) = suc (text_length s)

-- Each round takes a character at least, so that the length of the text is fuel enough.
unfoldable pub expand : (String → String) → String → String
unfolding expand_fuel text_length
expand env s = expand_fuel env (text_length s) s
