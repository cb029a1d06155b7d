-- ===== src/Handlers/Accounts/Profile.antt =====
-- What a profile shows, and of whom.
use siger_api_gateway.Common.{
  ◌≡◌, refl, ◌≢◌, ◌⊎◌, inl, inr, String, Option, none, some, [], ◌∷◌, Map, ◌==◌, true, ◌∙◌,
  eq-cases, Option-cases, sym, ap,
}
use siger_api_gateway.Http.{
  Json, str, obj, end, field, Request, Writer, returned, http_error, value, encode,
}
use siger_api_gateway.Middleware.Auth.{user_id_context_key}
use siger_api_gateway.Handlers.Accounts.{
  User, AuthHandler, find_user, get_profile, profile_for, profile_reply, user_json,
}

-- A user of the map.
pub data Has (u : User) : Map User → Type 0 where
  here : {name : String} {v : User} {users : Map User} → v ≡ u → Has u ((name, v) ∷ users)
  there : {name : String} {v : User} {users : Map User} → Has u users → Has u ((name, v) ∷ users)

found_first :
    (v u : User) (users : Map User) (id name : String)
    → (v.id == id) ≡ true
    → find_user id ((name, v) ∷ users) ≡ some u
    → v ≡ u
unfolding find_user
found_first v u users id name t e = let e' = rw t at e in cc

not_none : (v : User) → some v ≢ none
not_none v e = cc

find_user_sound :
    (id : String) (users : Map User) (u : User)
    → find_user id users ≡ some u
    → Has u users × (u.id ≡ id)
unfolding find_user
find_user_sound id [] u e = cc
find_user_sound id ((name, v) ∷ users) u e = elim (eq-cases v.id id) [
  | inl (same, t) ↦
      let p = found_first v u users id name t e in (here p, sym (ap (λ w. w.id) p) ∙ same)
  | inr (other, t) ↦ let (h, p) = find_user_sound id users u (rw t at e) in (there h, p)
]

find_user_complete :
    (id : String) (users : Map User)
    → find_user id users ≡ none
    → (u : User) → Has u users
    → u.id ≢ id
unfolding find_user
find_user_complete id [] e u i same = elim i [ ]
find_user_complete id ((name, v) ∷ users) e u i same = elim (eq-cases v.id id) [
  | inl (p, t) ↦ not_none v (rw t at e)
  | inr (other, t) ↦ elim i [
    | here q ↦ other (ap (λ w. w.id) q ∙ same)
    | there h ↦ find_user_complete id users (rw t at e) u h same
  ]
]

-- The ID, the name and the role.
unfoldable pub profile_json : User → Json
profile_json u =
    obj (field "id" (str u.id) (field "username" (str u.username) (field "role" (str u.role) end)))

-- The answers of `GetProfile`, by the user ID in the context.
abbrev pub ProfileOutcome : Option String → AuthHandler → Writer → Writer → Type 0
ProfileOutcome none h out out' = out' ≡ http_error "Unauthorized" 401 out
ProfileOutcome (some id) h out out' =
    ((id ≡ "") × (out' ≡ http_error "Unauthorized" 401 out))
    ⊎ ((id ≢ "")
        × ((u : User) → Has u h.mock_users → u.id ≢ id)
        × (out' ≡ http_error "User not found" 404 out))
    ⊎ ((u : User) × Has u h.mock_users × (u.id ≡ id) × (out' ≡ encode (profile_json u) out))

profile_for_cases :
    (id : Option String) (h : AuthHandler) (out : Writer)
    → ProfileOutcome id h out (profile_for id h out)
unfolding profile_for profile_reply user_json profile_json
profile_for_cases none h out = refl
profile_for_cases (some id) h out = elim (eq-cases id "") [
  | inl (e, t) ↦ inl (e, rw t refl)
  | inr (named, t) ↦ elim (Option-cases (find_user id h.mock_users)) [
    | inl absent ↦ inr (inl (named, find_user_complete id h.mock_users absent, rw (t, absent) refl))
    | inr (u, e) ↦
        let (has, same) = find_user_sound id h.mock_users u e in
        inr (inr (u, has, same, rw (t, e) refl))
  ]
]

-- `GetProfile` answers with the ID, the name and the role, and never the password, of a stored
-- user with the ID of the context; with 401 if there is no ID there, or an empty one, and with
-- 404 if no user has it. It changes no user.
pub get_profile_cases :
    (r : Request) (h : AuthHandler) (out : Writer)
    → (out' : Writer) × (get_profile r h out ≡ returned h out')
      × ProfileOutcome (value user_id_context_key r.context) h out out'
unfolding get_profile
get_profile_cases r h out = (
  profile_for (value user_id_context_key r.context) h out,
  refl,
  profile_for_cases (value user_id_context_key r.context) h out,
)
