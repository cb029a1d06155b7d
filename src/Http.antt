-- ===== src/Http.antt =====
-- What the handlers use of net/http and of the request context: a request, the response as the
-- client gets it, and handlers that change some state of type `W`, and may panic.
mod Values
pub use Values.{Json, null, str, num, int, time, arr, obj, Items, nil, cons, Fields, end, field}
use siger_api_gateway.Common.{
  ℕ, Bool, true, false, ◌&&◌, ◌==◌, String, Option, none, some, List, [], ◌∷◌, ◌++◌, concat, Map,
  lookup, store, if◌then◌else◌,
}

-- What `w.Write` and the JSON encoder send.
pub data Chunk : Type 0 where
  text : String → Chunk
  json : Json → Chunk

-- A header that is set after the status is written is not sent, so `headers` is closed by then.
-- `rewritten` is the path that a handler has put into the URL of the request: the middlewares share
-- the URL by a pointer, and see the new path after the handler has returned.
pub record Writer : Type 0 where
  pub headers : Map String
  pub status : Option ℕ
  pub body : List Chunk
  pub rewritten : Option String

abbrev pub fresh_writer : Writer
fresh_writer = record { headers = []; status = none; body = []; rewritten = none }

-- `w.Header().Set(k, v)`
unfoldable pub set_header : String → String → Writer → Writer
set_header k v w = elim w.status [ none ↦ record w { headers = store k v w.headers } | some _ ↦ w ]

-- `w.WriteHeader(code)`: only the first call counts.
unfoldable pub write_header : ℕ → Writer → Writer
write_header code w = elim w.status [ none ↦ record w { status = some code } | some _ ↦ w ]

-- `w.Write`: 200 unless a status is there already.
unfoldable pub write : Chunk → Writer → Writer
unfolding write_header
write c w = let w' = write_header 200 w in record w' { body = w'.body ++ c ∷ [] }

-- `http.Error`
unfoldable pub http_error : String → ℕ → Writer → Writer
unfolding set_header write_header write
http_error message code w = write (text (concat message "\n")) (
    write_header code (
      set_header "X-Content-Type-Options" "nosniff"
        (set_header "Content-Type" "text/plain; charset=utf-8" w)))

-- `w.Header().Set("Content-Type", "application/json")` and `json.NewEncoder(w).Encode(v)`.
unfoldable pub encode : Json → Writer → Writer
unfolding set_header write
encode v w = write (json v) (set_header "Content-Type" "application/json" w)

-- A context key: a plain text, or a `contextKey` of internal/middleware/auth.go. Go compares the
-- dynamic types of keys too, so the two kinds are never equal.
pub data Key : Type 0 where
  plain : String → Key
  context_key : String → Key

unfoldable pub same_key : Key → Key → Bool
same_key (plain a) (plain b) = a == b
same_key (context_key a) (context_key b) = a == b
same_key _ _ = false

abbrev pub Context : Type 0
Context = List (Key × String)

-- `ctx.Value(key)`: the value that was added last.
unfoldable pub value : Key → Context → Option String
unfolding same_key
value k [] = none
value k ((j, v) ∷ ctx) = if same_key j k then some v else value k ctx

abbrev pub with_value : Key → String → Context → Context
with_value k v ctx = (k, v) ∷ ctx

-- `headers` has canonical names; `params` are the path parameters that the router found.
pub record Request : Type 0 where
  pub method : String
  pub path : String
  pub query : String
  pub headers : Map String
  pub remote_addr : String
  pub tls : Bool
  pub body : String
  pub params : Map String
  pub context : Context

abbrev pub or_empty : Option String → String
or_empty none = ""
or_empty (some s) = s

-- `r.Header.Get(name)` and `chi.URLParam(r, name)`
abbrev pub header : String → Request → String
header name r = or_empty (lookup name r.headers)

abbrev pub url_param : String → Request → String
url_param name r = or_empty (lookup name r.params)

pub data Reply (W : Type 0) : Type 0 where
  returned : W → Writer → Reply W
  panicked : String → W → Writer → Reply W

abbrev pub Handler : Type 0 → Type 0
Handler W = Request → W → Writer → Reply W

abbrev pub status_of : {W : Type 0} → Reply W → Option ℕ
status_of (returned w out) = out.status
status_of (panicked why w out) = out.status

-- The state after a reply, and the response as it stands then.
abbrev pub state_of : {W : Type 0} → Reply W → W
state_of (returned w out) = w
state_of (panicked why w out) = w

abbrev pub writer_of : {W : Type 0} → Reply W → Writer
writer_of (returned w out) = out
writer_of (panicked why w out) = out

abbrev pub map_reply : {V W : Type 0} → (V → W) → Reply V → Reply W
map_reply f (returned v out) = returned (f v) out
map_reply f (panicked why v out) = panicked why (f v) out

-- `r.URL.Path = path`
abbrev pub rewrite : String → Writer → Writer
rewrite path out = record out { rewritten = some path }

-- `r.URL.Path`, after a handler has left `out`.
abbrev pub path_after : Request → Writer → String
path_after r out = elim out.rewritten [ none ↦ r.path | some path ↦ path ]
