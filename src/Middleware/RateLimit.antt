-- ===== src/Middleware/RateLimit.antt =====
-- internal/middleware/ratelimit.go: a token bucket for each client address. The package
-- golang.org/x/time/rate and the parsing of addresses by net are the fields of `Library`.
pub mod Library
pub mod Invariant
pub mod Interleaving
pub mod Janitor
pub mod Requests
pub mod Tests
use siger_api_gateway.Common.{
  ℕ, ◌-◌, Bool, true, false, ◌==◌, ltb, String, Option, none, some, List, [], ◌∷◌, Map, lookup,
  store, delete_all, if◌then◌else◌, Time, hour,
}
use siger_api_gateway.Http.{
  Handler, Request, Writer, Reply, returned, panicked, header, set_header, http_error,
}
use Library.{RateLibrary}

-- The pointers in `limiters` are never shared by two keys, so the map holds the limiters themselves.
pub record RateLimiter (L : Type 0) : Type 0 where
  pub limiters : Map L
  pub r : ℕ
  pub b : ℕ
  pub ttl : Time
  pub last_seen : Map Time

unfoldable pub new_rate_limiter : {L : Type 0} → ℕ → ℕ → Time → RateLimiter L
new_rate_limiter r b ttl = record { limiters = []; r = r; b = b; ttl = ttl; last_seen = [] }

-- `TokenBucketRateLimit`: the limiter that the middleware starts with.
unfoldable pub token_bucket_rate_limit : {L : Type 0} → ℕ → ℕ → RateLimiter L
unfolding new_rate_limiter
token_bucket_rate_limit rps burst = new_rate_limiter rps burst hour

-- `keysToDelete`
unfoldable pub idle_keys : Time → Time → Map Time → List String
idle_keys now ttl [] = []
idle_keys now ttl ((key, seen) ∷ m) =
    let rest = idle_keys now ttl m in if ltb ttl (now - seen) then key ∷ rest else rest

-- One tick of the janitor.
unfoldable pub janitor_tick : {L : Type 0} → Time → RateLimiter L → RateLimiter L
unfolding idle_keys
janitor_tick now rl =
    let keys = idle_keys now rl.ttl rl.last_seen in
    record rl { limiters = delete_all keys rl.limiters; last_seen = delete_all keys rl.last_seen }

-- The value of an option, or `s`.
abbrev or_text : String → Option String → String
or_text s none = s
or_text s (some t) = t

module _ {L : Type 0} (lib : RateLibrary L) where
  -- The limiter of a key, and the two maps with it.
  abbrev pub limiter_or_new : RateLimiter L → Option L → L
  limiter_or_new rl none = lib.new_limiter rl.r rl.b
  limiter_or_new rl (some l) = l

  unfoldable pub get_limiter : Time → String → RateLimiter L → RateLimiter L × L
  get_limiter now key rl =
      let l = limiter_or_new rl (lookup key rl.limiters) in
      (record rl { limiters = store key l rl.limiters; last_seen = store key now rl.last_seen }, l)

  -- A forwarded address replaces the remote one where net can parse it.
  unfoldable pub client_ip : Request → String
  client_ip r =
      let remote = or_text r.remote_addr (lib.split_host_port r.remote_addr) in
      let forwarded = header "X-Forwarded-For" r in
      if forwarded == "" then remote else or_text remote (lib.parse_ip forwarded)

  -- The limiter that `Allow` has changed is the one in the map.
  abbrev pub limited : Time → Time → String → RateLimiter L → Bool × RateLimiter L
  limited seen now ip rl =
      let (rl', l) = get_limiter seen ip rl in
      let (allowed, l') = lib.allow now l in
      (allowed, record rl' { limiters = store ip l' rl'.limiters })

-- The next handler changes a state of its own beside the limiters.
abbrev pub beside : {L W : Type 0} → RateLimiter L → Reply W → Reply (RateLimiter L × W)
beside rl (returned w out) = returned (rl, w) out
beside rl (panicked why w out) = panicked why (rl, w) out

module _ {L W : Type 0} (lib : RateLibrary L) where
  admit_if : Bool → RateLimiter L → Handler W → Request → W → Writer → Reply (RateLimiter L × W)
  admit_if false rl next r w out =
      returned (rl, w)
        (http_error "Rate limit exceeded. Please try again later." 429
          (set_header "Retry-After" "1" out))
  admit_if true rl next r w out = beside rl (next r w out)

  -- `seen` and `now` are the readings of the clock by `GetLimiter` and by `Allow`.
  unfoldable pub rate_limit : Time → Time → Handler W → Handler (RateLimiter L × W)
  unfolding get_limiter client_ip admit_if
  rate_limit seen now next r (rl, w) out =
      let (allowed, rl') = limited lib seen now (client_ip lib r) rl in
      admit_if allowed rl' next r w out
