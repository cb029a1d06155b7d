-- ===== src/Middleware/RateLimit/Invariant.antt =====
-- The two maps of the rate limiter go together.
use siger_api_gateway.Common.{
  ℕ, ◌≡◌, refl, String, none, some, List, [], ◌∷◌, arith, lookup, store, Distinct, store-Distinct,
  lookup-store, lookup-delete_all, delete_all-Distinct, if◌then◌else◌, Time, ◌==◌,
}
use siger_api_gateway.Middleware.RateLimit.Library.{RateLibrary}
use siger_api_gateway.Middleware.RateLimit.{
  RateLimiter, limiter_or_new, get_limiter, limited, janitor_tick, idle_keys,
  token_bucket_rate_limit,
}

-- No key stands twice in `last_seen`, and each key has a limiter exactly if it has a time there.
pub record IsPaired {L : Type 0} (rl : RateLimiter L) : Type 0 where
  pub distinct : Distinct rl.last_seen
  pub timed : (key : String) → lookup key rl.limiters ≡ none → lookup key rl.last_seen ≡ none
  pub limits : (key : String) → lookup key rl.last_seen ≡ none → lookup key rl.limiters ≡ none

module _ {L : Type 0} where
  pub token_bucket_rate_limit-IsPaired :
      (rps burst : ℕ) → IsPaired (token_bucket_rate_limit {L = L} rps burst)
  unfolding token_bucket_rate_limit lookup
  token_bucket_rate_limit-IsPaired rps burst = record {
    distinct = tt;
    timed = λ k e. refl;
    limits = λ k e. refl;
  }

  pub janitor_tick-IsPaired :
      (now : Time) (rl : RateLimiter L) → IsPaired rl → IsPaired (janitor_tick now rl)
  unfolding janitor_tick
  janitor_tick-IsPaired now rl v =
      let keys = idle_keys now rl.ttl rl.last_seen in
      record {
        distinct = delete_all-Distinct keys rl.last_seen v.distinct;
        timed = λ k. ground (
          arith,
          lookup-delete_all keys k rl.limiters,
          lookup-delete_all keys k rl.last_seen,
          v.timed k,
        );
        limits = λ k. ground (
          arith,
          lookup-delete_all keys k rl.limiters,
          lookup-delete_all keys k rl.last_seen,
          v.limits k,
        );
      }

-- What happens to the rate limiter: a request, or a tick of the janitor.
pub data RateAction : Type 0 where
  request : (seen now : Time) (ip : String) → RateAction
  tick : Time → RateAction

module _ {L : Type 0} (lib : RateLibrary L) where
  abbrev rate_perform : RateAction → RateLimiter L → RateLimiter L
  rate_perform (request seen now ip) rl = (limited lib seen now ip rl).1
  rate_perform (tick now) rl = janitor_tick now rl

  unfoldable pub rate_perform_all : List RateAction → RateLimiter L → RateLimiter L
  rate_perform_all [] rl = rl
  rate_perform_all (a ∷ actions) rl = rate_perform_all actions (rate_perform a rl)

  -- A request touches the entries of its own address alone.
  pub lookup-limited :
      (seen now : Time) (ip key : String) (rl : RateLimiter L)
      → (lookup key (limited lib seen now ip rl).1.limiters ≡ (
          if ip == key
          then some (lib.allow now (limiter_or_new lib rl (lookup ip rl.limiters))).1
          else lookup key rl.limiters))
        × (lookup key (limited lib seen now ip rl).1.last_seen
            ≡ (if ip == key then some seen else lookup key rl.last_seen))
  unfolding get_limiter
  lookup-limited seen now ip key rl =
      let l = limiter_or_new lib rl (lookup ip rl.limiters) in
      let l' = (lib.allow now l).1 in
      (
        ground (
          arith,
          lookup-store ip key l' (store ip l rl.limiters),
          lookup-store ip key l rl.limiters,
        ),
        lookup-store ip key seen rl.last_seen,
      )

  pub limited-IsPaired :
      (seen now : Time) (ip : String) (rl : RateLimiter L)
      → IsPaired rl
      → IsPaired (limited lib seen now ip rl).1
  unfolding get_limiter
  limited-IsPaired seen now ip rl v = record {
    distinct = store-Distinct ip seen rl.last_seen v.distinct;
    timed = λ k. ground (arith, lookup-limited seen now ip k rl, v.timed k);
    limits = λ k. ground (arith, lookup-limited seen now ip k rl, v.limits k);
  }

  rate_perform-IsPaired :
      (a : RateAction) (rl : RateLimiter L) → IsPaired rl → IsPaired (rate_perform a rl)
  rate_perform-IsPaired (request seen now ip) rl v = limited-IsPaired seen now ip rl v
  rate_perform-IsPaired (tick now) rl v = janitor_tick-IsPaired now rl v

  kept :
      (actions : List RateAction) (rl : RateLimiter L)
      → IsPaired rl
      → IsPaired (rate_perform_all actions rl)
  unfolding rate_perform_all
  kept [] rl v = v
  kept (a ∷ actions) rl v = kept actions (rate_perform a rl) (rate_perform-IsPaired a rl v)

  -- Whatever requests come and whenever the janitor runs: each client address that has a limiter has
  -- one time of its last request and each address with such a time has a limiter.
  pub rate_perform_all-IsPaired :
      (rps burst : ℕ) (actions : List RateAction)
      → IsPaired (rate_perform_all actions (token_bucket_rate_limit rps burst))
  rate_perform_all-IsPaired rps burst actions =
      kept actions (token_bucket_rate_limit rps burst) (token_bucket_rate_limit-IsPaired rps burst)
