-- ===== src/Middleware/RateLimit/Janitor.antt =====
-- What a tick of the janitor deletes.
use siger_api_gateway.Common.{
  ◌≡◌, refl, ◌-◌, ◌<◌, ◌≤◌, ◌⊎◌, inl, inr, String, Option, none, some, [], ◌∷◌, arith, Map, lookup,
  Distinct, lookup-delete_all, contains, Bool, false, Bool-cases, Option-cases, Time, ltb, eq_iff,
}
use siger_api_gateway.Middleware.RateLimit.{RateLimiter, janitor_tick, idle_keys}
use siger_api_gateway.Middleware.RateLimit.Invariant.{IsPaired}

-- Whether the time of a look-up, if there is one, is too long ago.
abbrev idle_at : Time → Time → Option Time → Bool
idle_at now ttl none = false
idle_at now ttl (some seen) = ltb ttl (now - seen)

contains-idle_keys :
    (now ttl : Time) (key : String) (m : Map Time)
    → Distinct m
    → contains key (idle_keys now ttl m) ≡ idle_at now ttl (lookup key m)
unfolding contains idle_keys lookup
contains-idle_keys now ttl key [] d = refl
contains-idle_keys now ttl key ((k, seen) ∷ m) (fresh, d) =
    elim (Bool-cases (ltb ttl (now - seen))) [
      | inl e ↦ ground (arith, contains-idle_keys now ttl key m d, eq_iff k key)
      | inr e ↦ ground (arith, contains-idle_keys now ttl key m d, eq_iff k key)
    ]

module _ {L : Type 0} where
  -- Where just the addresses with a limiter have a time of their last request, one each, a tick of the
  -- janitor forgets an address, its limiter and its time, if that time is longer ago than the time
  -- to live, and keeps both entries of every other address.
  pub janitor_tick_cases :
      (now : Time) (key : String) (rl : RateLimiter L)
      → IsPaired rl
      → ((seen : Time) × (lookup key rl.last_seen ≡ some seen)
          × (rl.ttl < now - seen)
          × (lookup key (janitor_tick now rl).limiters ≡ none)
          × (lookup key (janitor_tick now rl).last_seen ≡ none))
        ⊎ (((seen : Time) → lookup key rl.last_seen ≡ some seen → now - seen ≤ rl.ttl)
            × (lookup key (janitor_tick now rl).limiters ≡ lookup key rl.limiters)
            × (lookup key (janitor_tick now rl).last_seen ≡ lookup key rl.last_seen))
  unfolding janitor_tick
  janitor_tick_cases now key rl v =
      let keys = idle_keys now rl.ttl rl.last_seen in
      let is_idle = contains-idle_keys now rl.ttl key rl.last_seen v.distinct in
      let limiters = lookup-delete_all keys key rl.limiters in
      let times = lookup-delete_all keys key rl.last_seen in
      elim (Option-cases (lookup key rl.last_seen)) [
        | inl absent ↦
            inr ((λ s e. cc), ground (arith, is_idle, limiters), ground (arith, is_idle, times))
        | inr (seen, e) ↦ elim (Bool-cases (ltb rl.ttl (now - seen))) [
          | inl old ↦ inl (
            seen,
            e,
            ground arith,
            ground (arith, is_idle, limiters),
            ground (arith, is_idle, times),
          )
          | inr young ↦ inr (
            (λ s e'. let same : seen ≡ s = cc in rw (← same) (ground arith)),
            ground (arith, is_idle, limiters),
            ground (arith, is_idle, times),
          )
        ]
      ]
