-- ===== src/Middleware/RateLimit/Tests.antt =====
-- The rate limiter at concrete inputs, with limiters that count requests down.
use siger_api_gateway.Common.{
  ℕ, ◌-◌, ◌<◌, ◌≤◌, ◌⊎◌, inl, inr, Bool-cases, arith, Time, ◌≡◌, refl, String, none, some, [], ◌∷◌,
  false, ltb, ◌==◌, if◌then◌else◌, lookup, store, hour, ◌*◌,
}
use siger_api_gateway.Http.{
  Handler, Request, returned, status_of, write, text, fresh_writer, http_error,
}
use siger_api_gateway.Middleware.RateLimit.Library.{RateLibrary}
use siger_api_gateway.Middleware.RateLimit.{
  RateLimiter, token_bucket_rate_limit, get_limiter, client_ip, rate_limit, admit_if, idle_keys,
  janitor_tick,
}
use siger_api_gateway.Middleware.RateLimit.Invariant.{IsPaired}
use siger_api_gateway.Middleware.RateLimit.Janitor.{janitor_tick_cases}
use siger_api_gateway.Middleware.RateLimit.Interleaving.{
  has_read, made, reads, finishes, collects, deletes, finish_limiter, delete_keys, IsTimed,
  Reach-IsTimed,
}
use siger_api_gateway.Middleware.RateLimit.Requests.{
  IsLimiterOf, HasChanged, RateOutcome, rate_limit_cases,
}

abbrev counting : RateLibrary ℕ
counting = record {
  new_limiter = λ r b. b;
  allow = λ now l. (ltb 0 l, l - 1);
  split_host_port = λ s. if s == "1.2.3.4:5" then some "1.2.3.4" else none;
  parse_ip = λ s. if s == "9.9.9.9" then some s else none;
}

abbrev hello : Handler ℕ
hello r w out = returned w (write (text "hello") out)

abbrev ask : String → Request
ask forwarded = record {
  method = "GET";
  path = "/";
  query = "";
  headers = ("X-Forwarded-For", forwarded) ∷ [];
  remote_addr = "1.2.3.4:5";
  tls = false;
  body = "";
  params = [];
  context = [];
}

abbrev limiter : RateLimiter ℕ
limiter = record {
  limiters = ("1.2.3.4", 0) ∷ [];
  r = 100;
  b = 200;
  ttl = hour;
  last_seen = ("1.2.3.4", 5) ∷ [];
}

-- A spent limiter refuses; a list of addresses in X-Forwarded-For is ignored, so that it is the
-- proxy's address that counts; one forged address gets through.
rate_tests :
    (status_of (rate_limit counting 6 6 hello (ask "") (limiter, 0) fresh_writer) ≡ some 429)
    × (client_ip counting (ask "9.9.9.9, 1.2.3.4") ≡ "1.2.3.4")
    × (status_of (rate_limit counting 6 6 hello (ask "9.9.9.9") (limiter, 0) fresh_writer)
        ≡ some 200)
unfolding rate_limit client_ip get_limiter admit_if lookup store write http_error
rate_tests = (refl, refl, refl)

rate_limit_cases_example :
    (l : ℕ) × (rl' : RateLimiter ℕ) × IsLimiterOf counting limiter (client_ip counting (ask "")) l
    × HasChanged counting limiter rl' (client_ip counting (ask "")) (counting.allow 6 l).1 6
    × RateOutcome counting hello 6
        (ask "")
        limiter
        rl'
        l
        0
        fresh_writer
        (rate_limit counting 6 6 hello (ask "") (limiter, 0) fresh_writer)
rate_limit_cases_example = rate_limit_cases counting hello 6 6 (ask "") limiter 0 fresh_writer

-- A request reads its limiter, the janitor deletes it, and the request goes on: the address has a
-- time and no limiter.
Reach-IsTimed_example :
    IsTimed {L = ℕ}
      (finish_limiter 9 (3 * hour) "1.2.3.4" (some 7) (
        delete_keys
          ("1.2.3.4" ∷ [])
          (finish_limiter 7 5 "1.2.3.4" none (token_bucket_rate_limit 100 200)).0)).0
unfolding token_bucket_rate_limit lookup store finish_limiter delete_keys idle_keys
Reach-IsTimed_example = Reach-IsTimed 100 200 (
    finishes [] [] 9 (3 * hour) "1.2.3.4" (some 7) (
      deletes [] (has_read "1.2.3.4" (some 7) ∷ []) ("1.2.3.4" ∷ []) (
        collects (3 * hour)
          (reads "1.2.3.4" (finishes [] [] 7 5 "1.2.3.4" none (reads "1.2.3.4" made))))))

limiter-IsPaired : IsPaired limiter
unfolding lookup
limiter-IsPaired = record {
  distinct = (refl, tt);
  timed = λ key e. elim (Bool-cases ("1.2.3.4" == key)) [
    | inl same ↦ ground (arith, e, same)
    | inr other ↦ rw other refl
  ];
  limits = λ key e. elim (Bool-cases ("1.2.3.4" == key)) [
    | inl same ↦ ground (arith, e, same)
    | inr other ↦ rw other refl
  ];
}

janitor_tick_cases_example :
    ((seen : Time) × (lookup "1.2.3.4" limiter.last_seen ≡ some seen)
      × (limiter.ttl < 2 * hour - seen)
      × (lookup "1.2.3.4" (janitor_tick (2 * hour) limiter).limiters ≡ none)
      × (lookup "1.2.3.4" (janitor_tick (2 * hour) limiter).last_seen ≡ none))
    ⊎ (((seen : Time)
          → lookup "1.2.3.4" limiter.last_seen ≡ some seen
          → 2 * hour - seen ≤ limiter.ttl)
        × (lookup "1.2.3.4" (janitor_tick (2 * hour) limiter).limiters
            ≡ lookup "1.2.3.4" limiter.limiters)
        × (lookup "1.2.3.4" (janitor_tick (2 * hour) limiter).last_seen
            ≡ lookup "1.2.3.4" limiter.last_seen))
janitor_tick_cases_example = janitor_tick_cases (2 * hour) "1.2.3.4" limiter limiter-IsPaired
