-- ===== src/Middleware/RateLimit/Requests.antt =====
-- What the rate limiter does with a request.
use siger_api_gateway.Common.{
  ◌≡◌, refl, ◌≢◌, ◌⊎◌, inl, inr, String, none, some, lookup, true, false, Bool-cases, Option-cases,
  Time, eq_refl, ne→eq_false, sym, ◌∙◌,
}
use siger_api_gateway.Http.{
  Handler, Request, Writer, Reply, returned, header, set_header, http_error,
}
use siger_api_gateway.Middleware.RateLimit.Library.{RateLibrary}
use siger_api_gateway.Middleware.RateLimit.{
  RateLimiter, get_limiter, limited, client_ip, rate_limit, limiter_or_new, admit_if, beside,
}
use siger_api_gateway.Middleware.RateLimit.Invariant.{lookup-limited}

module _ {L : Type 0} (lib : RateLibrary L) where
  -- The limiter of an address: the one that is stored, or else a new one.
  abbrev pub IsLimiterOf : RateLimiter L → String → L → Type 0
  IsLimiterOf rl ip l =
      (lookup ip rl.limiters ≡ some l)
      ⊎ ((lookup ip rl.limiters ≡ none) × (l ≡ lib.new_limiter rl.r rl.b))

  -- The entries of one address have changed, to a limiter and a time.
  pub record HasChanged (rl rl' : RateLimiter L) (ip : String) (l : L) (seen : Time) : Type 0 where
    pub limiter : lookup ip rl'.limiters ≡ some l
    pub time : lookup ip rl'.last_seen ≡ some seen
    pub others :
        (key : String)
        → key ≢ ip
        → (lookup key rl'.limiters ≡ lookup key rl.limiters)
          × (lookup key rl'.last_seen ≡ lookup key rl.last_seen)

  is_limiter_of :
      (rl : RateLimiter L) (ip : String)
      → IsLimiterOf rl ip (limiter_or_new lib rl (lookup ip rl.limiters))
  is_limiter_of rl ip = elim (Option-cases (lookup ip rl.limiters)) [
    | inl e ↦ inr (e, rw e refl)
    | inr (l, e) ↦ inl (rw e refl)
  ]

  limited-HasChanged :
      (seen now : Time) (ip : String) (rl : RateLimiter L)
      → HasChanged rl
          (limited lib seen now ip rl).1
          ip
          (lib.allow now (limiter_or_new lib rl (lookup ip rl.limiters))).1
          seen
  limited-HasChanged seen now ip rl = record {
    limiter = (lookup-limited lib seen now ip ip rl).0 ∙ rw (eq_refl ip) refl;
    time = (lookup-limited lib seen now ip ip rl).1 ∙ rw (eq_refl ip) refl;
    others = λ key ne.
        let other = ne→eq_false ip key (λ e. ne (sym e)) in
        let (l, t) = lookup-limited lib seen now ip key rl in
        (l ∙ rw other refl, t ∙ rw other refl);
  }

  module _ {W : Type 0} (next : Handler W) where
    -- The outcome for a request whose address has the limiter `l`.
    abbrev pub RateOutcome :
        Time
        → Request
        → RateLimiter L
        → RateLimiter L
        → L
        → W
        → Writer
        → Reply (RateLimiter L × W)
        → Type 0
    RateOutcome now r rl rl' l w out reply =
        (((lib.allow now l).0 ≡ true) × (reply ≡ beside rl' (next r w out)))
        ⊎ (((lib.allow now l).0 ≡ false)
            × (reply
                ≡ returned (rl', w)
                    (http_error "Rate limit exceeded. Please try again later." 429
                      (set_header "Retry-After" "1" out))))

    -- A request takes from the limiter of its address, an unknown one getting a new one: where
    -- that limiter allows it, the next handler runs, and else it is answered with 429 and the next
    -- handler does not run. The limiter and the time of that address are renewed, and those of
    -- every other address stay.
    pub rate_limit_cases :
        (seen now : Time) (r : Request) (rl : RateLimiter L) (w : W) (out : Writer)
        → (l : L) × (rl' : RateLimiter L) × IsLimiterOf rl (client_ip lib r) l
          × HasChanged rl rl' (client_ip lib r) (lib.allow now l).1 seen
          × RateOutcome now r rl rl' l w out (rate_limit lib seen now next r (rl, w) out)
    unfolding rate_limit admit_if get_limiter
    rate_limit_cases seen now r rl w out =
        let ip = client_ip lib r in
        let l = limiter_or_new lib rl (lookup ip rl.limiters) in
        (
          l,
          (limited lib seen now ip rl).1,
          is_limiter_of rl ip,
          limited-HasChanged seen now ip rl,
          elim (Bool-cases (lib.allow now l).0) [
            | inl e ↦ inl (e, rw e refl)
            | inr e ↦ inr (e, rw e refl)
          ],
        )

    -- If a new limiter allows a request, then a client whose X-Forwarded-For names an address
    -- that the gateway does not know is never refused, whatever it has sent before.
    pub rate_limit-forged :
        (seen now : Time) (r : Request) (forged : String) (rl : RateLimiter L) (w : W)
        (out : Writer)
        → (lib.allow now (lib.new_limiter rl.r rl.b)).0 ≡ true
        → header "X-Forwarded-For" r ≢ ""
        → lib.parse_ip (header "X-Forwarded-For" r) ≡ some forged
        → lookup forged rl.limiters ≡ none
        → (rl' : RateLimiter L) × (rate_limit lib seen now next r (rl, w) out
            ≡ beside rl' (next r w out))
    unfolding rate_limit admit_if get_limiter client_ip
    rate_limit-forged seen now r forged rl w out allows sent parsed unknown =
        let ip : client_ip lib r ≡ forged =
          rw (ne→eq_false (header "X-Forwarded-For" r) "" sent, parsed) refl in
        ((limited lib seen now forged rl).1, rw (ip, unknown, allows) refl)
