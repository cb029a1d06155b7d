-- ===== src/Middleware/RateLimit/Interleaving.antt =====
-- `GetLimiter` and `janitor` of internal/middleware/ratelimit.go in the steps between which they hold no
-- lock: each reads, and writes later. `L` stands for the pointers to limiters.
use siger_api_gateway.Common.{
  ℕ, ◌≡◌, refl, String, Option, none, some, List, [], ◌∷◌, ◌++◌, lookup, store, delete_all,
  lookup-store, lookup-delete_all, Time, arith, Option-cases, inl, inr, keys,
}
use siger_api_gateway.Middleware.RateLimit.{RateLimiter, idle_keys, token_bucket_rate_limit}

-- Requests that have read, and collections of the janitor that are not deleted yet.
pub data Pending (L : Type 0) : Type 0 where
  has_read : String → Option L → Pending L
  collected : List String → Pending L

module _ {L : Type 0} where
  -- The read of `GetLimiter`.
  abbrev pub read_limiter : String → RateLimiter L → Option L
  read_limiter key rl = lookup key rl.limiters

  -- Under the lock again, where the read has found nothing: `found` is what the second look finds.
  abbrev add_if_missing : L → Time → String → Option L → RateLimiter L → RateLimiter L × L
  add_if_missing fresh now key none rl = (
    record rl { limiters = store key fresh rl.limiters; last_seen = store key now rl.last_seen },
    fresh,
  )
  add_if_missing fresh now key (some l) rl = (rl, l)

  -- The rest of `GetLimiter` after its read; `fresh` is the limiter that it would make.
  unfoldable pub finish_limiter : L → Time → String → Option L → RateLimiter L → RateLimiter L × L
  finish_limiter fresh now key none rl = add_if_missing fresh now key (lookup key rl.limiters) rl
  finish_limiter fresh now key (some l) rl =
      (record rl { last_seen = store key now rl.last_seen }, l)

  -- The deletions of the janitor.
  unfoldable pub delete_keys : List String → RateLimiter L → RateLimiter L
  delete_keys keys rl = record rl {
    limiters = delete_all keys rl.limiters;
    last_seen = delete_all keys rl.last_seen;
  }

  -- The steps of any number of requests and of the janitor, in any order.
  pub data Reach (rps burst : ℕ) : List (Pending L) → RateLimiter L → Type 0 where
    made : Reach rps burst [] (token_bucket_rate_limit rps burst)
    reads :
        {ps : List (Pending L)} {rl : RateLimiter L} (key : String)
        → Reach rps burst ps rl
        → Reach rps burst (has_read key (read_limiter key rl) ∷ ps) rl
    finishes :
        {rl : RateLimiter L} (before after : List (Pending L)) (fresh : L) (now : Time)
        (key : String) (found : Option L)
        → Reach rps burst (before ++ has_read key found ∷ after) rl
        → Reach rps burst (before ++ after) (finish_limiter fresh now key found rl).0
    collects :
        {ps : List (Pending L)} {rl : RateLimiter L} (now : Time)
        → Reach rps burst ps rl
        → Reach rps burst (collected (idle_keys now rl.ttl rl.last_seen) ∷ ps) rl
    deletes :
        {rl : RateLimiter L} (before after : List (Pending L)) (keys : List String)
        → Reach rps burst (before ++ collected keys ∷ after) rl
        → Reach rps burst (before ++ after) (delete_keys keys rl)

  -- An address without a time has no limiter: whatever has a limiter, the janitor can find.
  abbrev pub IsTimed : RateLimiter L → Type 0
  IsTimed rl = (key : String) → lookup key rl.last_seen ≡ none → lookup key rl.limiters ≡ none

  finish_limiter-IsTimed :
      (fresh : L) (now : Time) (key : String) (found : Option L) (rl : RateLimiter L)
      → IsTimed rl
      → IsTimed (finish_limiter fresh now key found rl).0
  unfolding finish_limiter
  finish_limiter-IsTimed fresh now key none rl h = elim (Option-cases (lookup key rl.limiters)) [
    | inl e ↦ rw e (λ k.
        ground
          (arith, lookup-store key k fresh rl.limiters, lookup-store key k now rl.last_seen, h k))
    | inr (l, e) ↦ rw e h
  ]
  finish_limiter-IsTimed fresh now key (some l) rl h =
      λ k. ground (arith, lookup-store key k now rl.last_seen, h k)

  delete_keys-IsTimed :
      (keys : List String) (rl : RateLimiter L) → IsTimed rl → IsTimed (delete_keys keys rl)
  unfolding delete_keys
  delete_keys-IsTimed keys rl h = λ k.
      ground
        (arith, lookup-delete_all keys k rl.limiters, lookup-delete_all keys k rl.last_seen, h k)

  -- Whatever the order of the steps of requests and of the janitor, each address that has a limiter
  -- has a time of its last request, by which the janitor can find it.
  pub Reach-IsTimed :
      (rps burst : ℕ) {ps : List (Pending L)} {rl : RateLimiter L}
      → Reach rps burst ps rl
      → IsTimed rl
  unfolding token_bucket_rate_limit lookup
  Reach-IsTimed rps burst made = λ key e. refl
  Reach-IsTimed rps burst (reads key reach) = Reach-IsTimed rps burst reach
  Reach-IsTimed rps burst (finishes {rl} before after fresh now key found reach) =
      finish_limiter-IsTimed fresh now key found rl (Reach-IsTimed rps burst reach)
  Reach-IsTimed rps burst (collects now reach) = Reach-IsTimed rps burst reach
  Reach-IsTimed rps burst (deletes {rl} before after keys reach) =
      delete_keys-IsTimed keys rl (Reach-IsTimed rps burst reach)
