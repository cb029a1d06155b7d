-- ===== src/Middleware/RateLimit/Library.antt =====
-- What the rate limiter uses of golang.org/x/time/rate, and of net for addresses.
use siger_api_gateway.Common.{ℕ, Bool, String, Option, Time}

pub record RateLibrary (L : Type 0) : Type 0 where
  -- `rate.NewLimiter`, from the requests per second and the size of the burst
  pub new_limiter : ℕ → ℕ → L
  -- `Allow` at some time: the answer, and the limiter after it
  pub allow : Time → L → Bool × L
  -- the host of `net.SplitHostPort`, unless that fails
  pub split_host_port : String → Option String
  -- `net.ParseIP`, and the text of its result
  pub parse_ip : String → Option String
