-- ===== src/Middleware/Metrics/Gauge.antt =====
-- The gauge of the requests under way, however requests overlap.
use siger_api_gateway.Common.{
  String, ℕ, suc, ◌≡◌, refl, ap, List, [], ◌∷◌, ◌++◌, pos, Time, length, length-append, arith,
  add_one, sub_one,
}
use siger_api_gateway.Http.{Request, Writer, Chunk, returned, panicked, state_of}
use siger_api_gateway.Middleware.Metrics.{
  HttpMetrics, new_http_metrics, begin_request, end_request, recorded, measured,
}

grows : {A : Type 0} (xs : List A) (x : A) {k : ℕ} → length xs ≡ k → length (xs ++ x ∷ []) ≡ suc k
grows xs x e = omega (arith, length-append xs (x ∷ []))

-- The gauge stands at `n`, and `k` requests are counted and measured.
abbrev pub IsCounted : ℕ → ℕ → HttpMetrics → Type 0
IsCounted n k m =
    (m.in_flight_requests ≡ pos n)
    × (length m.requests_total ≡ k)
    × (length m.request_duration ≡ k)
    × (length m.response_size ≡ k)

module _ (size : List Chunk → ℕ) (W : Type 0) where
  -- The steps of requests that overlap: one begins; the handler of one of those under way returns, or
  -- panics, and `Metrics` does the rest of its work. The indices are the number under way, the number
  -- that have returned, and the collectors.
  pub data Reach : ℕ → ℕ → HttpMetrics → Type 0 where
    start : Reach 0 0 new_http_metrics
    begins : {n k : ℕ} {m : HttpMetrics} → Reach n k m → Reach (suc n) k (begin_request m)
    returns :
        {n k : ℕ} {m : HttpMetrics} (start now : Time) (r : Request) (w : W) (out : Writer)
        → Reach (suc n) k m
        → Reach n (suc k) (state_of (measured size start now r m (returned w out))).0
    panics :
        {n k : ℕ} {m : HttpMetrics} (start now : Time) (r : Request) (why : String) (w : W)
        (out : Writer)
        → Reach (suc n) k m
        → Reach n k (state_of (measured size start now r m (panicked why w out))).0

  -- However requests overlap, the gauge is the number of those that have begun and neither returned
  -- nor panicked, and each one that has returned is counted and measured once.
  pub Reach-IsCounted : {n k : ℕ} {m : HttpMetrics} → Reach n k m → IsCounted n k m
  unfolding begin_request end_request recorded measured
  Reach-IsCounted start = (refl, refl, refl, refl)
  Reach-IsCounted (begins reach) =
      let (gauge, total, durations, sizes) = Reach-IsCounted reach in
      (ap add_one gauge, total, durations, sizes)
  Reach-IsCounted (returns s now r w out reach) =
      let (gauge, total, durations, sizes) = Reach-IsCounted reach in
      (ap sub_one gauge, grows _ _ total, grows _ _ durations, grows _ _ sizes)
  Reach-IsCounted (panics s now r why w out reach) =
      let (gauge, total, durations, sizes) = Reach-IsCounted reach in
      (ap sub_one gauge, total, durations, sizes)
