-- ===== src/Middleware/Metrics.antt =====
-- internal/middleware/metrics.go, with the collectors of internal/metrics/metrics.go that it uses, which
-- are part of the state: a gauge, and the labels and values of the other three in the order in which
-- they come.
pub mod Gauge
use siger_api_gateway.Common.{
  ℕ, ◌-◌, String, List, [], ◌∷◌, ◌++◌, Time, ℤ, pos, add_one, sub_one, itoa,
}
use siger_api_gateway.Http.{path_after, Handler, Request, Writer, Reply, returned, panicked, Chunk}
use siger_api_gateway.Middleware.Logging.{written_status}

-- Three labels: status, method and path.
pub record RequestLabels : Type 0 where
  pub status : String
  pub method : String
  pub path : String

-- The value that a histogram observes for a method and a path.
pub record Observation : Type 0 where
  pub method : String
  pub path : String
  pub value : ℕ

pub record HttpMetrics : Type 0 where
  pub in_flight_requests : ℤ
  pub requests_total : List RequestLabels
  pub request_duration : List Observation
  pub response_size : List Observation

abbrev pub new_http_metrics : HttpMetrics
new_http_metrics = record {
  in_flight_requests = pos 0;
  requests_total = [];
  request_duration = [];
  response_size = [];
}

-- The increment of the gauge, and the deferred decrement.
unfoldable pub begin_request : HttpMetrics → HttpMetrics
begin_request m = record m { in_flight_requests = add_one m.in_flight_requests }

unfoldable pub end_request : HttpMetrics → HttpMetrics
end_request m = record m { in_flight_requests = sub_one m.in_flight_requests }

module _ (size : List Chunk → ℕ) (start now : Time) where
  -- What is recorded of a response.
  unfoldable pub recorded : Request → Writer → HttpMetrics → HttpMetrics
  recorded r out m = record m {
    requests_total =
        m.requests_total
        ++ record {
          status = itoa (pos (written_status out));
          method = r.method;
          path = path_after r out;
        }
          ∷ [];
    request_duration =
        m.request_duration
        ++ record { method = r.method; path = path_after r out; value = now - start } ∷ [];
    response_size =
        m.response_size
        ++ record { method = r.method; path = path_after r out; value = size out.body } ∷ [];
  }

  -- After a panic only the deferred decrement runs.
  unfoldable pub measured : {W : Type 0} → Request → HttpMetrics → Reply W → Reply (HttpMetrics × W)
  unfolding recorded end_request
  measured r m (returned w out) = returned (end_request (recorded r out m), w) out
  measured r m (panicked why w out) = panicked why (end_request m, w) out

  unfoldable pub metrics : {W : Type 0} → Handler W → Handler (HttpMetrics × W)
  unfolding begin_request measured
  metrics next r (m, w) out = measured r (begin_request m) (next r w out)
