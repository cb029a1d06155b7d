-- ===== src/Router/Recovers.antt =====
-- What the gateway records of every request, and that it answers every one.
use siger_api_gateway.Common.{
  ℕ, ◌≡◌, refl, ◌⊎◌, inl, inr, String, none, some, [], ◌∷◌, ◌++◌, sub_one-add_one, itoa, pos, Map,
}
use siger_api_gateway.Http.{
  path_after, Handler, Request, Writer, Reply, returned, panicked, write, write_header, text,
  fresh_writer,
}
use siger_api_gateway.Middleware.Recovery.{PanicLog, PanicEntry, recoverer}
use siger_api_gateway.Middleware.Logging.{RequestLog, LogEntry, request_logger, log_entry}
use siger_api_gateway.Middleware.Metrics.{
  HttpMetrics, metrics, recorded, begin_request, end_request,
}
use siger_api_gateway.Middleware.Cors.{cors, default_cors_options}
use siger_api_gateway.Middleware.Cors.Headers.{unwritten}
use siger_api_gateway.Middleware.Cors.Cases.{CorsOutcome, cors_cases}
use siger_api_gateway.Middleware.RateLimit.{RateLimiter}
use siger_api_gateway.Router.{Server, App, Gateway, observed, gateway, behind_cors}

-- The path that the logs and the counter name: that of the request, or the one that a handler has put
-- in its place.
abbrev pub final_path : Request → Writer → String
final_path r out = elim out.rewritten [ none ↦ r.path | some path ↦ path ]

-- The status of a response, or 0 if nothing was written.
abbrev pub final_status : Writer → ℕ
final_status out = elim out.status [ none ↦ 0 | some status ↦ status ]

module _ {L : Type 0} (v : Server L) {W : Type 0} where
  -- The three records before and after a request, and the reply to it.
  pub record IsRecorded (r : Request) (plog : PanicLog) (log : RequestLog) (m : HttpMetrics)
      (inner : Reply W) (reply : Reply (PanicLog × (RequestLog × (HttpMetrics × W)))) : Type 0 where
    pub m' : HttpMetrics
    pub balanced : m'.in_flight_requests ≡ m.in_flight_requests
    pub outcome :
        ((w : W) × (out : Writer) × (entry : LogEntry) × (inner ≡ returned w out)
          × (reply ≡ returned (plog, (log ++ entry ∷ [], (m', w))) out)
          × (entry.status ≡ final_status out)
          × (entry.method ≡ r.method)
          × (entry.path ≡ final_path r out)
          × (m'.requests_total
              ≡ m.requests_total
                ++ record {
                  status = itoa (pos (final_status out));
                  method = r.method;
                  path = final_path r out;
                }
                  ∷ []))
        ⊎ ((why : String) × (w : W) × (out : Writer) × (entry : PanicEntry) × (inner
              ≡ panicked why w out)
            × (reply
                ≡ returned
                    (plog ++ entry ∷ [], (log, (m', w)))
                    (write (text "Internal Server Error") (write_header 500 out)))
            × (entry.panic ≡ why)
            × (entry.path ≡ final_path r out)
            × (m'.requests_total ≡ m.requests_total))

  pub observed_cases :
      (next : Handler W) (r : Request) (plog : PanicLog) (log : RequestLog) (m : HttpMetrics)
      (w : W) (out : Writer)
      → IsRecorded r plog log m (next r w out) (observed v next r (plog, (log, (m, w))) out)
  unfolding recoverer request_logger metrics begin_request end_request recorded
  observed_cases next r plog log m w out = go (next r w out) refl
    where
      go :
          (inner : Reply W)
          → next r w out ≡ inner
          → IsRecorded r plog log m (next r w out) (observed v next r (plog, (log, (m, w))) out)
      go (returned w' out') e = record {
        m' = end_request (recorded v.size v.start v.stop r out' (begin_request m));
        balanced = sub_one-add_one m.in_flight_requests;
        outcome = inl (
          w',
          out',
          log_entry v.size v.start v.stop r out',
          e,
          rw e refl,
          refl,
          refl,
          refl,
          refl,
        );
      }
      go (panicked why w' out') e = record {
        m' = end_request (begin_request m);
        balanced = sub_one-add_one m.in_flight_requests;
        outcome = inr (
          why,
          w',
          out',
          record {
            panic = why;
            path = path_after r out';
            method = r.method;
            remote_addr = r.remote_addr;
          },
          e,
          rw e refl,
          refl,
          refl,
          refl,
        );
      }

-- The default options allow an origin.
pub cors_made :
    {L : Type 0} (v : Server L)
    → (middleware : Handler (RateLimiter L × App) → Handler (RateLimiter L × App)) × (cors
          v.to_lower none
        ≡ some middleware)
      × ((r : Request) (s : RateLimiter L × App) (before : Map String)
          → CorsOutcome v.to_lower default_cors_options
              (behind_cors v)
              r
              s
              before
              (middleware (behind_cors v) r s (unwritten before)))
unfolding cors
cors_made v = elim (cors_cases v.to_lower default_cors_options (behind_cors v)) [
  | inl (empty, e) ↦ absurd (not_empty empty)
  | inr (middleware, e, outcomes) ↦ (middleware, e, outcomes)
]
  where
    not_empty : ¬ (default_cors_options.allowed_origins ≡ [])
    not_empty e = cc

-- The gateway can be built, and it answers every request. The gauge of the requests under way is
-- afterwards what it was. Where the handlers behind CORS return, their response goes out, and it is
-- counted and logged with its status; where they panic, the panic alone is logged, the request is
-- neither counted nor logged as such, and the client gets a 500 unless a status was written. The path in
-- the counter and in both logs is the one that a handler has put into the URL, if one has.
pub gateway_answers :
    {L : Type 0} (v : Server L)
    → (serve : Handler (Gateway L)) × (middleware : Handler (RateLimiter L × App)
        → Handler (RateLimiter L × App))
      × (gateway v ≡ some serve)
      × (cors v.to_lower none ≡ some middleware)
      × ((r : Request) (plog : PanicLog) (log : RequestLog) (m : HttpMetrics)
            (s : RateLimiter L × App)
          → IsRecorded v r plog log m
              (middleware (behind_cors v) r s fresh_writer)
              (serve r (plog, (log, (m, s))) fresh_writer))
unfolding gateway
gateway_answers v =
    let (middleware, made, _) = cors_made v in
    (
      observed v (middleware (behind_cors v)),
      middleware,
      rw made refl,
      made,
      λ r plog log m s. observed_cases v (middleware (behind_cors v)) r plog log m s fresh_writer,
    )
