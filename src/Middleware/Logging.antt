-- ===== src/Middleware/Logging.antt =====
-- internal/middleware/logging.go: the log of requests, which is part of the state. The protocol is left
-- out. `size` gives the bytes that a response's chunks come to.
use siger_api_gateway.Common.{
  ℕ, ◌-◌, ◌/◌, ◌^◌, String, none, some, List, [], ◌∷◌, ◌++◌, if◌then◌else◌, Time,
}
use siger_api_gateway.Http.{
  path_after, Handler, Request, Writer, Reply, returned, panicked, header, Chunk,
}

pub record LogEntry : Type 0 where
  pub status : ℕ
  pub duration_ms : ℕ
  pub method : String
  pub path : String
  pub query : String
  pub remote_addr : String
  pub user_agent : String
  pub scheme : String
  pub bytes_written : ℕ

abbrev pub RequestLog : Type 0
RequestLog = List LogEntry

-- `ww.Status()`: 0 where no status has been written.
abbrev pub written_status : Writer → ℕ
written_status out = elim out.status [ none ↦ 0 | some n ↦ n ]

-- Nothing is written to the response before this middleware, so that all of it is the next handler's.
abbrev pub log_entry : (List Chunk → ℕ) → Time → Time → Request → Writer → LogEntry
log_entry size start now r out = record {
  status = written_status out;
  duration_ms = (now - start) / 10 ^ 6;
  method = r.method;
  path = path_after r out;
  query = r.query;
  remote_addr = r.remote_addr;
  user_agent = header "User-Agent" r;
  scheme = if r.tls then "https" else "http";
  bytes_written = size out.body;
}

module _ {W : Type 0} (size : List Chunk → ℕ) (start now : Time) where
  -- A panic goes past the call of the logger.
  logged : Request → RequestLog → Reply W → Reply (RequestLog × W)
  logged r log (returned w out) = returned (log ++ log_entry size start now r out ∷ [], w) out
  logged r log (panicked why w out) = panicked why (log, w) out

  unfoldable pub request_logger : Handler W → Handler (RequestLog × W)
  unfolding logged
  request_logger next r (log, w) out = logged r log (next r w out)
