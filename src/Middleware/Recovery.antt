-- ===== src/Middleware/Recovery.antt =====
-- internal/middleware/recovery.go: a panic of the next handler becomes a 500. The log of errors is
-- part of the state; the stack trace in it is left out.
use siger_api_gateway.Common.{String, List, [], ◌∷◌, ◌++◌}
use siger_api_gateway.Http.{
  path_after, Handler, Request, Reply, returned, panicked, write_header, write, text,
}

pub record PanicEntry : Type 0 where
  pub panic : String
  pub path : String
  pub method : String
  pub remote_addr : String

abbrev pub PanicLog : Type 0
PanicLog = List PanicEntry

module _ {W : Type 0} where
  recovered : Request → PanicLog → Reply W → Reply (PanicLog × W)
  recovered r log (returned w out) = returned (log, w) out
  recovered r log (panicked why w out) =
      returned
        (
          log
              ++ record {
                panic = why;
                path = path_after r out;
                method = r.method;
                remote_addr = r.remote_addr;
              }
                ∷ [],
          w,
        )
        (write (text "Internal Server Error") (write_header 500 out))

  unfoldable pub recoverer : Handler W → Handler (PanicLog × W)
  unfolding recovered
  recoverer next r (log, w) out = recovered r log (next r w out)
