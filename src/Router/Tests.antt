-- ===== src/Router/Tests.antt =====
-- The gateway at concrete inputs.
use siger_api_gateway.Common.{ℕ, ◌-◌, ◌≡◌, refl, none, some, [], false, ltb, pos, length}
use siger_api_gateway.Http.{Handler, Request, returned, state_of, fresh_writer}
use siger_api_gateway.Storage.{new_job_store}
use siger_api_gateway.Middleware.Auth.Example.{library, library-laws}
use siger_api_gateway.Middleware.Recovery.{PanicLog}
use siger_api_gateway.Middleware.Logging.{RequestLog}
use siger_api_gateway.Middleware.Metrics.{HttpMetrics, new_http_metrics, begin_request, measured}
use siger_api_gateway.Middleware.Metrics.Gauge.{start, begins, returns, IsCounted, Reach-IsCounted}
use siger_api_gateway.Middleware.Cors.{cors}
use siger_api_gateway.Middleware.RateLimit.{RateLimiter, token_bucket_rate_limit}
use siger_api_gateway.Handlers.Jobs.{JobSubmissionHandler}
use siger_api_gateway.Handlers.Jobs
use siger_api_gateway.Handlers.Accounts
use siger_api_gateway.Handlers.Accounts.{new_auth_handler}
use siger_api_gateway.Discovery.Registry.{failed, query_failed}
use siger_api_gateway.Proxy.{unreachable}
use siger_api_gateway.Router.{list_route, App, Outside, Server, Gateway, gateway, behind_cors}
use siger_api_gateway.Router.Guarded.{IsEarned}
use siger_api_gateway.Router.Recovers.{IsRecorded, gateway_answers}
use siger_api_gateway.Router.Protection.{ChiLaws, IsLike, app_of, gateway_protects}

abbrev outside : Outside
outside = record {
  jobs = record {
    clock = λ k. k;
    uuid = "j-1";
    decode = λ body. Jobs.malformed "EOF";
    broker = record { core = λ s m. none; stream = λ s m. none };
  };
  accounts = record {
    clock = λ k. k;
    uuid = "u-1";
    decode_login = λ body. Accounts.malformed "EOF";
    decode_user = λ body. Accounts.malformed "EOF";
    jwt = library;
  };
  jwt = library;
  now = 7;
  secret = "s";
  discover = λ name. failed query_failed;
  draw = 0;
  backend = λ o. unreachable;
  metrics_page = λ out. out;
}

abbrev server : Server ℕ
server = record {
  start = 1;
  stop = 2;
  seen = 1;
  taken = 1;
  size = λ chunks. length chunks;
  to_lower = λ s. s;
  rate = record {
    new_limiter = λ r b. b;
    allow = λ now l. (ltb 0 l, l - 1);
    split_host_port = λ s. none;
    parse_ip = λ s. none;
  };
  find_route = λ r. (list_route, []);
  outside = outside;
  request_id = λ next. next;
  real_ip = λ next. next;
  url_format = λ next. next;
  timeout = λ next. next;
}

abbrev same : (r : Request) → IsLike r r
same r = record { method = refl; path = refl; headers = refl; body = refl }

server-ChiLaws : ChiLaws server
server-ChiLaws = record {
  request_id = λ next r s out. (r, same r, refl);
  real_ip = λ next r s out. (r, same r, refl);
  url_format = λ next r s out. (r, same r, refl);
  timeout = λ next r s out. (r, same r, refl);
}

abbrev app : App
app = record {
  jobs = record { job_store = new_job_store (pos 10); nats = none; sent = [] };
  accounts = new_auth_handler "s" (pos 60);
  proxy = none;
}

abbrev ask : Request
ask = record {
  method = "GET";
  path = "/api/v1/jobs";
  query = "";
  headers = [];
  remote_addr = "1.2.3.4:5";
  tls = false;
  body = "";
  params = [];
  context = [];
}

abbrev idle : Gateway ℕ
idle = ([], ([], (new_http_metrics, (token_bucket_rate_limit 100 200, app))))

gateway_answers_example :
    (serve : Handler (Gateway ℕ)) × (middleware : Handler (RateLimiter ℕ × App)
      → Handler (RateLimiter ℕ × App))
    × (gateway server ≡ some serve)
    × (cors server.to_lower none ≡ some middleware)
    × ((r : Request) (plog : PanicLog) (log : RequestLog) (m : HttpMetrics)
          (s : RateLimiter ℕ × App)
        → IsRecorded server r plog log m
            (middleware (behind_cors server) r s fresh_writer)
            (serve r (plog, (log, (m, s))) fresh_writer))
gateway_answers_example = gateway_answers server

gateway_protects_example :
    (serve : Handler (Gateway ℕ)) × (gateway server ≡ some serve)
    × IsEarned outside ask app (app_of (state_of (serve ask idle fresh_writer)))
gateway_protects_example =
    gateway_protects server library-laws server-ChiLaws ask (λ r like. refl) idle

Reach-IsCounted_example : IsCounted 1 1 (
    (state_of (
      measured length 3 5 {W = ℕ} ask
        (begin_request (begin_request new_http_metrics))
        (returned 0 fresh_writer))).0)
Reach-IsCounted_example =
    Reach-IsCounted length ℕ (returns 3 5 ask 0 fresh_writer (begins (begins start)))
