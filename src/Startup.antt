-- ===== src/Startup.antt =====
-- cmd/main.go: the start of the NATS client and of the job store, and the choice of the rate limit; the
-- modules below have the registration at Consul and `main` as a whole.
pub mod Port
pub mod Registration
pub mod Launch
pub mod Subscription
pub mod Tests
use siger_api_gateway.Common.{
  ℕ, String, ◌==◌, Option, none, some, List, [], ◌∷◌, pos, if◌then◌else◌,
}
use siger_api_gateway.Storage.{JobStore, new_job_store}
use siger_api_gateway.Messaging.{
  NatsConfig, NatsClient, Dial, Made, made, failed, new_nats_client, StreamConfig, Duration,
  ensure_stream, subscribe_to_status_updates, set_job_store,
}
use siger_api_gateway.Middleware.RateLimit.{RateLimiter, token_bucket_rate_limit}

-- What the NATS library and `time.ParseDuration` answer.
pub record Answers : Type 0 where
  pub dialled : Dial
  pub duration : String → Duration
  pub create_stream : StreamConfig → Option String
  pub subscribe : Option String

abbrev pub nats_config : String → NatsConfig
nats_config address = record { url = address; stream = "jobs"; max_age = "24h"; replicas = pos 1 }

-- The client, if there is one, the errors of the two calls, which are only logged, and the store.
pub record Started : Type 0 where
  pub nats : Option NatsClient
  pub stream_error : Option String
  pub subscription_error : Option String
  pub job_store : JobStore

abbrev job_store : JobStore
job_store = new_job_store (pos 10000)

-- The calls after `NewNATSClient`, in their order.
connected_or_not : Answers → Made → Started
connected_or_not a (failed e) = record {
  nats = none;
  stream_error = none;
  subscription_error = none;
  job_store = job_store;
}
connected_or_not a (made client) = record {
  nats = some (set_job_store client);
  stream_error = ensure_stream a.duration a.create_stream ("jobs.*" ∷ []) client;
  subscription_error = subscribe_to_status_updates a.subscribe client;
  job_store = job_store;
}

unfoldable pub start_messaging : Answers → String → Started
unfolding connected_or_not
start_messaging a address =
    if address == ""
    then record {
      nats = none;
      stream_error = none;
      subscription_error = none;
      job_store = job_store;
    }
    else connected_or_not a (new_nats_client (nats_config address) a.dialled)

-- The rate limiter for the log level of the configuration.
unfoldable pub start_rate_limiter : {L : Type 0} → String → RateLimiter L
start_rate_limiter level =
    if level == "debug" then token_bucket_rate_limit 1000 2000 else token_bucket_rate_limit 100 200
