-- ===== src/Messaging/Tests.antt =====
-- The NATS client and its handler of status updates at concrete inputs.
use siger_api_gateway.Common.{
  ◌≡◌, refl, none, some, List, [], ◌∷◌, arith, pos, true, false, lookup, store, if◌then◌else◌,
}
use siger_api_gateway.Http.{null}
use siger_api_gateway.Storage.{
  JobInfo, JobStore, ok, get_job, new_job_store, add_job, update_job_status, updated,
  job_status_cancelled,
}
use siger_api_gateway.Storage.Invariant.{
  IsValid, Call, adds, perform, perform_all, perform_all-IsValid,
}
use siger_api_gateway.Messaging.{
  NatsConfig, NatsClient, made, failed, connected, connect_failed, new_nats_client, set_job_store,
  subscribe_to_status_updates, publish, publish_to_stream, Broker, not_initialized, ensure_stream,
  invalid, subscribe,
}
use siger_api_gateway.Messaging.StatusUpdates.{JobStatusUpdate, handle_status_update, add_times}
use siger_api_gateway.Messaging.StatusUpdates.Effect.{
  reports_time, reported_at, get_job-handle_status_update,
}
use siger_api_gateway.Messaging.StatusUpdates.Lost.{cancel_lost}

messaging : Unit {0}
unfolding new_nats_client set_job_store subscribe_to_status_updates publish publish_to_stream
    handle_status_update get_job add_job update_job_status updated perform perform_all new_job_store
    lookup store ensure_stream subscribe
messaging = tt

abbrev config : NatsConfig
config = record { url = "nats://h"; stream = "jobs"; max_age = "24h"; replicas = pos 1 }

abbrev client : NatsClient
client = record { config = config; has_store = false; initialized = true }

abbrev open_broker : Broker
open_broker = record { core = λ s m. none; stream = λ s m. some "down" }

client_tests :
    (new_nats_client config connected ≡ made client)
    × (new_nats_client (record config { url = "" }) connected ≡ failed "NATS URL is required")
    × (new_nats_client config (connect_failed "x") ≡ failed "failed to connect to NATS: x")
    × (subscribe_to_status_updates none client
        ≡ some "job store not set, cannot subscribe to status updates")
    × (subscribe_to_status_updates none (set_job_store client) ≡ none)
    × (publish open_broker "a" null client [] ≡ (("a", null) ∷ [], none))
    × (publish_to_stream open_broker "a" null client []
        ≡ ([], some "failed to publish to stream: down"))
    × (publish open_broker "a" null (record client { initialized = false }) []
        ≡ ([], some not_initialized))
    × (ensure_stream (λ s. invalid "y") (λ c. none) [] client ≡ some "invalid max age duration: y")
    × (subscribe none client ≡ none)
unfolding messaging
client_tests = (refl, refl, refl, refl, refl, refl, refl, refl, refl, refl)

abbrev job : JobInfo
job = record {
  job_id = "a";
  user_id = "u";
  type = "inference";
  name = "n";
  status = "";
  submitted_at = 0;
  started_at = 0;
  completed_at = 0;
  message = "";
}

abbrev history : List Call
history = adds 5 job ∷ []

jobs : JobStore
unfolding perform_all
jobs = perform_all (new_job_store (pos 2)) history

jobs-IsValid : IsValid jobs
unfolding jobs
jobs-IsValid = perform_all-IsValid (pos 2) history (omega arith)

abbrev update : JobStatusUpdate
update = record {
  job_id = "a";
  status = "completed";
  message = "done";
  started_at = 6;
  ended_at = 9;
}

update_tests :
    (get_job "a" (handle_status_update 10 11 (some update) jobs)
      ≡ ok (record job {
        status = "completed";
        message = "done";
        submitted_at = 5;
        started_at = 6;
        completed_at = 9;
      }))
    × (handle_status_update 10 11 (some (record update { status = "odd" })) jobs ≡ jobs)
    × (handle_status_update 10 11 none jobs ≡ jobs)
unfolding jobs messaging
update_tests = (refl, refl, refl)

get_job-handle_status_update_example :
    get_job "a" (handle_status_update 10 11 (some update) jobs)
    ≡ reported_at 10 update "a" (get_job "a" jobs)
get_job-handle_status_update_example =
    get_job-handle_status_update 10 11 update "a" jobs jobs-IsValid

-- The worker says that the job has started while its user cancels it.
abbrev begun : JobStatusUpdate
begun = record update { status = "processing"; ended_at = 0 }

abbrev held : JobInfo
held = record job { status = "queued"; submitted_at = 5 }

abbrev cancelled_jobs : JobStore
cancelled_jobs = record jobs { jobs = ("a", updated 12 job_status_cancelled "late" held) ∷ [] }

cancel_lost_example :
    (get_job "a" cancelled_jobs ≡ ok (updated 12 job_status_cancelled "late" held))
    × (get_job "a" (add_times 11 begun held cancelled_jobs) ≡ (
        if reports_time begun
        then get_job "a" (add_times 11 begun held jobs)
        else get_job "a" cancelled_jobs))
unfolding jobs messaging
cancel_lost_example = cancel_lost 11 12 begun "late" held jobs cancelled_jobs jobs-IsValid refl refl
