-- ===== src/Messaging.antt =====
-- internal/messaging/nats.go: the NATS client. What the NATS library answers is an argument: `none`
-- for success, or the text of an error. What the gateway publishes comes from decoded JSON, so that
-- encoding it again does not fail.
pub mod Connections
pub mod StatusUpdates
pub mod Tests
use siger_api_gateway.Common.{
  ℕ, ℤ, Bool, true, false, not, ◌==◌, String, Option, none, some, List, [], ◌∷◌, ◌++◌, concat,
  if◌then◌else◌,
}
use siger_api_gateway.Http.{Json}

pub record NatsConfig : Type 0 where
  pub url : String
  pub stream : String
  pub max_age : String
  pub replicas : ℤ

-- `has_store` tells whether `jobStore` is set; the connection is modelled apart from the client, and the logger is not.
pub record NatsClient : Type 0 where
  pub config : NatsConfig
  pub has_store : Bool
  pub initialized : Bool

-- The outcome of the two library calls of `NewNATSClient`.
pub data Dial : Type 0 where
  connected : Dial
  connect_failed jetstream_failed : String → Dial

pub data Made : Type 0 where
  made : NatsClient → Made
  failed : String → Made

dial : NatsConfig → Dial → Made
dial config connected = made (record { config = config; has_store = false; initialized = true })
dial config (connect_failed e) = failed (concat "failed to connect to NATS: " e)
dial config (jetstream_failed e) = failed (concat "failed to create JetStream context: " e)

unfoldable pub new_nats_client : NatsConfig → Dial → Made
unfolding dial
new_nats_client config answer =
    if config.url == ""
    then failed "NATS URL is required"
    else if config.stream == ""
    then failed "NATS stream is required"
    else dial config answer

-- The connection of a client; `no_connection` is the nil pointer.
pub data Connection : Type 0 where
  no_connection open_connection closed_connection : Connection

abbrev dial_connection : Dial → Connection
dial_connection connected = open_connection
dial_connection (connect_failed e) = no_connection
dial_connection (jetstream_failed e) = closed_connection

-- What `NewNATSClient` leaves of its connection.
unfoldable pub new_connection : NatsConfig → Dial → Connection
new_connection config answer =
    if config.url == ""
    then no_connection
    else if config.stream == ""
    then no_connection
    else dial_connection answer

-- `Close` drains the connection, if there is one, and closes it.
unfoldable pub close : Connection → Connection
close no_connection = no_connection
close open_connection = closed_connection
close closed_connection = closed_connection

unfoldable pub set_job_store : NatsClient → NatsClient
set_job_store c = record c { has_store = true }

abbrev pub not_initialized : String
not_initialized = "NATS client not initialized"

pub record StreamConfig : Type 0 where
  pub name : String
  pub subjects : List String
  pub max_age : ℕ
  pub replicas : ℤ

-- `duration` is `time.ParseDuration` of the configured age: `err` with a text, or nanoseconds.
pub data Duration : Type 0 where
  nanoseconds : ℕ → Duration
  invalid : String → Duration

ensure : (StreamConfig → Option String) → List String → NatsConfig → Duration → Option String
ensure create subjects config (invalid e) = some (concat "invalid max age duration: " e)
ensure create subjects config (nanoseconds age) = create (record {
  name = config.stream;
  subjects = subjects;
  max_age = age;
  replicas = config.replicas;
})

-- The error, if there is one.
unfoldable pub ensure_stream :
    (String → Duration) → (StreamConfig → Option String) → List String → NatsClient → Option String
unfolding ensure
ensure_stream duration create subjects c =
    if not c.initialized
    then some not_initialized
    else ensure create subjects c.config (duration c.config.max_age)

-- What the two publishing calls of the library answer for a subject and a message.
pub record Broker : Type 0 where
  pub core : String → Json → Option String
  pub stream : String → Json → Option String

-- The messages that the broker took, oldest first.
abbrev pub Sent : Type 0
Sent = List (String × Json)

abbrev pub deliver : String → String → Json → Option String → Sent → Sent × Option String
deliver prefix subject message none sent = (sent ++ (subject, message) ∷ [], none)
deliver prefix subject message (some e) sent = (sent, some (concat prefix e))

unfoldable pub publish : Broker → String → Json → NatsClient → Sent → Sent × Option String
publish broker subject message c sent =
    if not c.initialized
    then (sent, some not_initialized)
    else deliver "" subject message (broker.core subject message) sent

unfoldable pub publish_to_stream : Broker → String → Json → NatsClient → Sent → Sent × Option String
publish_to_stream broker subject message c sent =
    if not c.initialized
    then (sent, some not_initialized)
    else deliver "failed to publish to stream: " subject message (broker.stream subject message)
        sent

-- `Subscribe`: `answer` is the library's.
unfoldable pub subscribe : Option String → NatsClient → Option String
subscribe answer c = if not c.initialized then some not_initialized else answer

-- `SubscribeToStatusUpdates`
unfoldable pub subscribe_to_status_updates : Option String → NatsClient → Option String
subscribe_to_status_updates answer c =
    if not c.initialized
    then some not_initialized
    else if not c.has_store
    then some "job store not set, cannot subscribe to status updates"
    else answer
