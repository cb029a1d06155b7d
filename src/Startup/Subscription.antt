-- ===== src/Startup/Subscription.antt =====
-- The gateway never listens to status updates.
use siger_api_gateway.Common.{
  Bool, concat, ◌≡◌, refl, ◌⊎◌, inl, inr, String, ◌==◌, none, pos, some, true, false, Bool-cases,
  if◌then◌else◌,
}
use siger_api_gateway.Messaging.{
  NatsClient, Dial, connected, connect_failed, jetstream_failed, Made, made, failed,
  new_nats_client, subscribe_to_status_updates, set_job_store, NatsConfig,
}
use siger_api_gateway.Storage.{new_job_store}
use siger_api_gateway.Startup.{Answers, Started, start_messaging, connected_or_not, nats_config}

-- A client that a connection has just made.
abbrev IsFresh : Made → Type 0
IsFresh (failed e) = Unit
IsFresh (made c) = (c.initialized ≡ true) × (c.has_store ≡ false)

if-IsFresh : (b : Bool) (x y : Made) → IsFresh x → IsFresh y → IsFresh (if b then x else y)
if-IsFresh true x y f g = f
if-IsFresh false x y f g = g

new_nats_client-IsFresh :
    (config : NatsConfig) (answer : Dial) → IsFresh (new_nats_client config answer)
unfolding new_nats_client
new_nats_client-IsFresh config answer =
    if-IsFresh (config.url == "") _ _ tt (if-IsFresh (config.stream == "") _ _ tt (fresh answer))
  where
    fresh :
        (a : Dial)
        → IsFresh (elim a as (λ x. Made) [
          | connected ↦ made (record { config = config; has_store = false; initialized = true })
          | connect_failed e ↦ failed (concat "failed to connect to NATS: " e)
          | jetstream_failed e ↦ failed (concat "failed to create JetStream context: " e)
        ])
    fresh connected = (refl, refl)
    fresh (connect_failed e) = tt
    fresh (jetstream_failed e) = tt

-- The outcome of the start: no client, or one whose subscription was refused, although the
-- same call is passed on to NATS once the start is over.
abbrev pub IsDeaf : Answers → Started → Type 0
IsDeaf a s =
    (s.nats ≡ none)
    ⊎ ((c : NatsClient) × (s.nats ≡ some c)
        × (s.subscription_error ≡ some "job store not set, cannot subscribe to status updates")
        × (subscribe_to_status_updates a.subscribe c ≡ a.subscribe))

connected_or_not-IsDeaf : (a : Answers) (m : Made) → IsFresh m → IsDeaf a (connected_or_not a m)
unfolding connected_or_not subscribe_to_status_updates set_job_store
connected_or_not-IsDeaf a (failed e) f = inl refl
connected_or_not-IsDeaf a (made c) (ready, storeless) =
    inr (set_job_store c, refl, rw (ready, storeless) refl, rw ready refl)

-- Whatever address is configured and whatever NATS answers, after the start there is no client, or
-- its subscription to the status updates has been refused for want of a job store, although the
-- same call, made after the start, would be passed on to NATS.
pub start_messaging-IsDeaf : (a : Answers) (address : String) → IsDeaf a (start_messaging a address)
unfolding start_messaging
start_messaging-IsDeaf a address = elim (Bool-cases (address == "")) [
  | inl t ↦ inl (rw t refl)
  | inr t ↦ rw t (
      connected_or_not-IsDeaf a (new_nats_client (nats_config address) a.dialled)
        (new_nats_client-IsFresh (nats_config address) a.dialled))
]

-- Whatever NATS answers, the store is new.
pub start_messaging-store :
    (a : Answers) (address : String)
    → (start_messaging a address).job_store ≡ new_job_store (pos 10000)
unfolding start_messaging connected_or_not
start_messaging-store a address = elim (Bool-cases (address == "")) [
  | inl t ↦ rw t refl
  | inr t ↦ rw t (made_or_failed (new_nats_client (nats_config address) a.dialled))
]
  where
    made_or_failed : (m : Made) → (connected_or_not a m).job_store ≡ new_job_store (pos 10000)
    made_or_failed (made c) = refl
    made_or_failed (failed e) = refl
