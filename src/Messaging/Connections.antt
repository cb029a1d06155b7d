-- ===== src/Messaging/Connections.antt =====
-- The connections of clients.
use siger_api_gateway.Common.{◌≡◌, ◌≢◌, refl, ◌==◌, true, Bool-cases, inl, inr}
use siger_api_gateway.Messaging.{
  NatsConfig, Dial, connected, connect_failed, jetstream_failed, Made, made, failed,
  new_nats_client, Connection, open_connection, new_connection, close, dial, dial_connection,
}

-- A client is made with an open connection; where none is made, no connection is left open.
abbrev IsOwned : Made → Connection → Type 0
IsOwned (made client) c = (client.initialized ≡ true) × (c ≡ open_connection)
IsOwned (failed e) c = c ≢ open_connection

-- No connection leaks: a client is made, ready, with an open connection, and otherwise none is left open;
-- after `Close` none is open.
pub new_nats_client-IsOwned :
    (config : NatsConfig) (answer : Dial)
    → IsOwned (new_nats_client config answer) (new_connection config answer)
      × (close (new_connection config answer) ≢ open_connection)
unfolding new_nats_client new_connection close
new_nats_client-IsOwned config answer = elim (Bool-cases (config.url == "")) [
  | inl t ↦ rw t (λ e. cc, λ e. cc)
  | inr t ↦ elim (Bool-cases (config.stream == "")) [
    | inl t' ↦ rw (t, t') (λ e. cc, λ e. cc)
    | inr t' ↦ rw (t, t') (dialled answer)
  ]
]
  where
    dialled :
        (a : Dial)
        → IsOwned (dial config a) (dial_connection a)
          × (close (dial_connection a) ≢ open_connection)
    dialled connected = ((refl, refl), λ e. cc)
    dialled (connect_failed e) = (λ q. cc, λ q. cc)
    dialled (jetstream_failed e) = (λ q. cc, λ q. cc)
