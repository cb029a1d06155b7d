-- ===== src/Startup/Registration.antt =====
-- cmd/main.go: the registration of the gateway at Consul, its end, and the handlers that the start makes.
use siger_api_gateway.Common.{
  ℕ, pos, Bool, true, false, sym, String, ◌==◌, Option, none, some, [], ◌∷◌, concat, itoa,
  if◌then◌else◌, ◌≡◌, ◌≢◌, refl, ap, ◌∙◌, ◌⊎◌, inl, inr, eq-cases, Option-cases,
}
use siger_api_gateway.Discovery.Registry.{
  Consul, Opened, opened, not_opened, nil_dereferenced, RegistryError, new_service_registry,
  register, deregister, deregister_failed,
}
use siger_api_gateway.Discovery.Registry
use siger_api_gateway.Config.{Config}
use siger_api_gateway.Handlers.Accounts.{new_auth_handler}
use siger_api_gateway.Proxy.{ProxyHandler, new_proxy_handler}
use siger_api_gateway.Router.{App}
use siger_api_gateway.Startup.{Started}
use siger_api_gateway.Startup.Port.{gateway_port}

-- The registry, if there is one, and the ID under which the gateway stands there.
pub record Discovery : Type 0 where
  pub registry : Option Consul
  pub registered : Option String

-- `unix` is the time in seconds.
abbrev pub gateway_id : String → ℕ → String
gateway_id hostname unix = concat "api-gateway-" (concat hostname (concat "-" (itoa (pos unix))))

-- Failures are only logged.
abbrev pub registered_or_not : String → Option RegistryError → Option String
registered_or_not id none = some id
registered_or_not id (some e) = none

unfoldable pub register_gateway : String → String → Consul → Option RegistryError
unfolding register gateway_port
register_gateway id port client =
    register (some client) id "api-gateway" "localhost" (gateway_port port) ("gateway" ∷ "api" ∷ [])
      (("version", "1.0.0") ∷ [])

-- `none` is a panic.
abbrev pub with_registry : String → String → Opened → Option Discovery
with_registry id port nil_dereferenced = none
with_registry id port (not_opened e) = some (record { registry = none; registered = none })
with_registry id port (opened client) = some (record {
  registry = some client;
  registered = registered_or_not id (register_gateway id port client);
})

unfoldable pub start_discovery :
    (has_http_client : Bool)
    → (String → Option Consul)
    → (id address port : String) → Option Discovery
unfolding new_service_registry register_gateway
start_discovery has_http_client new_client id address port =
    if address == ""
    then some (record { registry = none; registered = none })
    else with_registry id port (new_service_registry has_http_client new_client address)

-- How the program ends: after a signal, or since the server has failed, in `logger.Fatalf`, which
-- leaves the process without the deferred calls.
pub data Ending : Type 0 where
  signalled : Ending
  server_failed : String → Ending

-- The deferred call: the ID that is deregistered, if any, and the error, which is only logged.
unfoldable pub stop_discovery : Ending → Discovery → Option (String × Option RegistryError)
unfolding deregister
stop_discovery (server_failed e) d = none
stop_discovery signalled d = elim d.registered [
  | none ↦ none
  | some id ↦ some (id, deregister d.registry id)
]

-- There is a proxy exactly if there is a registry.
abbrev pub proxy_for : Option Consul → Option ProxyHandler
proxy_for none = none
proxy_for (some client) = some new_proxy_handler

-- The handlers, with the state that they start with.
unfoldable pub start_handlers : Config → Started → Discovery → App
unfolding new_auth_handler new_proxy_handler
start_handlers config s d = record {
  jobs = record { job_store = s.job_store; nats = s.nats; sent = [] };
  accounts = new_auth_handler config.jwt_secret config.jwt_expiration;
  proxy = proxy_for d.registry;
}

-- The entry of the gateway at Consul.
abbrev pub own_entry : String → String → Registry.Registration
own_entry id port = record {
  id = id;
  name = "api-gateway";
  address = "localhost";
  port = gateway_port port;
  tags = "gateway" ∷ "api" ∷ [];
  meta = ("version", "1.0.0") ∷ [];
  http =
      concat "http://"
        (concat "localhost" (concat ":" (concat (itoa (gateway_port port)) "/health")));
  interval = "10s";
  timeout = "5s";
  deregister_critical_service_after = "30s";
}

-- The error of a deregistration, for Consul's answer.
abbrev pub as_deregistered : Option String → Option RegistryError
as_deregistered none = none
as_deregistered (some e) = some (deregister_failed e)

-- What the end does about the registration, for what Consul has answered to it.
abbrev pub IsClosed :
    (String → Option Consul)
    → (id address port : String) → Ending
    → Option (String × Option RegistryError)
    → Type 0
IsClosed new_client id address port (server_failed e) done = done ≡ none
IsClosed new_client id address port signalled done =
    ((done ≡ none)
      × ((client : Consul)
          → address ≢ ""
          → new_client address ≡ some client
          → client.service_register (own_entry id port) ≢ none))
    ⊎ ((client : Consul) × (new_client address ≡ some client)
        × (client.service_register (own_entry id port) ≡ none)
        × (done ≡ some (id, as_deregistered (client.service_deregister id))))

-- The registration panics just where an address is configured and there is no HTTP client; else the
-- end takes it back, after a signal.
abbrev pub IsDiscovered :
    (has_http_client : Bool)
    → (String → Option Consul)
    → (id address port : String) → Option Discovery
    → Type 0
IsDiscovered has_http_client new_client id address port none =
    (address ≢ "") × (has_http_client ≡ false)
IsDiscovered has_http_client new_client id address port (some d) =
    ((address ≡ "") ⊎ (has_http_client ≡ true))
    × ((e : Ending) → IsClosed new_client id address port e (stop_discovery e d))

refuses :
    (id port : String) (client : Consul) (why : String)
    → client.service_register (own_entry id port) ≡ some why
    → (c : Consul) → some client ≡ some c
    → c.service_register (own_entry id port) ≢ none
refuses id port client why refused c made ok =
    let same : client ≡ c = cc in
    let both : client.service_register (own_entry id port) ≡ none =
      ap (λ k. k.service_register (own_entry id port)) same ∙ ok in
    cc

module _ (new_client : String → Option Consul) (id address port : String) where
  -- Without a registration nothing is taken back.
  IsClosed-unregistered :
      (registry : Option Consul) (e : Ending)
      → ((client : Consul)
          → address ≢ ""
          → new_client address ≡ some client
          → client.service_register (own_entry id port) ≢ none)
      → IsClosed new_client id address port e
          (stop_discovery e (record { registry = registry; registered = none }))
  unfolding stop_discovery
  IsClosed-unregistered registry (server_failed why) out = refl
  IsClosed-unregistered registry signalled out = inl (refl, out)

  IsClosed-registered :
      (client : Consul) (e : Ending)
      → new_client address ≡ some client
      → client.service_register (own_entry id port) ≡ none
      → IsClosed new_client id address port e
          (stop_discovery e (record { registry = some client; registered = some id }))
  unfolding stop_discovery deregister
  IsClosed-registered client (server_failed why) made ok = refl
  IsClosed-registered client signalled made ok =
      elim (Option-cases (client.service_deregister id)) [
        | inl e ↦ inr (client, made, ok, rw e refl)
        | inr (why, e) ↦ inr (client, made, ok, rw e refl)
      ]

  pub start_discovery-IsDiscovered :
      (has_http_client : Bool)
      → IsDiscovered has_http_client new_client id address port
          (start_discovery has_http_client new_client id address port)
  unfolding start_discovery new_service_registry register_gateway register
  start_discovery-IsDiscovered false = elim (eq-cases address "") [
    | inl (e, t) ↦
        rw t (inl e, λ end. IsClosed-unregistered none end (λ client nonempty. absurd (nonempty e)))
    | inr (nonempty, t) ↦ rw t (nonempty, refl)
  ]
  start_discovery-IsDiscovered true = elim (eq-cases address "") [
    | inl (e, t) ↦
        rw t (inl e, λ end. IsClosed-unregistered none end (λ client nonempty. absurd (nonempty e)))
    | inr (_, t) ↦ elim (Option-cases (new_client address)) [
      | inl e ↦
          rw (t, e) (inr refl, λ end. IsClosed-unregistered none end (λ client nonempty made. cc))
      | inr (client, e) ↦ elim (Option-cases (client.service_register (own_entry id port))) [
        | inl ok ↦ rw (t, e, ok) (inr refl, λ end. IsClosed-registered client end e ok)
        | inr (why, refused) ↦
            rw (t, e, refused)
              (
                inr refl,
                λ end.
                    IsClosed-unregistered (some client) end
                      (λ c nonempty made. refuses id port client why refused c (sym e ∙ made)),
              )
      ]
    ]
  ]
