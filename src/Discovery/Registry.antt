-- ===== src/Discovery/Registry.antt =====
-- internal/discovery/consul.go: the service registry. Consul's client is the record `Consul`.
pub mod Watch
use siger_api_gateway.Common.{
  ℕ, Bool, true, not, String, Option, none, some, List, [], ◌∷◌, map, Map, ℤ, ◌==◌, if◌then◌else◌,
  concat, itoa,
}
use siger_api_gateway.Discovery.Instance.{ServiceInstance}

-- `AgentService` of Consul's package api, as far as the gateway reads it.
pub record AgentService : Type 0 where
  pub id : String
  pub service : String
  pub address : String
  pub port : ℤ
  pub meta : Map String

-- `AgentServiceRegistration`, with the fields of its health check.
pub record Registration : Type 0 where
  pub id : String
  pub name : String
  pub address : String
  pub port : ℤ
  pub tags : List String
  pub meta : Map String
  pub http : String
  pub interval : String
  pub timeout : String
  pub deregister_critical_service_after : String

-- The client: each operation fails, with `none` or with the text of an error, or answers.
pub record Consul : Type 0 where
  pub health_service : String → Option (List AgentService)
  pub service_register : Registration → Option String
  pub service_deregister : String → Option String

pub data RegistryError : Type 0 where
  address_required client_failed not_initialized query_failed : RegistryError
  register_failed deregister_failed : String → RegistryError

pub data Found (A : Type 0) : Type 0 where
  found : A → Found A
  failed : RegistryError → Found A

-- The registry, its error, or the panic at a nil pointer.
pub data Opened : Type 0 where
  opened : Consul → Opened
  not_opened : RegistryError → Opened
  nil_dereferenced : Opened

-- `has_http_client` says whether the `HttpClient` of `api.DefaultConfig` is not nil, whose timeout is
-- then set; `new_client` is `api.NewClient` for an address.
unfoldable pub new_service_registry :
    (has_http_client : Bool) → (String → Option Consul) → String → Opened
new_service_registry has_http_client new_client address =
    if address == ""
    then not_opened address_required
    else if not has_http_client
    then nil_dereferenced
    else elim (new_client address) [ none ↦ not_opened client_failed | some client ↦ opened client ]

abbrev pub to_instance : AgentService → ServiceInstance
to_instance entry = record {
  id = entry.id;
  service_name = entry.service;
  address = entry.address;
  port = entry.port;
  healthy = true;
  metadata = entry.meta;
}

abbrev registration : (id name address : String) → ℤ → List String → Map String → Registration
registration id name address port tags meta = record {
  id = id;
  name = name;
  address = address;
  port = port;
  tags = tags;
  meta = meta;
  http = concat "http://" (concat address (concat ":" (concat (itoa port) "/health")));
  interval = "10s";
  timeout = "5s";
  deregister_critical_service_after = "30s";
}

-- `none` is the nil registry.
unfoldable pub register :
    Option Consul → (id name address : String) → ℤ → List String → Map String → Option RegistryError
register none id name address port tags meta = some not_initialized
register (some client) id name address port tags meta =
    elim (client.service_register (registration id name address port tags meta)) [
      | none ↦ none
      | some e ↦ some (register_failed e)
    ]

unfoldable pub deregister : Option Consul → String → Option RegistryError
deregister none id = some not_initialized
deregister (some client) id = elim (client.service_deregister id) [
  | none ↦ none
  | some e ↦ some (deregister_failed e)
]

unfoldable pub discover_service : Option Consul → String → Found (List ServiceInstance)
discover_service none name = failed not_initialized
discover_service (some client) name = elim (client.health_service name) [
  | none ↦ failed query_failed
  | some entries ↦ found (map to_instance entries)
]
