-- ===== src/Startup/Tests.antt =====
-- The start at a concrete configuration.
use siger_api_gateway.Common.{
  ℕ, true, false, ◌≡◌, refl, String, Option, none, some, pos, negsuc, concat, itoa, arith, ◌==◌,
  if◌then◌else◌,
}
use siger_api_gateway.Messaging.{connected, nanoseconds}
use siger_api_gateway.Startup.{Answers, start_messaging}
use siger_api_gateway.Startup.Subscription.{IsDeaf, start_messaging-IsDeaf}
use siger_api_gateway.Config.{valid_port, missing, unreadable, contents, ensure_config_exists}
use siger_api_gateway.Startup.Launch.{World, IsLaunched, launch, launch-IsLaunched}
use siger_api_gateway.Discovery.Registry.{Consul, RegistryError}
use siger_api_gateway.Startup.Port.{sscanf_port, gateway_port}
use siger_api_gateway.Startup.Port.Digits.{gateway_port-valid_port}
use siger_api_gateway.Startup.Registration.{
  gateway_id, start_discovery, stop_discovery, Ending, signalled, server_failed,
}

abbrev fine : Answers
fine = record {
  dialled = connected;
  duration = λ s. nanoseconds 86400;
  create_stream = λ config. none;
  subscribe = none;
}

start_messaging-IsDeaf_example : IsDeaf fine (start_messaging fine "nats://localhost:4222")
start_messaging-IsDeaf_example = start_messaging-IsDeaf fine "nats://localhost:4222"

-- Blanks and a sign are read, and what stands after the digits is not; a number that is too great for
-- an `int`, or none, leaves the default.
port_tests :
    (sscanf_port ": -90/x" ≡ some (negsuc 89))
    × (sscanf_port "90" ≡ none)
    × (gateway_port ":9223372036854775808" ≡ pos 8080)
    × (gateway_port ":http" ≡ pos 8080)
    × (gateway_port ":+443" ≡ pos 443)
unfolding gateway_port
port_tests = (refl, refl, refl, refl, refl)

gateway_port-valid_port_example :
    (gateway_port (valid_port (itoa (pos 9000))) ≡ pos 9000)
    × (gateway_port (valid_port (concat ":" (itoa (pos 9000)))) ≡ pos 9000)
gateway_port-valid_port_example = gateway_port-valid_port 9000 (omega arith)

-- A Consul that takes registrations, and knows nothing else.
abbrev consul : Consul
consul = record {
  health_service = λ name. none;
  service_register = λ r. if r.http == "http://localhost:9000/health" then none else some "refused";
  service_deregister = λ id. none;
}

abbrev reached : String → Option Consul
reached address = some consul

ended : Ending → (address port : String) → Option (Option (String × Option RegistryError))
unfolding start_discovery
ended e address port = elim (start_discovery true reached (gateway_id "h" 7) address port) [
  | none ↦ none
  | some d ↦ some (stop_discovery e d)
]

discovery_tests :
    (ended signalled "localhost:8500" ":9000" ≡ some (some ("api-gateway-h-7", none)))
    × (ended (server_failed "e") "localhost:8500" ":9000" ≡ some none)
    × (ended signalled "localhost:8500" ":80" ≡ some none)
    × (ended signalled "" ":9000" ≡ some none)
    × (start_discovery false reached "id" "localhost:8500" ":9000" ≡ none)
unfolding start_discovery stop_discovery itoa ended
discovery_tests = (refl, refl, refl, refl, refl)

-- The first start, in an empty directory, with a YAML library that reads "port: :8080" as the default.
abbrev fresh_world : World
fresh_world = record {
  files = record { mkdir_all = none; stat = missing; write_file = none; config_file = none };
  read = λ fs. elim fs.config_file [ none ↦ unreadable "no file" | some text ↦ contents text ];
  to_lower = λ s. s;
  env = λ name. "";
  unmarshal = λ text c. (record c { port = "8080" }, none);
  has_http_client = true;
  new_client = reached;
  hostname = "h";
  unix = 7;
  answers = fine;
}

launch-IsLaunched_example :
    IsLaunched ℕ fresh_world (ensure_config_exists fresh_world.files) (launch ℕ fresh_world)
launch-IsLaunched_example = launch-IsLaunched ℕ fresh_world refl
