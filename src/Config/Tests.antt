-- ===== src/Config/Tests.antt =====
-- The configuration at concrete inputs.
use siger_api_gateway.Common.{
  ◌≡◌, refl, ◌⊎◌, String, ◌==◌, none, concat, if◌then◌else◌, ne_of_eq_false, arith,
}
use siger_api_gateway.Config.Expand.{
  expand, expand_fuel, text_length, name_at, shell_name, to_close, alphanumerics,
}
use siger_api_gateway.Config.Expand.Braces.{expand-braces}
use siger_api_gateway.Config.{
  Config, default_config, Unmarshal, contents, validated, loaded, load_failed, load_config,
}
use siger_api_gateway.Config.Load.{IsUsable, IsFailed, load_config_cases}

abbrev env : String → String
env name = if name == "HOST" then "nats" else ""

abbrev lower : String → String
lower s = if s == "DEBUG" then "debug" else s

abbrev as_port : Unmarshal
as_port text c = (record c { port = text }, none)

expand_tests :
    (expand env "a ${HOST}:4222 $HOST/ $" ≡ "a nats:4222 nats/ $")
    × (expand env "${HOST:localhost}" ≡ "")
    × (expand env "p${}q${r" ≡ "pqr")
unfolding expand expand_fuel text_length name_at shell_name to_close alphanumerics
expand_tests = (refl, refl, refl)

expand-braces_example :
    expand env (concat "url: " (concat "${" (concat "HOST:localhost" (concat "}" "!"))))
    ≡ concat "url: " (concat (env "HOST:localhost") (expand env "!"))
expand-braces_example =
    expand-braces env "url: " "HOST:localhost" "!" (omega arith) (omega arith)
      (ne_of_eq_false "HOST:localhost" "" refl)

load_config_cases_example :
    ((text : String) × (raw : Config) × (contents "9000" ≡ contents text)
      × (as_port (expand env text) default_config ≡ (raw, none))
      × (load_config lower env as_port (contents "9000") ≡ loaded (validated lower raw))
      × IsUsable lower (validated lower raw)
      × (validated lower raw ≡ record raw {
        port = (validated lower raw).port;
        log_level = (validated lower raw).log_level;
      }))
    ⊎ (IsFailed env as_port (contents "9000")
        × ((c : Config) × (e : String) × (load_config lower env as_port (contents "9000")
              ≡ load_failed c e)))
load_config_cases_example = load_config_cases lower env as_port (contents "9000") refl
