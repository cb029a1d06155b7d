-- ===== src/Config.antt =====
-- internal/config.go and internal/logger.go: the configuration and its file, and the level of the
-- logger. The file and the YAML library answer through arguments, and `to_lower` is
-- `strings.ToLower`; what the logger writes, and how, is left out.
pub mod Expand
pub mod Load
pub mod Ensure
pub mod Tests
use siger_api_gateway.Common.{
  Bool, true, false, not, ◌==◌, String, Option, none, some, List, [], ◌∷◌, contains, concat,
  if◌then◌else◌, ℤ, pos, starts_with_colon,
}
use siger_api_gateway.Config.Expand.{expand}

pub record Config : Type 0 where
  pub port : String
  pub log_level : String
  pub jwt_secret : String
  pub jwt_expiration : ℤ
  pub consul_address : String
  pub nats_address : String
  pub cors_origins : List String
  pub cors_methods : List String
  pub cors_headers : List String

unfoldable pub default_config : Config
default_config = record {
  port = ":8080";
  log_level = "info";
  jwt_secret = "default-jwt-secret-change-me-in-production";
  jwt_expiration = pos 60;
  consul_address = "localhost:8500";
  nats_address = "nats://localhost:4222";
  cors_origins = "http://localhost:3000" ∷ "http://localhost:8080" ∷ [];
  cors_methods = "GET" ∷ "POST" ∷ "PUT" ∷ "DELETE" ∷ "OPTIONS" ∷ "PATCH" ∷ [];
  cors_headers =
      "Accept" ∷ "Authorization" ∷ "Content-Type" ∷ "X-CSRF-Token" ∷ "X-Request-ID"
      ∷ "X-Requested-With" ∷ [];
}

abbrev pub valid_port : String → String
valid_port port =
    if port == "" then ":8080" else if not (starts_with_colon port) then concat ":" port else port

abbrev pub valid_log_levels : List String
valid_log_levels = "debug" ∷ "info" ∷ "warn" ∷ "error" ∷ "fatal" ∷ []

abbrev pub valid_log_level : (String → String) → String → String
valid_log_level to_lower level =
    if not (contains (to_lower level) valid_log_levels) then "info" else level

-- The validation at the end of `LoadConfig`.
unfoldable pub validated : (String → String) → Config → Config
validated to_lower c = record c {
  port = valid_port c.port;
  log_level = valid_log_level to_lower c.log_level;
}

-- `LoadConfig` returns its configuration with an error, too.
pub data Loaded : Type 0 where
  loaded : Config → Loaded
  load_failed : Config → String → Loaded

-- What the YAML library makes of a text and of the values that are there before: new values, and the
-- text of an error if there is one.
abbrev pub Unmarshal : Type 0
Unmarshal = String → Config → Config × Option String

abbrev parsed : (String → String) → Config × Option String → Loaded
parsed to_lower (c, some e) = load_failed c (concat "parsing config file: " e)
parsed to_lower (c, none) = loaded (validated to_lower c)

-- The outcome of `ReadFile`.
pub data Contents : Type 0 where
  contents : String → Contents
  unreadable : String → Contents

load_contents : (String → String) → (String → String) → Unmarshal → Contents → Loaded
load_contents to_lower env unmarshal (unreadable e) =
    load_failed default_config (concat "reading config file: " e)
load_contents to_lower env unmarshal (contents text) =
    parsed to_lower (unmarshal (expand env text) default_config)

-- `env` gives the value of an environment variable, or "".
unfoldable pub load_config : (String → String) → (String → String) → Unmarshal → Contents → Loaded
unfolding load_contents
load_config to_lower env unmarshal file = load_contents to_lower env unmarshal file

-- What the file system answers to `EnsureConfigExists`, and the file itself.
pub data Stat : Type 0 where
  present missing : Stat
  stat_failed : String → Stat

pub record FileSystem : Type 0 where
  pub mkdir_all : Option String
  pub stat : Stat
  pub write_file : Option String
  pub config_file : Option String

abbrev pub template : String
template =
    "# API Gateway Configuration\n# Generated automatically - modify as needed\n# Environment variables can be used with ${ENV_VAR} syntax\n# Example: jwtSecret: ${JWT_SECRET:default-secret}\n\nport: :8080          # The port to listen on\nlogLevel: info       # debug, info, warn, error, or fatal\njwtSecret: default-jwt-secret-change-me-in-production  # Secret for JWT signing - CHANGE THIS!\njwtExpiration: 60  # JWT token expiration in minutes\n\n# Service discovery configuration\nconsulAddress: localhost:8500   # Consul address for service discovery\n\n# Messaging configuration\nnatsAddress: nats://localhost:4222  # NATS address for async messaging\n\n# CORS configuration\ncorsAllowed:\n  origins:\n    - http://localhost:3000\n    - http://localhost:8080\n  methods:\n    - GET\n    - POST\n    - PUT\n    - DELETE\n    - OPTIONS\n    - PATCH\n  headers:\n    - Accept\n    - Authorization\n    - Content-Type\n    - X-CSRF-Token\n    - X-Request-ID\n    - X-Requested-With\n"

write_template : Option String → FileSystem → FileSystem × Option String
write_template (some e) fs = (fs, some (concat "writing default config: " e))
write_template none fs = (record fs { config_file = some template; stat = present }, none)

check_file : Stat → FileSystem → FileSystem × Option String
unfolding write_template
check_file missing fs = write_template fs.write_file fs
check_file (stat_failed e) fs = (fs, some (concat "checking config file: " e))
check_file present fs = (fs, none)

-- The file system after it, and its error if there is one.
unfoldable pub ensure_config_exists : FileSystem → FileSystem × Option String
unfolding check_file
ensure_config_exists fs = elim fs.mkdir_all [
  | some e ↦ (fs, some (concat "creating config directory: " e))
  | none ↦ check_file fs.stat fs
]

-- The levels of the logging library that `InitLogger` names.
pub data Level : Type 0 where
  debug_level info_level warn_level error_level : Level

-- The level of the logger that `InitLogger` makes.
unfoldable pub init_logger : String → Level
init_logger level =
    if level == "debug"
    then debug_level
    else if level == "info"
    then info_level
    else if level == "warn"
    then warn_level
    else if level == "error"
    then error_level
    else info_level
