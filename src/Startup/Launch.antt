-- ===== src/Startup/Launch.antt =====
-- `main` of cmd/main.go up to the start of the server: the file of the configuration, its loading, the
-- logger, the registration, the messaging, the handlers and the rate limiter.
use siger_api_gateway.Common.{
  ℕ, pos, Bool, false, ◌≢◌, ◌≡◌, refl, ◌⊎◌, inl, inr, String, Option, none, some, concat, ◌==◌,
  Bool-cases, subst, sym,
}
use siger_api_gateway.Config.{
  Config, FileSystem, ensure_config_exists, Contents, Unmarshal, Loaded, loaded, load_failed,
  load_config, Level, init_logger, validated,
}
use siger_api_gateway.Config.Load.{IsUsable, IsFailed, load_config_cases}
use siger_api_gateway.Discovery.Registry.{Consul}
use siger_api_gateway.Handlers.Accounts.{new_auth_handler}
use siger_api_gateway.Storage.Invariant
use siger_api_gateway.Storage.Invariant.{new_job_store-IsValid}
use siger_api_gateway.Middleware.RateLimit.{RateLimiter}
use siger_api_gateway.Middleware.RateLimit.Invariant.{IsPaired, token_bucket_rate_limit-IsPaired}
use siger_api_gateway.Router.{App}
use siger_api_gateway.Startup.{Answers, start_messaging, start_rate_limiter}
use siger_api_gateway.Startup.Subscription.{start_messaging-store}
use siger_api_gateway.Startup.Registration.{
  Discovery, gateway_id, start_discovery, start_handlers, IsDiscovered,
  start_discovery-IsDiscovered,
}

-- What `main` meets: the file system and the reading of the file in it, `strings.ToLower`, the environment,
-- the YAML library, Consul's client and whether its default configuration has an HTTP client, the
-- name of the host, the time, and NATS.
pub record World : Type 0 where
  pub files : FileSystem
  pub read : FileSystem → Contents
  pub to_lower : String → String
  pub env : String → String
  pub unmarshal : Unmarshal
  pub has_http_client : Bool
  pub new_client : String → Option Consul
  pub hostname : String
  pub unix : ℕ
  pub answers : Answers

-- What the server starts with.
pub record Running (L : Type 0) : Type 0 where
  pub config : Config
  pub level : Level
  pub discovery : Discovery
  pub app : App
  pub limiter : RateLimiter L

-- `log.Fatal` ends the program with a text, and a nil pointer with a panic.
pub data Launched (L : Type 0) : Type 0 where
  crashed : Launched L
  fatal : String → Launched L
  running : Running L → Launched L

abbrev pub own_id : World → String
own_id w = gateway_id w.hostname w.unix

module _ (L : Type 0) (w : World) where
  run_with : Config → Discovery → Running L
  unfolding start_messaging start_handlers start_rate_limiter init_logger
  run_with c d = record {
    config = c;
    level = init_logger c.log_level;
    discovery = d;
    app = start_handlers c (start_messaging w.answers c.nats_address) d;
    limiter = start_rate_limiter c.log_level;
  }

  after_discovery : Config → Option Discovery → Launched L
  unfolding run_with
  after_discovery c none = crashed
  after_discovery c (some d) = running (run_with c d)

  after_load : Loaded → Launched L
  unfolding after_discovery start_discovery
  after_load (load_failed c e) = fatal (concat "cannot load config:" e)
  after_load (loaded c) =
      after_discovery c
        (start_discovery w.has_http_client w.new_client (own_id w) c.consul_address c.port)

  after_ensure : FileSystem × Option String → Launched L
  unfolding after_load load_config
  after_ensure (fs, some e) = fatal (concat "cannot ensure config exists:" e)
  after_ensure (fs, none) = after_load (load_config w.to_lower w.env w.unmarshal (w.read fs))

  unfoldable pub launch : Launched L
  unfolding after_ensure ensure_config_exists
  launch = after_ensure (ensure_config_exists w.files)

  -- What holds of a gateway that runs: a usable configuration, a store and a limiter that keep their
  -- invariants, the configured secret, a client for Consul if its address is configured, and a
  -- registration that its end after a signal takes back.
  pub record IsReady (g : Running L) : Type 0 where
    pub usable : IsUsable w.to_lower g.config
    pub store : Invariant.IsValid g.app.jobs.job_store
    pub limits : IsPaired g.limiter
    pub secret : g.app.accounts.secret ≡ g.config.jwt_secret
    pub discovered :
        IsDiscovered w.has_http_client w.new_client
          (own_id w)
          g.config.consul_address
          g.config.port
          (some g.discovery)

  run_with-IsReady :
      (c : Config) (d : Discovery)
      → IsUsable w.to_lower c
      → IsDiscovered w.has_http_client w.new_client (own_id w) c.consul_address c.port (some d)
      → IsReady (run_with c d)
  unfolding run_with start_handlers new_auth_handler start_rate_limiter
  run_with-IsReady c d usable closed = record {
    usable = usable;
    store =
        subst (λ s. Invariant.IsValid s) (sym (start_messaging-store w.answers c.nats_address))
          (new_job_store-IsValid (pos 10000));
    limits = elim (Bool-cases (c.log_level == "debug")) [
      | inl t ↦ rw t (token_bucket_rate_limit-IsPaired 1000 2000)
      | inr t ↦ rw t (token_bucket_rate_limit-IsPaired 100 200)
    ];
    secret = refl;
    discovered = closed;
  }

  -- The program ends at once only if the file could not be ensured or not be loaded, or in a panic where
  -- the address of Consul is configured but there is no HTTP client.
  abbrev pub IsLaunched : FileSystem × Option String → Launched L → Type 0
  IsLaunched ensured crashed =
      (ensured.1 ≡ none)
      × ((c : Config) × (load_config w.to_lower w.env w.unmarshal (w.read ensured.0) ≡ loaded c)
          × (c.consul_address ≢ "")
          × (w.has_http_client ≡ false))
  IsLaunched ensured (fatal why) =
      ((e : String) × (ensured.1 ≡ some e)) ⊎ IsFailed w.env w.unmarshal (w.read ensured.0)
  IsLaunched ensured (running g) = (ensured.1 ≡ none) × IsReady g

  after_discovery-IsLaunched :
      (fs : FileSystem) (c : Config) (o : Option Discovery)
      → IsUsable w.to_lower c
      → load_config w.to_lower w.env w.unmarshal (w.read fs) ≡ loaded c
      → IsDiscovered w.has_http_client w.new_client (own_id w) c.consul_address c.port o
      → IsLaunched (fs, none) (after_discovery c o)
  unfolding after_discovery
  after_discovery-IsLaunched fs c none usable e (address, nil) = (refl, (c, e, address, nil))
  after_discovery-IsLaunched fs c (some d) usable e o = (refl, run_with-IsReady c d usable o)

  after_ensure-IsLaunched :
      w.to_lower "info" ≡ "info" → (r : FileSystem × Option String) → IsLaunched r (after_ensure r)
  unfolding after_ensure after_load
  after_ensure-IsLaunched info (fs, some e) = inl (e, refl)
  after_ensure-IsLaunched info (fs, none) =
      elim (load_config_cases w.to_lower w.env w.unmarshal (w.read fs) info) [
        | inl (text, raw, _, _, e, usable, _) ↦
            let c = validated w.to_lower raw in
            rw e (
              after_discovery-IsLaunched fs c _ usable e (
                start_discovery-IsDiscovered w.new_client (own_id w) c.consul_address c.port
                  w.has_http_client))
        | inr (failed, (c, why, e)) ↦ rw e (inr failed)
      ]

  -- Where "info" is its own lower case, the program either ends at once, as it does only if the file
  -- of the configuration could not be ensured or not be loaded, or, in a panic, if the loaded
  -- configuration has an address of Consul and Consul's default configuration no HTTP client; or
  -- it runs, with a usable configuration, a store and a limiter that keep their invariants and the
  -- configured secret. Its end after a signal then deregisters the gateway exactly if Consul has
  -- taken its registration, and a failure of the server deregisters nothing.
  pub launch-IsLaunched :
      w.to_lower "info" ≡ "info" → IsLaunched (ensure_config_exists w.files) launch
  unfolding launch
  launch-IsLaunched info = after_ensure-IsLaunched info (ensure_config_exists w.files)
