-- ===== src/Config/Load.antt =====
-- What `LoadConfig` returns, and which level the logger then has.
use siger_api_gateway.Common.{
  ◌≡◌, ◌≢◌, refl, ◌⊎◌, inl, inr, Bool, true, false, ◌==◌, String, Option, none, some, contains,
  concat, if◌then◌else◌, Bool-cases, eq-cases, ne→eq_false, starts_with_colon,
  starts_with_colon-concat,
}
use siger_api_gateway.Config.Expand.{expand}
use siger_api_gateway.Config.{
  Config, default_config, valid_port, valid_log_level, valid_log_levels, validated, loaded,
  load_failed, Unmarshal, Contents, contents, unreadable, load_config, parsed, info_level,
  init_logger,
}

-- A port with its colon, and a level that is known in small letters.
pub record IsUsable (to_lower : String → String) (c : Config) : Type 0 where
  pub port : starts_with_colon c.port ≡ true
  pub level : contains (to_lower c.log_level) valid_log_levels ≡ true

valid_port-colon : (port : String) → starts_with_colon (valid_port port) ≡ true
valid_port-colon port = elim (eq-cases port "") [
  | inl (e, t) ↦ rw t (starts_with_colon-concat "8080")
  | inr (_, t) ↦ elim (Bool-cases (starts_with_colon port)) [
    | inl colon ↦ rw (t, colon) colon
    | inr bare ↦ rw (t, bare) (starts_with_colon-concat port)
  ]
]

valid_log_level-known :
    (to_lower : String → String) (level : String)
    → to_lower "info" ≡ "info"
    → contains (to_lower (valid_log_level to_lower level)) valid_log_levels ≡ true
unfolding contains
valid_log_level-known to_lower level info =
    elim (Bool-cases (contains (to_lower level) valid_log_levels)) [
      | inl known ↦ rw known known
      | inr unknown ↦ rw (unknown, info) refl
    ]

-- The error of a file that cannot be read, or that the YAML library refuses.
abbrev pub IsFailed : (String → String) → Unmarshal → Contents → Type 0
IsFailed env unmarshal (unreadable e) = Unit
IsFailed env unmarshal (contents text) =
    (e : String) × ((unmarshal (expand env text) default_config).1 ≡ some e)

-- `LoadConfig` validates what the YAML library makes of the expanded text on top of the defaults: the
-- result has a port with a colon and a known level, and every field but these two is as
-- it was read. It fails exactly on a file that cannot be read or that the library refuses.
pub load_config_cases :
    (to_lower env : String → String) (unmarshal : Unmarshal) (file : Contents)
    → to_lower "info" ≡ "info"
    → ((text : String) × (raw : Config) × (file ≡ contents text)
        × (unmarshal (expand env text) default_config ≡ (raw, none))
        × (load_config to_lower env unmarshal file ≡ loaded (validated to_lower raw))
        × IsUsable to_lower (validated to_lower raw)
        × (validated to_lower raw ≡ record raw {
          port = (validated to_lower raw).port;
          log_level = (validated to_lower raw).log_level;
        }))
      ⊎ (IsFailed env unmarshal file
          × ((c : Config) × (e : String) × (load_config to_lower env unmarshal file
                ≡ load_failed c e)))
unfolding load_config validated
load_config_cases to_lower env unmarshal (unreadable e) info =
    inr (tt, (default_config, concat "reading config file: " e, refl))
load_config_cases to_lower env unmarshal (contents text) info =
    go (unmarshal (expand env text) default_config) refl
  where
    go :
        (r : Config × Option String)
        → unmarshal (expand env text) default_config ≡ r
        → ((text' : String) × (raw : Config) × (contents text ≡ contents text')
            × (unmarshal (expand env text') default_config ≡ (raw, none))
            × (parsed to_lower (unmarshal (expand env text) default_config)
                ≡ loaded (validated to_lower raw))
            × IsUsable to_lower (validated to_lower raw)
            × (validated to_lower raw ≡ record raw {
              port = (validated to_lower raw).port;
              log_level = (validated to_lower raw).log_level;
            }))
          ⊎ (((e : String) × ((unmarshal (expand env text) default_config).1 ≡ some e))
              × ((c : Config) × (e : String) × (parsed to_lower
                      (unmarshal (expand env text) default_config)
                    ≡ load_failed c e)))
    go (raw, none) e = inl (
      text,
      raw,
      refl,
      e,
      rw e refl,
      record {
        port = valid_port-colon raw.port;
        level = valid_log_level-known to_lower raw.log_level info;
      },
      refl,
    )
    go (c, some why) e = inr ((why, rw e refl), (c, concat "parsing config file: " why, rw e refl))

-- Validated or not, a level that is not "debug", "warn" or "error" in just that spelling makes a logger of
-- the level "info": so "DEBUG", which passes the validation, and "fatal".
pub init_logger-valid_log_level :
    (to_lower : String → String) (level : String)
    → level ≢ "debug"
    → level ≢ "warn"
    → level ≢ "error"
    → init_logger (valid_log_level to_lower level) ≡ info_level
unfolding init_logger
init_logger-valid_log_level to_lower level d w e =
    elim (Bool-cases (contains (to_lower level) valid_log_levels)) [
      | inr unknown ↦ rw unknown refl
      | inl known ↦
          rw
            (
              known,
              ne→eq_false level "debug" d,
              ne→eq_false level "warn" w,
              ne→eq_false level "error" e,
            )
            (same (level == "info"))
    ]
  where
    same : (b : Bool) → (if b then info_level else info_level) ≡ info_level
    same true = refl
    same false = refl
