-- ===== src/Gateway.antt =====
-- cmd/gateway/main.go and cmd/playground/main.go: how `main` makes the service, or the playground,
-- of a configuration file, with `Load` of internal/config/config.go from the path on. Listening and
-- shutting down are left out.
pub mod Started
pub mod Translating
pub mod Serving
use opensearch_query_gateway.Shared.{ℕ, String, Bool, [], ◌∷◌, if◌then◌else◌, is_empty}
use opensearch_query_gateway.Shared.Int.{ℤ}
use opensearch_query_gateway.Shared.Fallible.{Fallible, ok, err, ◌>>=◌}
use opensearch_query_gateway.Config.{Config, ConfigError, OpenSearchConfig, Rates}
use opensearch_query_gateway.Config.Env.{Lookup, load}
use opensearch_query_gateway.Query.Parse.{Parsed}
use opensearch_query_gateway.Dsl.{Floats}
use opensearch_query_gateway.Builder
use opensearch_query_gateway.Builder.{with_time_field}
use opensearch_query_gateway.Dcg.Lexer.{Unicode}
use opensearch_query_gateway.Rules
use opensearch_query_gateway.Rules.{Interpreter}
use opensearch_query_gateway.Rules.Loading
use opensearch_query_gateway.Rules.Loading.{Engine, LoadError}
use opensearch_query_gateway.Executor.{Transport, Client, new_client}
use opensearch_query_gateway.Api.RateLimit.{Limits, new_limits}
use opensearch_query_gateway.Api.Page.{RuleEngine, engine_with}
use opensearch_query_gateway.Api.Translate.{Server}
use opensearch_query_gateway.Api.Server.{new_server, options_of}

-- What the program calls: the files, the decoder of YAML, the environment, floats, the
-- interpreter of Prolog with its blank state, `Exec`, and its answers within a time, the
-- grammar of queries, and the client library.
pub record Platform (F S B R : Type 0) : Type 0 where
  pub read_file : String → Fallible String String
  pub yaml : String → Fallible String (Config F)
  pub lookup : Lookup
  pub rates : Rates F
  pub is_positive : F → Bool
  pub floats : Floats F
  pub unicode : Unicode
  pub show : ℕ → String
  pub blank : S
  pub exec : String → S → Fallible String S
  pub ask : S → ℤ → Interpreter
  pub not_allowed : String → String
  pub parse_string : String → Parsed
  pub open_client : OpenSearchConfig → Fallible String (Transport F B R)

pub data StartError : Type 0 where
  bad_file : (error : String) → StartError
  bad_config : ConfigError → StartError
  bad_rules : LoadError → StartError
  bad_client : (error : String) → StartError

abbrev pub failing : {E A : Type 0} → (E → StartError) → Fallible E A → Fallible StartError A
failing wrap (ok a) = ok a
failing wrap (err e) = err (wrap e)

pub record Gateway (F B R : Type 0) : Type 0 where
  pub server : Server F
  pub client : Client F B R
  pub limits : Limits F
  pub trust_proxy : Bool
  pub addr : String

-- The playground has no client.
pub record Playground (F : Type 0) : Type 0 where
  pub server : Server F
  pub limits : Limits F
  pub trust_proxy : Bool
  pub addr : String

module _ {F S B R : Type 0} (p : Platform F S B R) where
  -- `Load`.
  unfoldable pub load_config : String → Fallible StartError (Config F)
  load_config path = do
    raw ← failing bad_file (p.read_file (if is_empty path then "configs/config.yaml" else path))
    decoded ← failing bad_file (p.yaml raw)
    failing bad_config (load p.rates p.lookup decoded)

  -- The engine as the server's interface.
  abbrev pub engine_of : Engine S → RuleEngine
  engine_of e = engine_with (p.ask e.interp e.timeout) p.not_allowed

  abbrev pub load_rules : Config F → Fallible LoadError (Engine S)
  load_rules cfg =
      Loading.new p.unicode p.show p.read_file p.exec p.blank cfg.rules.bootstrap_file
        cfg.rules.timeout cfg.rules.schema_files

  abbrev pub server_of : Config F → Engine S → Server F
  server_of cfg e =
      new_server p.parse_string (engine_of e)
        (Builder.new (with_time_field cfg.opensearch.time_field ∷ [])) p.floats (options_of cfg)

  -- The rate limiter.
  abbrev pub limits_of : Config F → Limits F
  limits_of cfg =
      new_limits p.is_positive p.rates.five cfg.rate_limit.rps cfg.rate_limit.burst
        cfg.rate_limit.ttl

  unfoldable pub start : String → Fallible StartError (Gateway F B R)
  unfolding load_config
  start path = do
    cfg ← load_config path
    re ← failing bad_rules (load_rules cfg)
    client ← failing bad_client (new_client p.open_client cfg.opensearch)
    ok (record {
      server = server_of cfg re;
      client = client;
      limits = limits_of cfg;
      trust_proxy = cfg.server.trust_proxy_headers;
      addr = cfg.server.addr;
    })

  unfoldable pub start_playground : String → Fallible StartError (Playground F)
  unfolding load_config
  start_playground path = do
    cfg ← load_config path
    re ← failing bad_rules (load_rules cfg)
    ok (record {
      server = server_of cfg re;
      limits = limits_of cfg;
      trust_proxy = cfg.server.trust_proxy_headers;
      addr = cfg.server.addr;
    })
