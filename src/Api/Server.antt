-- ===== src/Api/Server.antt =====
-- internal/api/server.go: `NewServer`, and the call of it in cmd/gateway/main.go.
pub mod Loaded
use opensearch_query_gateway.Shared.{String}
use opensearch_query_gateway.Shared.Int.{ℤ, pos}
use opensearch_query_gateway.Config.{Config, OpenSearchConfig, SearchConfig, or_positive}
use opensearch_query_gateway.Query.Parse.{Parsed}
use opensearch_query_gateway.Dsl.{Floats}
use opensearch_query_gateway.Builder.{Builder}
use opensearch_query_gateway.Api.Page.{RuleEngine}
use opensearch_query_gateway.Api.Translate.{Server}

pub record Options : Type 0 where
  pub opensearch : OpenSearchConfig
  pub search : SearchConfig
  pub max_body_bytes : ℤ

unfoldable pub new_server :
    {F : Type 0} → (String → Parsed) → RuleEngine → Builder → Floats F → Options → Server F
new_server parse_string rules builder floats opts = record {
  parse_string = parse_string;
  rules = rules;
  builder = builder;
  floats = floats;
  opensearch = opts.opensearch;
  limits = record (opts.search) {
    default_size = or_positive (pos 10) opts.search.default_size;
    max_size = or_positive (pos 100) opts.search.max_size;
    max_from = or_positive (pos 10000) opts.search.max_from;
  };
  max_body = or_positive (pos 1048576) opts.max_body_bytes;
}

-- The options that `main` makes of the configuration.
unfoldable pub options_of : {F : Type 0} → Config F → Options
options_of cfg = record {
  opensearch = cfg.opensearch;
  search = cfg.search;
  max_body_bytes = cfg.server.max_body_bytes;
}
