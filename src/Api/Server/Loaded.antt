-- ===== src/Api/Server/Loaded.antt =====
-- The server of a configuration that `Load` returned.
use opensearch_query_gateway.Shared.{zero, suc, String, ◌≡◌, refl, arith}
use opensearch_query_gateway.Shared.Fallible.{ok}
use opensearch_query_gateway.Shared.Int.{ℤ, pos, negsuc, ◌≤ℤ◌}
use opensearch_query_gateway.Config.{Config, Rates, or_positive}
use opensearch_query_gateway.Config.Env.{Lookup, load}
use opensearch_query_gateway.Config.Defaults.{IsPositive}
use opensearch_query_gateway.Config.Loading.{load-IsReady}
use opensearch_query_gateway.Query.Parse.{Parsed}
use opensearch_query_gateway.Dsl.{Floats}
use opensearch_query_gateway.Builder.{Builder}
use opensearch_query_gateway.Api.Page.{RuleEngine}
use opensearch_query_gateway.Api.Server.{new_server, options_of}

or_positive-eq : (d n : ℤ) → IsPositive n → or_positive d n ≡ n
or_positive-eq d (pos zero) h = absurd (omega arith)
or_positive-eq d (pos (suc n)) h = ground arith
or_positive-eq d (negsuc n) h = absurd h

larger-IsPositive : (m n : ℤ) → IsPositive m → m ≤ℤ n → IsPositive n
larger-IsPositive (pos m) (pos n) h k = omega arith
larger-IsPositive (pos m) (negsuc n) h k = absurd (omega arith)
larger-IsPositive (negsuc m) n h k = absurd h

-- The defaults of `NewServer` never replace what `Load` returned: the server of a loaded
-- configuration has its index settings, its limits on pages, and its limit on the body.
pub new_server_keeps :
    {F : Type 0} (rates : Rates F) (lookup : Lookup) (decoded : Config F) (cfg : Config F)
    (parse_string : String → Parsed) (rules : RuleEngine) (builder : Builder) (floats : Floats F)
    → load rates lookup decoded ≡ ok cfg
    → let s = new_server parse_string rules builder floats (options_of cfg) in
      (s.opensearch ≡ cfg.opensearch)
      × (s.limits ≡ cfg.search)
      × (s.max_body ≡ cfg.server.max_body_bytes)
unfolding new_server options_of
new_server_keeps rates lookup decoded cfg parse_string rules builder floats h =
    let ready = load-IsReady rates lookup decoded h in
    let fits =
      larger-IsPositive cfg.search.default_size cfg.search.max_size ready.default_size
        ready.size_limit in
    (
      refl,
      λ i. record (cfg.search) {
        default_size = or_positive-eq (pos 10) cfg.search.default_size ready.default_size i;
        max_size = or_positive-eq (pos 100) cfg.search.max_size fits i;
        max_from = or_positive-eq (pos 10000) cfg.search.max_from ready.max_from i;
      },
      or_positive-eq (pos 1048576) cfg.server.max_body_bytes ready.max_body_bytes,
    )
