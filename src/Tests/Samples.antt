-- ===== src/Tests/Samples.antt =====
-- Queries, rules and configurations that the tests share.
use opensearch_query_gateway.Shared.{
  ℕ, String, Bool, true, false, none, some, [], ◌∷◌, str_eq, if◌then◌else◌, ◌||◌,
}
use opensearch_query_gateway.Shared.Int.{pos}
use opensearch_query_gateway.Shared.Fallible.{ok}
use opensearch_query_gateway.Query.{
  Clause, compare, word, AndExpr, Query, expression, no_or, or_op, and_expr, no_and, and_op,
  not_expr, group, clause, is_relative_time, duration_of,
}
use opensearch_query_gateway.Query.Parse
use opensearch_query_gateway.Query.Parse.{Parsed}
use opensearch_query_gateway.Rules.{accepted, rejected}
use opensearch_query_gateway.Dsl.{
  Floats, contains_wildcard, compare_clause, range_params, match_clause, boost_factor,
  wildcard_clause,
}
use opensearch_query_gateway.Builder.{
  Builder, Page, or_query, and_query, add_query, build_clause, build_expression, build_search,
}
use opensearch_query_gateway.Config.{OpenSearchConfig, SearchConfig}
use opensearch_query_gateway.Api.Page.{RuleEngine, SearchRequest}
use opensearch_query_gateway.Api.Translate.{Server}

abbrev pub plain : String → String → Clause
plain f w = record { field = f; value = record { operand = word w; fuzzy = none; boost = none } }

-- tag:go
abbrev pub tag_go : Clause
tag_go = plain "tag" "go"

-- status:arch*
abbrev pub archived : Clause
archived = plain "status" "arch*"

-- last:15m
abbrev pub recent : Clause
recent = plain "last" "15m"

-- views:>=100^2
abbrev pub popular : Clause
popular = record {
  field = "views";
  value = record {
    operand = compare (record { op = ">="; value = "100" });
    fuzzy = none;
    boost = some (record { factor = "2" });
  };
}

abbrev alone : Clause → AndExpr
alone c = and_expr (not_expr false (clause c)) no_and

-- (tag:go OR views:>=100^2) AND NOT status:arch* last:15m
abbrev pub sample : Query
sample = record {
  root =
      expression
        (and_expr
          (not_expr false (group (expression (alone tag_go) (or_op "" (alone popular) no_or))))
          (and_op "AND" (not_expr true (clause archived))
            (and_op "" (not_expr false (clause recent)) no_and)))
        no_or;
}

abbrev pub floats : Floats ℕ
floats = record { parse_float = λ s. if str_eq s "2" then some 2 else none; one = 1 }

abbrev pub builder : Builder
builder = record { time_field = "@timestamp" }

abbrev pub first_page : Page
first_page = record { size = pos 10; from = pos 0; sort = []; track = true }

abbrev known : String → Bool
known f = str_eq f "tags" || str_eq f "views" || str_eq f "status" || str_eq f "@timestamp"

-- The canonical names of `tag`, `views` and `status`.
abbrev pub canonical : String → String
canonical f =
    if str_eq f "tag"
    then "tags"
    else if str_eq f "views"
    then "views"
    else if str_eq f "status"
    then "status"
    else "other"

abbrev pub rules : RuleEngine
rules = record {
  normalize_field = λ f. ok (canonical f);
  validate = λ f o v.
      if known f
      then accepted
      else rejected (record { field = f; op = o; value = v; reason = "unknown field" });
  known_field = λ f. ok (known f);
}

abbrev pub opensearch : OpenSearchConfig
opensearch = record {
  addresses = "http://localhost:9200" ∷ [];
  username = "";
  password = "";
  index = "documents";
  allowed_indices = "logs" ∷ [];
  insecure_skip_verify = false;
  request_timeout = pos 0;
  time_field = "";
  purpose = "";
}

abbrev pub limits : SearchConfig
limits = record {
  default_size = pos 10;
  max_size = pos 100;
  max_from = pos 10000;
  track_total_hits = true;
}

abbrev pub server : Server ℕ
server = record {
  parse_string = λ s. Parse.ok sample;
  rules = rules;
  builder = builder;
  floats = floats;
  opensearch = opensearch;
  limits = limits;
  max_body = pos 1048576;
}

abbrev pub request : SearchRequest
request = record {
  query = "(tag:go OR views:>=100^2) AND NOT status:arch* last:15m";
  index = "";
  size = none;
  from = pos 0;
  sort = "views:desc" ∷ [];
  explain = false;
}

-- What a run of the builder unfolds.
unfoldable pub build_run : Unit {0}
unfolding build_search build_expression or_query and_query add_query build_clause is_relative_time
    contains_wildcard compare_clause range_params match_clause boost_factor wildcard_clause
    duration_of
build_run = tt
