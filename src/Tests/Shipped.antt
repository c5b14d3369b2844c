-- ===== src/Tests/Shipped.antt =====
-- The shipped rules with the facts of a schema, and a query translated under them.
use mathlib.Core.List.{Mem, mem-cons_self}
use opensearch_query_gateway.Shared.{
  ℕ, String, Bool, true, ◌↔◌, [], ◌∷◌, ◌≡◌, refl, cut, trim_space,
}
use opensearch_query_gateway.Shared.Int.{pos, add_int}
use opensearch_query_gateway.Shared.Fallible.{ok}
use opensearch_query_gateway.Json.{Json, single, str}
use opensearch_query_gateway.Rules.{Interpreter, validate, normalize_field, is_known_field}
use opensearch_query_gateway.Config.{index_allowed}
use opensearch_query_gateway.Rules.Bootstrap.{
  Facts, is_known, is_range_field, is_valid, reason_of, bootstrap,
}
use opensearch_query_gateway.Rules.Bootstrap.Fields.{Known}
use opensearch_query_gateway.Rules.Bootstrap.Verdicts.{
  Alias, Searched, Bounded, reject, bootstrap_verdicts,
}
use opensearch_query_gateway.Query.{
  Query, walk_clauses, walk_expression, is_relative_time, op, duration_of,
}
use opensearch_query_gateway.Query.Parse
use opensearch_query_gateway.Builder.{Page, build_expression, build_search}
use opensearch_query_gateway.Builder.Leaves.{leaves}
use opensearch_query_gateway.Builder.Search.{build_search-query}
use opensearch_query_gateway.Api.Page.{page, direction, engine_with}
use opensearch_query_gateway.Api.Translate.{
  Server, Translation, translate, walk, visit, check_clause,
}
use opensearch_query_gateway.Api.Translate.Known.{IsKnown, leaves-IsKnown}
use opensearch_query_gateway.Tests.Samples.{server, request, sample, floats, builder, build_run}

-- A schema with a text, a nested field and a field inside it.
abbrev facts : Facts
facts = record {
  fields = "body" ∷ "comments" ∷ "comments.text" ∷ [];
  objects = [];
  nested = "comments" ∷ [];
  types = ("body", "text") ∷ ("comments", "nested") ∷ ("comments.text", "text") ∷ [];
}

abbrev interp : Interpreter
interp = bootstrap facts

abbrev not_allowed : String → String
not_allowed o = o

-- What a run of the rules unfolds.
unfoldable rules_run : Unit {0}
unfolding bootstrap is_valid reason_of is_known is_range_field validate normalize_field
    is_known_field
rules_run = tt

nested_sample :
    validate interp not_allowed "comments.text" "eq" "go"
    ≡ reject "comments.text" "eq" "go" "fields inside nested objects are not supported yet"
unfolding rules_run
nested_sample = refl

bootstrap_verdicts_example :
    ((canonical : String) × (normalize_field interp "body" ≡ ok canonical) × Alias "body" canonical)
    × ((b : Bool) × (is_known_field interp "body" ≡ ok b) × ((b ≡ true) ↔ Known facts "body"))
    × Searched facts "body" "go" (validate interp not_allowed "body" "eq" "go")
    × Bounded facts "body" "go" (validate interp not_allowed "body" "range" "go")
bootstrap_verdicts_example = bootstrap_verdicts facts not_allowed interp "body" "go" (λ g. refl)

abbrev shipped : Server ℕ
shipped = record server { rules = engine_with interp not_allowed }

abbrev sample_page : Page
sample_page = record {
  size = pos 10;
  from = pos 0;
  sort = record { field = "views"; desc = true } ∷ [];
  track = true;
}

abbrev walked : Query
walked = (walk shipped sample).0

abbrev translation : Translation ℕ
translation = record {
  index = "documents";
  query = request.query;
  dsl = build_search floats builder walked sample_page;
  normalized = record { from = "tag"; to = "tags" } ∷ [];
}

translate_sample : translate shipped request ≡ ok translation
unfolding translate index_allowed page add_int direction cut trim_space Parse.parse walk_clauses
    walk_expression visit check_clause is_relative_time duration_of op rules_run
translate_sample = refl

abbrev match_tags : Json ℕ
match_tags = single "match" (single "tags" (str "go"))

mem_sample : Mem match_tags (leaves (build_expression floats builder walked.root))
unfolding build_run leaves walk_clauses walk_expression visit check_clause rules_run
mem_sample = mem-cons_self

leaves-IsKnown_example : ∥ IsKnown facts match_tags ∥₁
leaves-IsKnown_example =
    leaves-IsKnown shipped interp facts not_allowed request translation
      (build_expression floats builder walked.root) match_tags refl (λ g. refl) translate_sample
      (build_search-query floats builder walked sample_page) mem_sample
