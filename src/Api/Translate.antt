-- ===== src/Api/Translate.antt =====
-- internal/api/handler_search.go: `translate`, from a request to the body of a search.
pub mod Passed
pub mod Checked
pub mod Fields
pub mod Known
pub mod Statuses
use opensearch_query_gateway.Shared.{
  String, Bool, true, false, not, Option, none, some, List, [], ◌∷◌, ◌++◌, str_eq, if◌then◌else◌,
  is_empty,
}
use opensearch_query_gateway.Shared.Fallible.{Fallible, ok, err, ◌>>=◌, >>=-ok_inv, ok-injective}
use opensearch_query_gateway.Shared.Int.{ℤ}
use opensearch_query_gateway.Config.{OpenSearchConfig, SearchConfig, index_allowed}
use opensearch_query_gateway.Json.{Json}
use opensearch_query_gateway.Query.{
  Clause, Query, is_relative_time, relative_time_field, duration, op, raw_value, walk_clauses,
}
use opensearch_query_gateway.Query.Parse
use opensearch_query_gateway.Query.Parse.{Parsed, ParseError, err_empty_query, syntax_error, parse}
use opensearch_query_gateway.Rules
use opensearch_query_gateway.Rules.{Verdict, accepted, rejected, failed}
use opensearch_query_gateway.Dsl.{Floats}
use opensearch_query_gateway.Builder.{Builder, Page, build_search}
use opensearch_query_gateway.Api.Errors.{
  ApiError, str, text, sprintf, joined, rejection, bad_request,
}
use opensearch_query_gateway.Api.Page.{RuleEngine, SearchRequest, guard, rule_error, page}

pub record Normalization : Type 0 where
  pub from : String
  pub to : String

pub record Translation (F : Type 0) : Type 0 where
  pub index : String
  pub query : String
  pub dsl : Json F
  pub normalized : List Normalization

-- The fields of `Server` but the backend; the grammar and `strconv.ParseFloat` are given.
pub record Server (F : Type 0) : Type 0 where
  pub parse_string : String → Parsed
  pub rules : RuleEngine
  pub builder : Builder
  pub floats : Floats F
  pub opensearch : OpenSearchConfig
  pub limits : SearchConfig
  pub max_body : ℤ

-- What the walk over the clauses changes outside of them: `walkErr` and `tr.Normalized`.
pub record Walk : Type 0 where
  pub error : Option ApiError
  pub normalized : List Normalization

-- The error that the handler makes of the rule engine's; `none` is `nil`.
unfoldable pub verdict_error : Verdict → Option ApiError
verdict_error accepted = none
verdict_error (rejected e) = some (bad_request "clause_rejected" (rejection e))
verdict_error (failed e) = some (rule_error (joined "rule evaluation failed: " (text e)))

abbrev bad_duration : Clause → ApiError
bad_duration c = bad_request "invalid_query" (
    sprintf "invalid duration %q for %s: use e.g. 15m, 2h, 7d"
      (str (raw_value c) ∷ str relative_time_field ∷ []))

module _ (rules : RuleEngine) (time_field : String) where
  abbrev pub validate : String → String → String → Option ApiError
  validate field op value = verdict_error (rules.validate field op value)

  -- A relative clause, with what `Duration` says of it.
  check_relative : Clause → String × Bool → List Normalization → Clause × Walk
  check_relative c (d, well_formed) normalized = (
    c,
    record {
      error = if well_formed then validate time_field "range" d else some (bad_duration c);
      normalized = normalized;
    },
  )

  abbrev checked : Clause → List Normalization → Clause × Walk
  checked c normalized =
      (c, record { error = validate c.field (op c) (raw_value c); normalized = normalized })

  -- Any other clause, with what the rule engine makes of its field.
  check_field : Clause → Fallible String String → List Normalization → Clause × Walk
  check_field c (err e) normalized = (
    c,
    record {
      error = some (rule_error (joined "rule evaluation failed: " (text e)));
      normalized = normalized;
    },
  )
  check_field c (ok canonical) normalized =
      if not (str_eq canonical c.field)
      then checked (record c { field = canonical })
          (normalized ++ record { from = c.field; to = canonical } ∷ [])
      else checked c normalized

  unfoldable pub check_clause : Clause → List Normalization → Clause × Walk
  unfolding check_relative check_field verdict_error
  check_clause c normalized =
      if is_relative_time c
      then check_relative c (duration c) normalized
      else check_field c (rules.normalize_field c.field) normalized

  -- The function that `translate` hands to `WalkClauses`: nothing is done after an error.
  unfoldable pub visit : Clause → Walk → Clause × Walk
  visit c w = elim w.error [ none ↦ check_clause c w.normalized | some e ↦ (c, w) ]

parsed : Parsed → Fallible ApiError Query
parsed (Parse.ok q) = ok q
parsed (Parse.err err_empty_query) =
    err (bad_request "empty_query" (text "query must not be empty"))
parsed (Parse.err (syntax_error e)) =
    err (bad_request "invalid_query" (joined "invalid query syntax: " (text e)))

unwalked : {A : Type 0} → A → Option ApiError → Fallible ApiError A
unwalked a none = ok a
unwalked a (some e) = err e

abbrev pub no_walk : Walk
no_walk = record { error = none; normalized = [] }

module _ {F : Type 0} (s : Server F) where
  abbrev pub request_index : SearchRequest → String
  request_index req = if is_empty req.index then s.opensearch.index else req.index

  check_index : SearchRequest → Fallible ApiError (Unit {0})
  check_index req = guard (index_allowed s.opensearch (request_index req)) (record {
    status = 403;
    code = "index_not_allowed";
    msg = sprintf "index %q is not allowed" (str (request_index req) ∷ []);
  })

  abbrev pub walk : Query → Query × Walk
  walk ast = walk_clauses (visit s.rules s.builder.time_field) ast no_walk

  unfoldable pub translate : SearchRequest → Fallible ApiError (Translation F)
  unfolding check_index parsed unwalked
  translate req = do
    allowed ← check_index req
    p ← page s.rules s.limits req
    ast ← parsed (parse s.parse_string req.query)
    let (ast', w) = walk ast
    walked ← unwalked tt w.error
    ok (record {
      index = request_index req;
      query = req.query;
      dsl = build_search s.floats s.builder ast' p;
      normalized = w.normalized;
    })
