-- ===== src/Api/Translate/Statuses.antt =====
-- The errors of `translate`, with their statuses and their causes.
use opensearch_query_gateway.Shared.{String, true, false, Option, none, some, ◌≡◌}
use opensearch_query_gateway.Shared.Fallible.{Fallible, err}
use opensearch_query_gateway.Config.{index_allowed}
use opensearch_query_gateway.Query.{Clause, Query, is_relative_time, duration}
use opensearch_query_gateway.Query.Parse
use opensearch_query_gateway.Query.Parse.{parse}
use opensearch_query_gateway.Rules.{RejectionError, rejected, failed}
use opensearch_query_gateway.Api.Errors.{ApiError, Message, rejection}
use opensearch_query_gateway.Api.Page.{RuleEngine, SearchRequest}
use opensearch_query_gateway.Api.Page.Refusals.{refusal, FieldFailure, PageRefusal}
use opensearch_query_gateway.Api.Translate.{Server, request_index}

-- Why a clause is refused: the rules reject it, which is a fault of the request, or its duration is
-- none; or the rules fail.
pub data ClauseRefusal (rules : RuleEngine) : ApiError → Type 0 where
  rejects :
      (field op value : String) (e : RejectionError)
      → rules.validate field op value ≡ rejected e
      → ClauseRefusal rules (refusal 400 "clause_rejected" (rejection e))
  no_verdict :
      (field op value reason : String) (msg : Message)
      → rules.validate field op value ≡ failed reason
      → ClauseRefusal rules (refusal 500 "rule_error" msg)
  bad_duration :
      (c : Clause) (msg : Message)
      → is_relative_time c ≡ true
      → (duration c).1 ≡ false
      → ClauseRefusal rules (refusal 400 "invalid_query" msg)
  rules_fail : {e : ApiError} → FieldFailure rules e → ClauseRefusal rules e

-- Why a request is refused.
pub data Refusal {F : Type 0} (s : Server F) (req : SearchRequest) : ApiError → Type 0 where
  bad_index :
      (msg : Message)
      → index_allowed s.opensearch (request_index s req) ≡ false
      → Refusal s req (refusal 403 "index_not_allowed" msg)
  bad_page : {e : ApiError} → PageRefusal s.rules s.limits req e → Refusal s req e
  empty_query :
      (msg : Message)
      → parse s.parse_string req.query ≡ Parse.err Parse.err_empty_query
      → Refusal s req (refusal 400 "empty_query" msg)
  bad_syntax :
      (reason : String) (msg : Message)
      → parse s.parse_string req.query ≡ Parse.err (Parse.syntax_error reason)
      → Refusal s req (refusal 400 "invalid_query" msg)
  bad_clause : {e : ApiError} → ClauseRefusal s.rules e → Refusal s req e

module _ (rules : RuleEngine) where
  abbrev WalkRefuses : Option ApiError → Type 0
  WalkRefuses none = Unit
  WalkRefuses (some e) = ClauseRefusal rules e

module _ {F : Type 0} (s : Server F) (req : SearchRequest) where
  abbrev Refused : ApiError → Type 0
  Refused = Refusal s req
