-- ===== src/Gateway/Serving/Searches.antt =====
-- A search through a service that `main` has made, from the request to the cluster.
use opensearch_query_gateway.Shared.{Bool, true, false, Option, none, some, List, [], ◌∷◌}
use opensearch_query_gateway.Config.{Config}
use opensearch_query_gateway.Executor
use opensearch_query_gateway.Api.Handlers
use opensearch_query_gateway.Api.Middleware.{Content, json}
use opensearch_query_gateway.Api.Endpoints.{Payload, result, explanation}
use opensearch_query_gateway.Api.Router.Replies.{Replies}
use opensearch_query_gateway.Api.Translate.{Translation}
use opensearch_query_gateway.Gateway.{Gateway}

-- The result of a search in what was written for it.
abbrev pub result_in : {F R : Type 0} → List (Content (Payload F R)) → Option R
result_in (json (result r) ∷ []) = some r
result_in (json (explanation tr r) ∷ []) = some r
result_in _ = none

-- The value that goes out with a result, and with its translation where it is asked for.
abbrev pub answer_of : {F R : Type 0} → Bool → Translation F → R → Payload F R
answer_of true tr r = explanation tr r
answer_of false tr r = result r
