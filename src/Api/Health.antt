-- ===== src/Api/Health.antt =====
-- internal/api/server.go: the handlers `Healthz` and `Readyz`. The answer of the cluster to the ping
-- is a parameter.
use opensearch_query_gateway.Shared.{String}
use opensearch_query_gateway.Shared.Fallible.{Fallible, ok, err}
use opensearch_query_gateway.Api.Errors.{
  Message, text, Failure, api, opensearch, deadline_exceeded, other, ErrorResponse,
}

-- A response: an error, or status 200 with a status text.
pub data Health : Type 0 where
  healthy : (status : String) → Health
  failed : ErrorResponse → Health

-- `err.Error()`.
abbrev failure_text : Failure → Message
failure_text (api e) = e.msg
failure_text (opensearch e error) = text error
failure_text (deadline_exceeded error) = text error
failure_text (other error) = text error

unfoldable pub healthz : Health
healthz = healthy "ok"

unfoldable pub readyz : Fallible Failure (Unit {0}) → Health
readyz (ok u) = healthy "ready"
readyz (err e) =
    failed (record { status = 503; code = "opensearch_unavailable"; message = failure_text e })
