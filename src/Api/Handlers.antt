-- ===== src/Api/Handlers.antt =====
-- internal/api/handler_search.go and internal/api/server.go: the handlers `Search` and `Translate`
-- and the errors of `decode`. The JSON decoder, with its limit on the body, and the cluster are
-- parameters: what the decoder made of the body, and a function from an index and a body to the
-- cluster's answer.
pub mod Answers
use opensearch_query_gateway.Shared.{
  ℕ, String, Bool, true, false, Option, none, some, if◌then◌else◌,
}
use opensearch_query_gateway.Shared.Fallible.{Fallible, ok, err, ◌>>=◌}
use opensearch_query_gateway.Json.{Json}
use opensearch_query_gateway.Api.Errors.{
  ApiError, Failure, api, ErrorResponse, bad_request, joined, text, write_err,
}
use opensearch_query_gateway.Api.Page.{SearchRequest}
use opensearch_query_gateway.Api.Translate.{Translation, Server, translate}

-- What `Decode` made of the body: a request, an error of the limited reader, or another error.
pub data Body : Type 0 where
  decoded : SearchRequest → Body
  max_bytes_error : String → Body
  undecodable : String → Body

unfoldable pub decode : Body → Fallible ApiError SearchRequest
decode (decoded req) = ok req
decode (max_bytes_error e) = err (record { status = 413; code = "body_too_large"; msg = text e })
decode (undecodable e) = err (bad_request "invalid_body" (joined "invalid request body: " (text e)))

-- A response: an error, or status 200 with a translation, a result, or both.
pub data Response (F R : Type 0) : Type 0 where
  failed : ErrorResponse → Response F R
  translated : Translation F → Response F R
  found : R → Response F R
  explained : Translation F → R → Response F R

-- `writeErr` of an error of the gateway's own.
abbrev pub or_failure : {A : Type 0} → Fallible ApiError A → Fallible Failure A
or_failure (ok a) = ok a
or_failure (err e) = err (api e)

respond : {F R : Type 0} → Fallible Failure (Response F R) → Response F R
respond (ok r) = r
respond (err e) = failed (write_err e)

-- `backend.Search`.
abbrev pub Backend : Type 0 → Type 0 → Type 0
Backend F R = String → Json F → Fallible Failure R

module _ {F R : Type 0} (s : Server F) where
  unfoldable pub search_handler : Backend F R → Body → Response F R
  unfolding respond decode
  search_handler ask body = respond (do
    req ← or_failure (decode body)
    tr ← or_failure (translate s req)
    result ← ask tr.index tr.dsl
    ok (if req.explain then explained tr result else found result))

  unfoldable pub translate_handler : Body → Response F R
  unfolding respond decode
  translate_handler body =
      respond
        (do req ← or_failure (decode body); tr ← or_failure (translate s req); ok (translated tr))
