-- ===== src/Api/Schemas.antt =====
-- internal/api/handler_schema.go: the schema of an index, from the cluster or from a mapping that
-- the client sends, and the two handlers that show it. What was read of the body is a parameter.
pub mod Obtained
use opensearch_query_gateway.Shared.{
  String, Bool, true, false, [], ◌∷◌, if◌then◌else◌, is_empty, str_eq,
}
use opensearch_query_gateway.Shared.Int.{ℤ}
use opensearch_query_gateway.Shared.Fallible.{Fallible, ok, err, ◌>>=◌}
use opensearch_query_gateway.Json.{Json}
use opensearch_query_gateway.Config.{index_allowed}
use opensearch_query_gateway.Schema.{IndexSchema}
use opensearch_query_gateway.Schema.Mapper.{from_json}
use opensearch_query_gateway.Schema.Analysis.{Introspection, analyze}
use opensearch_query_gateway.Schema.Facts.{write}
use opensearch_query_gateway.Api.Errors.{
  Failure, api, ErrorResponse, bad_request, joined, text, sprintf, str, write_err,
}
use opensearch_query_gateway.Api.Translate.{Server}

-- What `io.ReadAll` of the limited body gave.
pub data MappingBody : Type 0 where
  read : (raw : String) → MappingBody
  unread : (error : String) → MappingBody

-- The parameter `index` of the query, whether the method is POST, and the body.
pub record SchemaRequest : Type 0 where
  pub index : String
  pub is_post : Bool
  pub body : MappingBody

-- A response: an error, or status 200 with what the handler shows.
pub data Shown (A : Type 0) : Type 0 where
  failed : ErrorResponse → Shown A
  shown : A → Shown A

body_text : MappingBody → Fallible Failure String
body_text (read raw) = ok raw
body_text (unread e) = err (api (record { status = 413; code = "body_too_large"; msg = text e }))

schema_read : Fallible String IndexSchema → Fallible Failure IndexSchema
schema_read (ok sch) = ok sch
schema_read (err e) =
    err (api (bad_request "invalid_mapping" (joined "cannot read mapping: " (text e))))

abbrev pub show_with : {A : Type 0} → (IndexSchema → A) → Fallible Failure IndexSchema → Shown A
show_with f (ok sch) = shown (f sch)
show_with f (err e) = failed (write_err e)

module _ {F : Type 0} (to_int : F → ℤ) (decode : String → Fallible String (Json F)) (s : Server F)
    (fetch : String → Fallible Failure String) where
  abbrev pub index_of : SchemaRequest → String
  index_of r = if is_empty r.index then s.opensearch.index else r.index

  -- The mapping from the cluster, by `backend.GetMapping`.
  fetched : String → Fallible Failure String
  fetched index =
      if index_allowed s.opensearch index
      then fetch index
      else err (
          api (record {
            status = 403;
            code = "index_not_allowed";
            msg = sprintf "index %q is not allowed" (str index ∷ []);
          }))

  unfoldable pub schema_for : SchemaRequest → Fallible Failure IndexSchema
  unfolding body_text schema_read fetched
  schema_for r = do
    raw ← if r.is_post then body_text r.body else fetched (index_of r)
    schema_read (from_json to_int decode (index_of r) raw)

  module _ (show : ℤ → String) where
    -- `Introspect`: the purpose is that of the default index.
    unfoldable pub introspect : SchemaRequest → Shown Introspection
    unfolding schema_for
    introspect r =
        show_with
          (λ sch.
            analyze show sch
              (if str_eq sch.name s.opensearch.index then s.opensearch.purpose else ""))
          (schema_for r)

    unfoldable pub prolog_facts : SchemaRequest → Shown String
    unfolding schema_for
    prolog_facts r = show_with (write show) (schema_for r)
