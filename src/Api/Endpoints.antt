-- ===== src/Api/Endpoints.antt =====
-- internal/api: the handlers of the server as they write their responses. What they read of a
-- request, and the cluster, are parameters.
use opensearch_query_gateway.Shared.{String, Bool, [], ◌∷◌, ◌++◌}
use opensearch_query_gateway.Shared.Int.{ℤ}
use opensearch_query_gateway.Shared.Fallible.{Fallible}
use opensearch_query_gateway.Json.{Json}
use opensearch_query_gateway.Schema.Analysis.{Introspection}
use opensearch_query_gateway.Api.Errors.{Failure}
use opensearch_query_gateway.Api.Translate.{Translation, Server}
use opensearch_query_gateway.Api.Handlers
use opensearch_query_gateway.Api.Handlers.{
  Body, Response, translated, found, explained, Backend, search_handler, translate_handler,
}
use opensearch_query_gateway.Api.Health.{Health, healthy, healthz, readyz}
use opensearch_query_gateway.Api.Schemas
use opensearch_query_gateway.Api.Schemas.{SchemaRequest, Shown, shown, introspect, prolog_facts}
use opensearch_query_gateway.Api.Middleware.{
  Request, json, Service, returned, Handler, set_header, first_status, write_json, write_error,
}

-- What the handlers write besides errors.
pub data Payload (F R : Type 0) : Type 0 where
  translation : Translation F → Payload F R
  result : R → Payload F R
  explanation : Translation F → R → Payload F R
  introspection : Introspection → Payload F R
  facts : String → Payload F R
  status : String → Payload F R

-- What `Search` and `Translate` write.
unfoldable pub write_response :
    {X F R : Type 0}
    → (Payload F R → Bool)
    → Response F R
    → Service X (Payload F R)
    → Service X (Payload F R)
unfolding write_json write_error
write_response encodes (Handlers.failed e) w = write_error e w
write_response encodes (translated tr) w = write_json encodes 200 (json (translation tr)) w
write_response encodes (found r) w = write_json encodes 200 (json (result r)) w
write_response encodes (explained tr r) w = write_json encodes 200 (json (explanation tr r)) w

-- What `Introspect` and `PrologFacts` write; the latter sends its status with the first byte of the
-- text.
unfoldable pub write_introspection :
    {X F R : Type 0}
    → (Payload F R → Bool)
    → Shown Introspection
    → Service X (Payload F R)
    → Service X (Payload F R)
unfolding write_json write_error
write_introspection encodes (Schemas.failed e) w = write_error e w
write_introspection encodes (shown i) w = write_json encodes 200 (json (introspection i)) w

unfoldable pub write_facts :
    {X F R : Type 0} → Shown String → Service X (Payload F R) → Service X (Payload F R)
unfolding write_error
write_facts (Schemas.failed e) w = write_error e w
write_facts (shown text) w =
    let named = set_header "Content-Type" "text/plain; charset=utf-8" w in
    record named { sent = first_status 200 named.sent; body = named.body ++ json (facts text) ∷ [] }

-- What `Healthz` and `Readyz` write.
unfoldable pub write_health :
    {X F R : Type 0}
    → (Payload F R → Bool)
    → Health
    → Service X (Payload F R)
    → Service X (Payload F R)
unfolding write_json write_error
write_health encodes (Health.failed e) w = write_error e w
write_health encodes (healthy s) w = write_json encodes 200 (json (status s)) w

-- What the handlers ask: the request, the decoder of JSON, the values that the encoder of JSON does
-- not fail on, and the cluster.
pub record Asked (F R : Type 0) : Type 0 where
  pub body_of : Request → Body
  pub schema_request_of : Request → SchemaRequest
  pub to_int : F → ℤ
  pub decode : String → Fallible String (Json F)
  pub encodes : Payload F R → Bool
  pub show : ℤ → String
  pub search : Backend F R
  pub get_mapping : String → Fallible Failure String
  pub ping : Fallible Failure (Unit {0})

-- The handlers of a server.
pub record Endpoints (X P : Type 0) : Type 0 where
  pub search : Handler X P
  pub translate : Handler X P
  pub introspect : Handler X P
  pub prolog_facts : Handler X P
  pub healthz : Handler X P
  pub readyz : Handler X P

unfoldable pub endpoints : {X F R : Type 0} → Server F → Asked F R → Endpoints X (Payload F R)
unfolding write_response write_introspection write_facts write_health search_handler
    translate_handler introspect prolog_facts healthz readyz
endpoints s asked = record {
  search = λ r w.
      returned (write_response asked.encodes (search_handler s asked.search (asked.body_of r)) w);
  translate =
      λ r w. returned (write_response asked.encodes (translate_handler s (asked.body_of r)) w);
  introspect = λ r w. returned (
      write_introspection asked.encodes
        (introspect asked.to_int asked.decode s asked.get_mapping asked.show
          (asked.schema_request_of r))
        w);
  prolog_facts = λ r w. returned (
      write_facts
        (prolog_facts asked.to_int asked.decode s asked.get_mapping asked.show
          (asked.schema_request_of r))
        w);
  healthz = λ r w. returned (write_health asked.encodes healthz w);
  readyz = λ r w. returned (write_health asked.encodes (readyz asked.ping) w);
}
