-- ===== src/Gateway/Serving.antt =====
-- cmd/gateway/main.go: the HTTP server of a service that `main` has made. Listening, the signals
-- and shutting down are left out. A random id and the time are those of a request.
pub mod Searches
use opensearch_query_gateway.Shared.{ℕ, String, Bool, Option, some, List}
use opensearch_query_gateway.Shared.Int.{ℤ, pos}
use opensearch_query_gateway.Shared.Fallible.{Fallible}
use opensearch_query_gateway.Json.{Json}
use opensearch_query_gateway.Executor
use opensearch_query_gateway.Api.Handlers.{Body}
use opensearch_query_gateway.Api.Schemas.{SchemaRequest}
use opensearch_query_gateway.Api.Middleware.{Request, Handler, client_ip}
use opensearch_query_gateway.Api.Endpoints.{Payload, Asked, endpoints}
use opensearch_query_gateway.Api.RateLimit.{Buckets, Clients, Limits}
use opensearch_query_gateway.Api.RateLimit.Limited.{rate_limit_middleware}
use opensearch_query_gateway.Api.Router.{new_router}
use opensearch_query_gateway.Gateway.{Gateway}

-- What serving calls: the multiplexer, `net.SplitHostPort`, the token buckets of some limits, what
-- is read of a request, the decoder of JSON, the values that its
-- encoder does not fail on, and how numbers are written.
pub record Web (F R T : Type 0) : Type 0 where
  pub mux : List (String × Handler (Clients T) (Payload F R)) → Handler (Clients T) (Payload F R)
  pub split_host : String → Option String
  pub new_buckets : Limits F → Buckets T
  pub body_of : Request → Body
  pub schema_request_of : Request → SchemaRequest
  pub to_int : F → ℤ
  pub decode : String → Fallible String (Json F)
  pub encodes : Payload F R → Bool
  pub show : ℕ → String
  pub show_int : ℤ → String

-- `http.Server`, with durations in nanoseconds.
pub record HttpServer (F R T : Type 0) : Type 0 where
  pub addr : String
  pub handler : (random_id : String) → (now : ℤ) → Handler (Clients T) (Payload F R)
  pub read_header_timeout : ℤ
  pub read_timeout : ℤ
  pub write_timeout : ℤ
  pub idle_timeout : ℤ

module _ {F B R T : Type 0} (web : Web F R T) where
  -- The client of the cluster as the server's backend.
  unfoldable pub asked_of : Gateway F B R → Asked F R
  asked_of g = record {
    body_of = web.body_of;
    schema_request_of = web.schema_request_of;
    to_int = web.to_int;
    decode = web.decode;
    encodes = web.encodes;
    show = web.show_int;
    search = Executor.search web.show g.client;
    get_mapping = Executor.get_mapping web.show g.client;
    ping = Executor.ping web.show g.client;
  }

  unfoldable pub http_server : Gateway F B R → HttpServer F R T
  unfolding asked_of new_router rate_limit_middleware endpoints
  http_server g =
      let key = client_ip web.split_host g.trust_proxy in
      record {
        addr = g.addr;
        handler = λ random_id now.
            new_router web.mux random_id web.split_host (some key)
              (rate_limit_middleware (web.new_buckets g.limits) key now)
              (endpoints g.server (asked_of g));
        read_header_timeout = pos 5000000000;
        read_timeout = pos 10000000000;
        write_timeout = pos 30000000000;
        idle_timeout = pos 60000000000;
      }
