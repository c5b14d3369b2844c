-- ===== src/Tests/Services.antt =====
-- Requests to the service and to the playground.
use opensearch_query_gateway.Shared.{
  ℕ, zero, suc, String, Bool, true, false, Option, none, some, List, [], ◌≡◌, refl, str_eq, ◌<>◌,
  if◌then◌else◌,
}
use opensearch_query_gateway.Shared.Int.{pos}
use opensearch_query_gateway.Shared.Fallible.{ok, err}
use opensearch_query_gateway.Api.Errors.{other}
use opensearch_query_gateway.Api.Handlers.{decoded, translate_handler}
use opensearch_query_gateway.Api.Schemas.{unread}
use opensearch_query_gateway.Api.Middleware.{Request, returned, Handler, request_id}
use opensearch_query_gateway.Api.Endpoints.{Payload, Asked, endpoints}
use opensearch_query_gateway.Api.RateLimit.{Buckets, Clients, no_clients, serve}
use opensearch_query_gateway.Api.RateLimit.Limited.{rate_limit_middleware}
use opensearch_query_gateway.Api.Router.{new_router}
use opensearch_query_gateway.Api.Router.Replies.{fresh, limited_reply, Replies}
use opensearch_query_gateway.Api.Router.Served.{
  Dispatches, search, own_headers, route_at, response_of, router_serves,
}
use opensearch_query_gateway.Api.Playground.{new_playground_router}
use opensearch_query_gateway.Api.Playground.Served.{secure_headers, playground_serves}
use opensearch_query_gateway.Tests.Samples.{server, request}

abbrev pub Handle : Type 0
Handle = Handler (Clients ℕ) (Payload ℕ ℕ)

-- A bucket of one token that is never filled again.
abbrev take_token : ℕ → Bool × ℕ
take_token zero = (false, 0)
take_token (suc n) = (true, n)

abbrev pub one_token : Buckets ℕ
one_token = record { fresh = 1; allow = λ now. take_token }

-- Behind the first request of the client.
abbrev one_served : Clients ℕ
one_served = (serve one_token "10.0.0.1:5000" (pos 5) no_clients).1

-- A multiplexer of literal patterns.
served_by : Option Handle → Handle
served_by none r w = returned w
served_by (some h) r w = h r w

unfoldable pub first_match : List (String × Handle) → Handle
unfolding served_by
first_match rs r w = served_by (route_at (r.method <> (" " <> r.path)) rs) r w

pub first_match-Dispatches : (rs : List (String × Handle)) → Dispatches first_match rs
unfolding first_match
first_match-Dispatches rs = record { posted = λ path h r w m q e. rw (m, q, e) refl }

abbrev pub post : String → Request
post path = record {
  method = "POST";
  path = path;
  remote_addr = "10.0.0.1:5000";
  header = λ k. if str_eq k "X-Request-ID" then "r-1" else "";
}

abbrev pub no_split : String → Option String
no_split addr = none

abbrev address : Request → String
address r = r.remote_addr

-- A cluster that finds the number 7.
abbrev pub cluster : Asked ℕ ℕ
cluster = record {
  body_of = λ r. decoded request;
  schema_request_of = λ r. record { index = ""; is_post = true; body = unread "EOF" };
  to_int = pos;
  decode = λ s. err "EOF";
  encodes = λ p. true;
  show = λ n. "1";
  search = λ index dsl. ok 7;
  get_mapping = λ index. err (other "no mapping");
  ping = ok tt;
}

-- A cluster that is not there.
abbrev no_cluster : Asked ℕ ℕ
no_cluster = record cluster {
  search = λ index dsl. err (other "no cluster");
  ping = err (other "no cluster");
}

abbrev no_file : String → Handle
no_file path r w = returned w

router_serves_example :
    Replies
      (new_router first_match "00ff" no_split
        (some address)
        (rate_limit_middleware one_token address (pos 6))
        (endpoints server cluster)
        (post "/v1/search")
        (fresh one_served []))
      (post "/v1/search")
      "r-1"
      "10.0.0.1:5000"
      (own_headers "r-1")
      false
      (serve one_token "10.0.0.1:5000" (pos 6) one_served).1
      (limited_reply {F = ℕ} {R = ℕ} cluster.encodes false
        (response_of server cluster (post "/v1/search") search))
      []
unfolding serve request_id
router_serves_example =
    router_serves one_token address (pos 6) "00ff" no_split (some address) first_match server
      cluster search (post "/v1/search") one_served [] (first_match-Dispatches _) refl refl

playground_serves_example :
    let router = λ (a : Asked ℕ ℕ).
      new_playground_router first_match "00ff" no_split
        (some address)
        no_file
        (rate_limit_middleware one_token address (pos 6))
        (endpoints server a) in
    Replies
      (router cluster (post "/v1/translate") (fresh no_clients []))
      (post "/v1/translate")
      "r-1"
      "10.0.0.1:5000"
      (secure_headers "r-1")
      true
      (serve one_token "10.0.0.1:5000" (pos 6) no_clients).1
      (limited_reply {F = ℕ} {R = ℕ} cluster.encodes true
        (translate_handler server (decoded request)))
      []
    × (router no_cluster ≡ router cluster)
unfolding serve request_id
playground_serves_example =
    playground_serves one_token address (pos 6) "00ff" no_split (some address) first_match no_file
      server cluster no_cluster (post "/v1/translate") no_clients [] (first_match-Dispatches _) refl
      refl refl refl
