-- ===== src/Api/Playground/Served.antt =====
-- A request to the playground.
use opensearch_query_gateway.Shared.{
  String, Option, none, some, List, ◌≡◌, refl, if◌then◌else◌, str_eq,
}
use opensearch_query_gateway.Shared.Int.{ℤ}
use opensearch_query_gateway.Api.Translate.{Server}
use opensearch_query_gateway.Api.Handlers.{translate_handler}
use opensearch_query_gateway.Api.Middleware.{Request, LogLine, Handler, request_id, stack}
use opensearch_query_gateway.Api.Endpoints.{Payload, Asked, endpoints}
use opensearch_query_gateway.Api.RateLimit.{Buckets, Clients, serve}
use opensearch_query_gateway.Api.RateLimit.Limited.{rate_limit_middleware}
use opensearch_query_gateway.Api.Router.{key_or_default}
use opensearch_query_gateway.Api.Router.Replies.{fresh, limited_reply, Replies}
use opensearch_query_gateway.Api.Router.Served.{Dispatches, routed-Replies}
use opensearch_query_gateway.Api.Playground.{
  content_security_policy, secured, secure, playground_routes, new_playground_router,
}

-- The headers that a handler finds.
abbrev pub secure_headers : String → String → Option String
secure_headers id k =
    if str_eq "X-Frame-Options" k
    then some "DENY"
    else if str_eq "Referrer-Policy" k
    then some "no-referrer"
    else if str_eq "X-Content-Type-Options" k
    then some "nosniff"
    else if str_eq "Content-Security-Policy" k
    then some content_security_policy
    else if str_eq "X-Request-ID" k
    then some id
    else none

module _ {B F R : Type 0} (buckets : Buckets B) (key : Request → String) (now : ℤ)
    (random_id : String) (split_host : String → Option String)
    (client_ip : Option (Request → String))
    (mux : List (String × Handler (Clients B) (Payload F R)) → Handler (Clients B) (Payload F R))
    (serve_file : String → Handler (Clients B) (Payload F R)) where
  -- A translation in the playground is answered as in the service, limited in the same way, with
  -- an empty body if the encoder of JSON fails on it, and with the security headers as well; the
  -- answer is the same for any two clusters, so that it does not ask the cluster. The multiplexer is
  -- assumed to find the handler of a literal pattern for POST among the routes of the playground.
  pub playground_serves :
      (s : Server F) (asked other : Asked F R) (r : Request) (clients : Clients B)
      (log : List LogLine)
      → Dispatches mux
          (playground_routes serve_file (rate_limit_middleware buckets key now) (endpoints s asked))
      → r.method ≡ "POST"
      → r.path ≡ "/v1/translate"
      → other.body_of ≡ asked.body_of
      → other.encodes ≡ asked.encodes
      → let (passes, clients') = serve buckets (key r) now clients in
        let router = λ (a : Asked F R).
          new_playground_router mux random_id split_host client_ip serve_file
            (rate_limit_middleware buckets key now)
            (endpoints s a) in
        Replies
          (router asked r (fresh clients log))
          r
          (request_id random_id r)
          (key_or_default split_host client_ip r)
          (secure_headers (request_id random_id r))
          passes
          clients'
          (limited_reply asked.encodes passes (translate_handler s (asked.body_of r)))
          log
        × (router other ≡ router asked)
  unfolding new_playground_router playground_routes endpoints secure stack
  playground_serves s asked other r clients log d m p same encodes = (
    routed-Replies buckets key (key_or_default split_host client_ip) now random_id asked.encodes mux
        secured
        (playground_routes serve_file (rate_limit_middleware buckets key now) (endpoints s asked))
        (endpoints s asked).translate (translate_handler s (asked.body_of r)) r "/v1/translate"
        clients log d m p refl (λ w. refl)
        (record {
          sent = refl;
          body = refl;
          named = refl;
          retry = refl;
          logs = refl;
          shared = refl;
        }),
    rw (same, encodes) refl,
  )
