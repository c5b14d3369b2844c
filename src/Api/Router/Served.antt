-- ===== src/Api/Router/Served.antt =====
-- A request to the service, from the multiplexer to the handler behind the rate limiter.
use opensearch_query_gateway.Shared.{
  String, Bool, Option, none, some, List, [], ◌∷◌, ◌≡◌, refl, if◌then◌else◌, str_eq, ◌<>◌,
}
use opensearch_query_gateway.Shared.Int.{ℤ}
use opensearch_query_gateway.Api.Translate.{Server}
use opensearch_query_gateway.Api.Handlers.{Response, search_handler, translate_handler}
use opensearch_query_gateway.Api.Middleware.{
  Request, LogLine, Service, returned, Handler, chain, request_id, stack,
}
use opensearch_query_gateway.Api.Middleware.Stack.{entered, stack_cong}
use opensearch_query_gateway.Api.Endpoints.{Payload, Asked, endpoints, write_response}
use opensearch_query_gateway.Api.RateLimit.{Buckets, Clients, serve}
use opensearch_query_gateway.Api.RateLimit.Limited.{rate_limit_middleware}
use opensearch_query_gateway.Api.Router.{routes, key_or_default, new_router}
use opensearch_query_gateway.Api.Router.Replies.{
  fresh, limited_reply, Begins, Replies, limited-Replies,
}

-- The handler of a pattern.
abbrev pub route_at : {A : Type 0} → String → List (String × A) → Option A
route_at pattern [] = none
route_at pattern ((p, a) ∷ rest) = if str_eq p pattern then some a else route_at pattern rest

-- What net/http documents of these routes, whose patterns for POST have no wildcard: a POST request,
-- its path being written without escapes, is served by the handler of the pattern that is its method
-- and path, if one is registered.
pub record Dispatches {X P : Type 0} (mux : List (String × Handler X P) → Handler X P)
    (rs : List (String × Handler X P)) : Type 0 where
  pub posted :
      (path : String) (h : Handler X P) (r : Request) (w : Service X P)
      → r.method ≡ "POST"
      → r.path ≡ path
      → route_at ("POST" <> (" " <> path)) rs ≡ some h
      → mux rs r w ≡ h r w

-- The routes whose answer is a search or a translation.
pub data Entry : Type 0 where
  search : Entry
  translate : Entry

abbrev pub path_of : Entry → String
path_of search = "/v1/search"
path_of translate = "/v1/translate"

abbrev pub response_of : {F R : Type 0} → Server F → Asked F R → Request → Entry → Response F R
response_of s asked r search = search_handler s asked.search (asked.body_of r)
response_of s asked r translate = translate_handler s (asked.body_of r)

-- The headers that a handler finds.
abbrev pub own_headers : String → String → Option String
own_headers id k = if str_eq "X-Request-ID" k then some id else none

module _ {B F R : Type 0} (buckets : Buckets B) (key client_ip : Request → String) (now : ℤ)
    (random_id : String) (encodes : Payload F R → Bool)
    (mux : List (String × Handler (Clients B) (Payload F R))
      → Handler (Clients B) (Payload F R)) where
  -- A registered handler behind the limiter and another middleware.
  pub routed-Replies :
      (inner : Service (Clients B) (Payload F R) → Service (Clients B) (Payload F R))
      (rs : List (String × Handler (Clients B) (Payload F R)))
      (h : Handler (Clients B) (Payload F R)) (resp : Response F R) (r : Request) (path : String)
      (clients : Clients B) (log : List LogLine)
      → Dispatches mux rs
      → r.method ≡ "POST"
      → r.path ≡ path
      → route_at ("POST" <> (" " <> path)) rs
        ≡ some (chain h (rate_limit_middleware buckets key now ∷ []))
      → ((w : Service (Clients B) (Payload F R)) → h r w ≡ returned (write_response encodes resp w))
      → let id = request_id random_id r in
        let v = inner (entered id (fresh clients log)) in
        Begins v id clients log
        → let (passes, clients') = serve buckets (key r) now clients in
          Replies
            (stack random_id client_ip (λ r w. mux rs r (inner w)) r (fresh clients log))
            r
            id
            (client_ip r)
            v.headers
            passes
            clients'
            (limited_reply encodes passes resp)
            log
  unfolding chain
  routed-Replies inner rs h resp r path clients log d m p found writes b =
      let limited = rate_limit_middleware buckets key now h in
      let same =
        stack_cong random_id client_ip (λ r w. mux rs r (inner w)) (λ r w. limited r (inner w)) r
          (fresh clients log) (λ w. d.posted path limited r (inner w) m p found) in
      rw same (
        limited-Replies buckets key client_ip now random_id encodes inner h resp r clients log
          writes b)

module _ {B F R : Type 0} (buckets : Buckets B) (key : Request → String) (now : ℤ)
    (random_id : String) (split_host : String → Option String)
    (client_ip : Option (Request → String))
    (mux : List (String × Handler (Clients B) (Payload F R))
      → Handler (Clients B) (Payload F R)) where
  -- A POST request to the search or the translation of the service is answered, with its id, in one
  -- line of the log and with one status and its body: those that the handler makes of the request
  -- if the limiter's bucket of the client lets it pass, the body being empty if the encoder of JSON
  -- fails on the answer; and else 429 with `rate_limited` and the header Retry-After, whatever the
  -- request asks. No other header than these, the type of the content and the id is set. The
  -- limiter's maps are those that it leaves. The multiplexer is assumed to find the handler of a
  -- literal pattern for POST among the routes of the service.
  pub router_serves :
      (s : Server F) (asked : Asked F R) (e : Entry) (r : Request) (clients : Clients B)
      (log : List LogLine)
      → Dispatches mux (routes (rate_limit_middleware buckets key now) (endpoints s asked))
      → r.method ≡ "POST"
      → r.path ≡ path_of e
      → let (passes, clients') = serve buckets (key r) now clients in
        Replies
          (new_router mux random_id split_host client_ip
            (rate_limit_middleware buckets key now)
            (endpoints s asked)
            r
            (fresh clients log))
          r
          (request_id random_id r)
          (key_or_default split_host client_ip r)
          (own_headers (request_id random_id r))
          passes
          clients'
          (limited_reply asked.encodes passes (response_of s asked r e))
          log
  unfolding new_router routes endpoints
  router_serves s asked search r clients log d m p =
      routed-Replies buckets key (key_or_default split_host client_ip) now random_id asked.encodes
        mux (λ w. w) (routes (rate_limit_middleware buckets key now) (endpoints s asked))
        (endpoints s asked).search (response_of s asked r search) r "/v1/search" clients log d m p
        refl (λ w. refl)
        (record {
          sent = refl;
          body = refl;
          named = refl;
          retry = refl;
          logs = refl;
          shared = refl;
        })
  router_serves s asked translate r clients log d m p =
      routed-Replies buckets key (key_or_default split_host client_ip) now random_id asked.encodes
        mux (λ w. w) (routes (rate_limit_middleware buckets key now) (endpoints s asked))
        (endpoints s asked).translate (response_of s asked r translate) r "/v1/translate" clients
        log d m p refl (λ w. refl)
        (record {
          sent = refl;
          body = refl;
          named = refl;
          retry = refl;
          logs = refl;
          shared = refl;
        })
