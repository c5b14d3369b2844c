-- ===== src/Api/Router.antt =====
-- internal/api/router.go: the routes of the service. The multiplexer of net/http is a function from
-- the patterns and their handlers to a handler.
pub mod Replies
pub mod Served
use opensearch_query_gateway.Shared.{String, false, Option, none, some, List, [], ◌∷◌}
use opensearch_query_gateway.Api.Endpoints.{Endpoints}
use opensearch_query_gateway.Api.Middleware.{Request, Handler, Middleware, chain, stack, client_ip}

unfoldable pub routes :
    {X P : Type 0} → Middleware X P → Endpoints X P → List (String × Handler X P)
unfolding chain
routes {X} {P} limiter s =
    let limited = λ (h : Handler X P). chain h (limiter ∷ []) in
    ("POST /v1/search", limited s.search)
    ∷ ("POST /v1/translate", limited s.translate)
    ∷ ("GET /v1/schema/introspect", limited s.introspect)
    ∷ ("POST /v1/schema/introspect", limited s.introspect)
    ∷ ("GET /v1/schema/prolog", limited s.prolog_facts)
    ∷ ("POST /v1/schema/prolog", limited s.prolog_facts)
    ∷ ("GET /healthz", s.healthz)
    ∷ ("GET /readyz", s.readyz)
    ∷ []

-- A nil `clientIP` stands for the address of the connection.
abbrev pub key_or_default : (String → Option String) → Option (Request → String) → Request → String
key_or_default split_host none = client_ip split_host false
key_or_default split_host (some key) = key

-- `NewRouter` with the multiplexer of net/http, a random id for the request, `net.SplitHostPort`,
-- and the limiter's middleware.
unfoldable pub new_router :
    {X P : Type 0}
    → (List (String × Handler X P) → Handler X P)
    → String
    → (String → Option String)
    → Option (Request → String)
    → Middleware X P
    → Endpoints X P
    → Handler X P
unfolding routes stack
new_router mux random_id split_host client_ip limiter s =
    stack random_id (key_or_default split_host client_ip) (mux (routes limiter s))
