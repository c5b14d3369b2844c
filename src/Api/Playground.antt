-- ===== src/Api/Playground.antt =====
-- internal/api/playground.go: the routes of the playground, which translates queries without a
-- cluster. `http.ServeFileFS` of the embedded files is a parameter. The routes of the map are in
-- the order of the source, since the multiplexer takes them in any order.
pub mod Served
use opensearch_query_gateway.Shared.{String, Option, List, [], ◌∷◌, ◌++◌, ◌<>◌}
use opensearch_query_gateway.Api.Endpoints.{Endpoints}
use opensearch_query_gateway.Api.Router.{key_or_default}
use opensearch_query_gateway.Api.Middleware.{
  Request, Service, Handler, Middleware, chain, set_header, request_id_middleware,
  logging_middleware, recover_middleware,
}

abbrev pub content_security_policy : String
content_security_policy =
    "default-src 'none'; script-src 'self'; style-src 'self'; connect-src 'self'; base-uri 'none'; frame-ancestors 'none'; form-action 'self'"

abbrev pub secured : {X P : Type 0} → Service X P → Service X P
secured w = set_header "X-Frame-Options" "DENY" (
    set_header "Referrer-Policy" "no-referrer" (
      set_header "X-Content-Type-Options" "nosniff"
        (set_header "Content-Security-Policy" content_security_policy w)))

unfoldable pub secure : {X P : Type 0} → Middleware X P
secure next r w = next r (secured w)

-- A file of the page, by its name below playground/.
unfoldable pub asset_handler : {X P : Type 0} → (String → Handler X P) → String → Handler X P
asset_handler serve_file asset r w =
    serve_file ("playground/" <> asset) r (set_header "Cache-Control" "no-cache" w)

unfoldable pub playground_routes :
    {X P : Type 0}
    → (String → Handler X P)
    → Middleware X P
    → Endpoints X P
    → List (String × Handler X P)
unfolding asset_handler chain
playground_routes serve_file limiter s =
    ("GET /{$}", asset_handler serve_file "index.html")
    ∷ ("GET /assets/playground.css", asset_handler serve_file "playground.css")
    ∷ ("GET /assets/playground.js", asset_handler serve_file "playground.js")
    ∷ ("POST /v1/translate", chain s.translate (limiter ∷ []))
    ∷ ("GET /healthz", s.healthz)
    ∷ ("GET /readyz", s.healthz)
    ∷ []

unfoldable pub new_playground_router :
    {X P : Type 0}
    → (List (String × Handler X P) → Handler X P)
    → String
    → (String → Option String)
    → Option (Request → String)
    → (String → Handler X P)
    → Middleware X P
    → Endpoints X P
    → Handler X P
unfolding playground_routes secure chain request_id_middleware logging_middleware recover_middleware
new_playground_router mux random_id split_host client_ip serve_file limiter s =
    chain (mux (playground_routes serve_file limiter s)) (
      request_id_middleware random_id
      ∷ logging_middleware (key_or_default split_host client_ip)
      ∷ recover_middleware
      ∷ secure
      ∷ [])
