-- ===== src/Api/RateLimit/Limited.antt =====
-- internal/api/middleware.go: `RateLimiter.Middleware` around a handler. The limiter's maps are what
-- the requests share.
use opensearch_query_gateway.Shared.{String, if◌then◌else◌}
use opensearch_query_gateway.Shared.Int.{ℤ}
use opensearch_query_gateway.Api.Errors.{ErrorResponse, text}
use opensearch_query_gateway.Api.Middleware.{Request, returned, Middleware, set_header, write_error}
use opensearch_query_gateway.Api.RateLimit.{Buckets, Clients, serve}

abbrev pub rate_limited : ErrorResponse
rate_limited = record { status = 429; code = "rate_limited"; message = text "rate limit exceeded" }

-- At the time `now`, with `key` for the client of a request.
unfoldable pub rate_limit_middleware :
    {B P : Type 0} → Buckets B → (Request → String) → ℤ → Middleware (Clients B) P
unfolding serve write_error
rate_limit_middleware buckets key now next r w =
    let (passes, clients) = serve buckets (key r) now w.shared in
    let w' = record w { shared = clients } in
    if passes
    then next r w'
    else returned (write_error rate_limited (set_header "Retry-After" "1" w'))
