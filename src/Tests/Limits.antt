-- ===== src/Tests/Limits.antt =====
-- The clients of the rate limiter.
use opensearch_query_gateway.Shared.{
  ℕ, zero, suc, String, Bool, true, false, none, some, ◌≡◌, ◌≢◌, refl, is_some,
}
use opensearch_query_gateway.Shared.Int.{pos}
use opensearch_query_gateway.Api.RateLimit.{
  Buckets, Clients, no_clients, serve, cleanup, request, tick, start, next,
}
use opensearch_query_gateway.Api.RateLimit.Invariant.{Reachable-HasSameKeys, serve_buckets}

abbrev take_token : ℕ → Bool × ℕ
take_token zero = (false, 0)
take_token (suc n) = (true, n)

-- Buckets of two tokens that are never filled again.
abbrev two_tokens : Buckets ℕ
two_tokens = record { fresh = 2; allow = λ now. take_token }

abbrev one_served : Clients ℕ
one_served = (serve two_tokens "10.0.0.1" (pos 5) no_clients).1

Reachable-HasSameKeys_example :
    is_some ((cleanup (pos 9) one_served).limiters "10.0.0.1")
    ≡ is_some ((cleanup (pos 9) one_served).seen "10.0.0.1")
Reachable-HasSameKeys_example =
    Reachable-HasSameKeys two_tokens (cleanup (pos 9) one_served)
      (next (next start (request "10.0.0.1" (pos 5) no_clients)) (tick (pos 9) one_served))
      "10.0.0.1"

serve_buckets_example :
    (◌≢◌ {A = String} "10.0.0.2" "10.0.0.1" → one_served.limiters "10.0.0.2" ≡ none)
    × ((cleanup (pos 4) one_served).limiters "10.0.0.1" ≡ some 1)
serve_buckets_example =
    serve_buckets two_tokens "10.0.0.1" "10.0.0.2" (pos 5) (pos 4) no_clients refl
