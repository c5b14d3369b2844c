-- ===== src/Api/Errors/Statuses.antt =====
-- The status of an error response.
use opensearch_query_gateway.Shared.{ℕ, ◌≤◌, ◌<◌, ◌≡◌, ◌≢◌, refl, ◌⊎◌, ◌↔◌, arith}
use opensearch_query_gateway.Api.Errors.{
  Failure, api, opensearch, deadline_exceeded, other, write_err,
}

-- The error of a handler has an error status of HTTP.
abbrev pub IsErrorStatus : ℕ → Type 0
IsErrorStatus status = (400 ≤ status) × (status < 600)

-- The statuses that a failure may lead to; those of the cluster are passed on only as 404 and 400.
abbrev pub Allowed : Failure → ℕ → Type 0
Allowed (api e) status = status ≡ e.status
Allowed (opensearch e _) status =
    ((status ≡ 404) ↔ (e.status ≡ 404))
    × ((status ≡ 400) ↔ ((400 ≤ e.status) × (e.status < 500) × (e.status ≢ 404)))
    × ((status ≡ 404) ⊎ (status ≡ 400) ⊎ (status ≡ 502))
Allowed (deadline_exceeded _) status = status ≡ 504
Allowed (other _) status = status ≡ 502

-- `writeErr` answers an `apiError` with its own status. An error of the cluster becomes 404
-- exactly if it was a 404, 400 exactly if it was another status from 400 to 499, and otherwise 502;
-- an exceeded deadline becomes 504, and anything else 502.
pub write_err_status : (f : Failure) → Allowed f (write_err f).status
unfolding write_err
write_err_status (api e) = refl
write_err_status (opensearch e s) = (
  (λ h. ground arith, λ h. ground arith),
  (λ h. (ground arith, ground arith, λ k. ground arith), λ h. ground arith),
  ground arith,
)
write_err_status (deadline_exceeded s) = refl
write_err_status (other s) = refl
