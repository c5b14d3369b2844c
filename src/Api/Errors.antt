-- ===== src/Api/Errors.antt =====
-- internal/api/server.go and internal/executor/client.go: the errors of a request and the response
-- that `writeErr` makes of them. A text that `fmt.Sprintf` makes is kept as its format and its
-- arguments.
pub mod Statuses
use opensearch_query_gateway.Shared.{
  ℕ, String, Bool, ◌&&◌, List, [], ◌∷◌, ◌==◌, leb, ltb, if◌then◌else◌, is_empty, ◌<>◌, not,
}
use opensearch_query_gateway.Shared.Int.{ℤ}
use opensearch_query_gateway.Rules.{RejectionError}

pub data Arg : Type 0 where
  str : String → Arg
  int : ℤ → Arg

pub data Message : Type 0 where
  text : String → Message
  sprintf : (format : String) (args : List Arg) → Message
  joined : String → Message → Message
  rejection : RejectionError → Message

-- `apiError`.
pub record ApiError : Type 0 where
  pub status : ℕ
  pub code : String
  pub msg : Message

unfoldable pub bad_request : String → Message → ApiError
bad_request code msg = record { status = 400; code = code; msg = msg }

-- `executor.Error`.
pub record ExecutorError : Type 0 where
  pub status : ℕ
  pub type : String
  pub reason : String

-- A Go `error` by what `errors.As` and `errors.Is` find in it, in the order of `writeErr`.
pub data Failure : Type 0 where
  api : ApiError → Failure
  opensearch : ExecutorError → (error : String) → Failure
  deadline_exceeded : (error : String) → Failure
  other : (error : String) → Failure

-- The status and the body of an error response.
pub record ErrorResponse : Type 0 where
  pub status : ℕ
  pub code : String
  pub message : Message

unfoldable pub opensearch_status : ℕ → ℕ × String
opensearch_status status =
    if status == 404
    then (404, "index_not_found")
    else if leb 400 status && ltb status 500
    then (400, "opensearch_rejected")
    else (502, "opensearch_error")

unfoldable pub write_err : Failure → ErrorResponse
unfolding opensearch_status
write_err (api e) = record { status = e.status; code = e.code; message = e.msg }
write_err (opensearch e error) =
    let (status, code) = opensearch_status e.status in
    record { status = status; code = code; message = text error }
write_err (deadline_exceeded error) = record {
  status = 504;
  code = "timeout";
  message = text error;
}
write_err (other error) = record { status = 502; code = "upstream_error"; message = text error }
