-- ===== src/Api/Middleware.antt =====
-- internal/api/middleware.go, besides the rate limiter: `Chain`, the three middlewares around the
-- router, and `ClientIP`. A handler goes from the state of a request's service to a new one, or
-- panics. `net.SplitHostPort` and the random request id are parameters; the time that a request
-- took is left out of its log line.
pub mod Stack
use Prim.Native.String.{len}
use opensearch_query_gateway.Shared.{
  ℕ, String, Bool, true, false, ◌||◌, Option, none, some, List, [], ◌∷◌, ◌++◌, if◌then◌else◌,
  is_empty, str_eq, ltb, cut, trim_space,
}
use opensearch_query_gateway.Api.Errors.{ErrorResponse, text}

pub record Request : Type 0 where
  pub method : String
  pub path : String
  pub remote_addr : String
  -- `Header.Get`, "" where there is no such header.
  pub header : String → String

pub data LogLine : Type 0 where
  served : (method path : String) (status : ℕ) (client request_id : String) → LogLine
  panicked : (value method path : String) → LogLine

-- What a handler writes as JSON: an error, or a value of its own.
pub data Content (P : Type 0) : Type 0 where
  error : ErrorResponse → Content P
  json : P → Content P

-- The response's headers, the status that was sent first, the body, the status that the recorder
-- of the log keeps, the log, and what the requests share.
pub record Service (X P : Type 0) : Type 0 where
  pub headers : String → Option String
  pub sent : Option ℕ
  pub body : List (Content P)
  pub recorded : ℕ
  pub log : List LogLine
  pub shared : X

pub data Result (X P : Type 0) : Type 0 where
  returned : Service X P → Result X P
  panics : (value : String) → Service X P → Result X P

abbrev pub Handler : Type 0 → Type 0 → Type 0
Handler X P = Request → Service X P → Result X P

abbrev pub Middleware : Type 0 → Type 0 → Type 0
Middleware X P = Handler X P → Handler X P

-- The first of the list is the outermost.
unfoldable pub chain : {X P : Type 0} → Handler X P → List (Middleware X P) → Handler X P
chain h [] = h
chain h (m ∷ ms) = m (chain h ms)

-- `Header().Set`.
abbrev pub set_header : {X P : Type 0} → String → String → Service X P → Service X P
set_header k v w = record w {
  headers = λ other. if str_eq k other then some v else w.headers other;
}

abbrev pub first_status : ℕ → Option ℕ → Option ℕ
first_status code none = some code
first_status code (some sent) = some sent

-- `WriteHeader`: a second status is not sent, but the recorder keeps it.
abbrev pub write_header : {X P : Type 0} → ℕ → Service X P → Service X P
write_header code w = record w { sent = first_status code w.sent; recorded = code }

-- What the encoder writes: nothing of a value that it fails on. An error, which is made of texts,
-- never fails.
abbrev pub encoded : {P : Type 0} → (encodes : P → Bool) → Content P → List (Content P)
encoded encodes (error e) = error e ∷ []
encoded encodes (json p) = if encodes p then json p ∷ [] else []

-- `writeJSON` and `writeError` of internal/api/server.go, with the values of the handlers that the
-- encoder does not fail on: the source drops the encoder's error when the status is sent already.
unfoldable pub write_json :
    {X P : Type 0} → (encodes : P → Bool) → ℕ → Content P → Service X P → Service X P
write_json encodes status v w =
    let sent = write_header status (set_header "Content-Type" "application/json" w) in
    record sent { body = w.body ++ encoded encodes v }

unfoldable pub write_error : {X P : Type 0} → ErrorResponse → Service X P → Service X P
unfolding write_json
write_error e w = write_json (λ p. true) e.status (error e) w

abbrev pub add_line : {X P : Type 0} → LogLine → Service X P → Service X P
add_line line w = record w { log = w.log ++ line ∷ [] }

abbrev pub header_or_empty : Option String → String
header_or_empty none = ""
header_or_empty (some s) = s

unfoldable pub request_id : (random_id : String) → Request → String
request_id random_id r =
    let id = r.header "X-Request-ID" in if is_empty id || ltb 64 (len id) then random_id else id

unfoldable pub request_id_middleware : {X P : Type 0} → (random_id : String) → Middleware X P
unfolding request_id
request_id_middleware random_id next r w =
    next r (set_header "X-Request-ID" (request_id random_id r) w)

logged : {X P : Type 0} → (Request → String) → Request → Result X P → Result X P
logged client_ip r (panics v w) = panics v w
logged client_ip r (returned w) = returned (
    add_line
      (served r.method r.path w.recorded (client_ip r) (header_or_empty (w.headers "X-Request-ID")))
      w)

unfoldable pub logging_middleware : {X P : Type 0} → (Request → String) → Middleware X P
unfolding logged
logging_middleware client_ip next r w = logged client_ip r (next r (record w { recorded = 200 }))

recovered : {X P : Type 0} → Request → Result X P → Result X P
unfolding write_error
recovered r (returned w) = returned w
recovered r (panics v w) = returned (
    write_error
      (record { status = 500; code = "internal_error"; message = text "internal server error" })
      (add_line (panicked v r.method r.path) w))

unfoldable pub recover_middleware : {X P : Type 0} → Middleware X P
unfolding recovered
recover_middleware next r w = recovered r (next r w)

-- The middlewares of `NewRouter`, in its order.
unfoldable pub stack : {X P : Type 0} → String → (Request → String) → Handler X P → Handler X P
unfolding request_id_middleware logging_middleware recover_middleware chain
stack random_id client_ip mux =
    chain mux
      (request_id_middleware random_id ∷ logging_middleware client_ip ∷ recover_middleware ∷ [])

abbrev host_or : String → Option String → String
host_or addr none = addr
host_or addr (some host) = host

abbrev non_empty : String → String → String
non_empty s next = if is_empty s then next else s

-- The address that the proxy gives, if there is one.
unfoldable pub proxy_ip : Request → String
proxy_ip r =
    non_empty (trim_space (cut b',' (r.header "X-Forwarded-For")).0)
      (trim_space (r.header "X-Real-IP"))

unfoldable pub client_ip : (String → Option String) → Bool → Request → String
unfolding proxy_ip
client_ip split_host trust_proxy r =
    let direct = host_or r.remote_addr (split_host r.remote_addr) in
    if trust_proxy then non_empty (proxy_ip r) direct else direct
