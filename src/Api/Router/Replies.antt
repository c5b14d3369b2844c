-- ===== src/Api/Router/Replies.antt =====
-- What a handler behind the rate limiter and the router's middlewares replies.
use mathlib.Core.Path.{subst}
use opensearch_query_gateway.Shared.{
  ℕ, String, Bool, true, false, Option, none, some, List, [], ◌∷◌, ◌++◌, ◌≡◌, refl, ap, ◌∙◌, str_eq,
  Bool-cases, inl, inr,
}
use opensearch_query_gateway.Shared.Int.{ℤ}
use opensearch_query_gateway.Api.Handlers
use opensearch_query_gateway.Api.Handlers.{Response, translated, found, explained}
use opensearch_query_gateway.Api.Middleware.{
  Request, LogLine, served, Content, error, json, Service, Result, returned, Handler, set_header,
  add_line, write_header, write_json, write_error, request_id, stack,
}
use opensearch_query_gateway.Api.Middleware.Stack.{entered, line_of, Answered, stack-Answered}
use opensearch_query_gateway.Api.Endpoints.{
  Payload, translation, result, explanation, write_response,
}
use opensearch_query_gateway.Api.RateLimit.{Buckets, Clients, serve}
use opensearch_query_gateway.Api.RateLimit.Limited.{rate_limited, rate_limit_middleware}

-- The service that a request finds.
abbrev pub fresh : {X P : Type 0} → X → List LogLine → Service X P
fresh x log = record {
  headers = λ k. none;
  sent = none;
  body = [];
  recorded = 0;
  log = log;
  shared = x;
}

-- A body with a value, which is empty if the value has no JSON.
abbrev pub body_with : {P : Type 0} → P → Bool → List (Content P)
body_with p true = json p ∷ []
body_with p false = []

-- The status and the body of a response.
abbrev pub reply_of :
    {F R : Type 0} → (Payload F R → Bool) → Response F R → ℕ × List (Content (Payload F R))
reply_of encodes (Handlers.failed e) = (e.status, error e ∷ [])
reply_of encodes (translated tr) = (200, body_with (translation tr) (encodes (translation tr)))
reply_of encodes (found r) = (200, body_with (result r) (encodes (result r)))
reply_of encodes (explained tr r) = (200, body_with (explanation tr r) (encodes (explanation tr r)))

-- The reply to a request that the limiter lets pass, or does not.
abbrev pub limited_reply :
    {F R : Type 0} → (Payload F R → Bool) → Bool → Response F R → ℕ × List (Content (Payload F R))
limited_reply encodes true resp = reply_of encodes resp
limited_reply encodes false resp = (429, error rate_limited ∷ [])

abbrev pub retry_after : Bool → Option String
retry_after true = none
retry_after false = some "1"

-- One status, the body, the id of the request and the headers `before` that the handler found,
-- one line in the log, and the limiter's maps behind the request.
pub record Replies {X P : Type 0} (s : Result X P) (r : Request) (id ip : String)
    (before : String → Option String) (passes : Bool) (shared : X) (reply : ℕ × List (Content P))
    (log : List LogLine) : Type 0 where
  pub after : Service X P
  pub returns : s ≡ returned after
  pub sent : after.sent ≡ some reply.0
  pub body : after.body ≡ reply.1
  pub content_type : after.headers "Content-Type" ≡ some "application/json"
  pub named : after.headers "X-Request-ID" ≡ some id
  pub retry : after.headers "Retry-After" ≡ retry_after passes
  pub kept :
      (k : String)
      → str_eq "Content-Type" k ≡ false
      → str_eq "Retry-After" k ≡ false
      → after.headers k ≡ before k
  pub logs : after.log ≡ log ++ served r.method r.path reply.0 ip id ∷ []
  pub limiter : after.shared ≡ shared

-- What the handler of a request finds.
pub record Begins {X P : Type 0} (v : Service X P) (id : String) (x : X) (log : List LogLine)
    : Type 0 where
  pub sent : v.sent ≡ none
  pub body : v.body ≡ []
  pub named : v.headers "X-Request-ID" ≡ some id
  pub retry : v.headers "Retry-After" ≡ none
  pub logs : v.log ≡ log
  pub shared : v.shared ≡ x

-- The service with a status and a body of JSON.
abbrev written : {X P : Type 0} → ℕ × List (Content P) → Service X P → Service X P
written (status, body) w =
    let sent = write_header status (set_header "Content-Type" "application/json" w) in
    record sent { body = w.body ++ body }

write_json-written :
    {X P : Type 0} (encodes : P → Bool) (p : P) (w : Service X P)
    → write_json encodes 200 (json p) w ≡ written (200, body_with p (encodes p)) w
unfolding write_json
write_json-written encodes p w = elim (Bool-cases (encodes p)) [
  | inl e ↦ rw e refl
  | inr e ↦ rw e refl
]

write_response_lem :
    {X F R : Type 0} (encodes : Payload F R → Bool) (resp : Response F R)
    (w : Service X (Payload F R))
    → write_response encodes resp w ≡ written (reply_of encodes resp) w
unfolding write_response write_error write_json
write_response_lem encodes (Handlers.failed e) w = refl
write_response_lem encodes (translated tr) w = write_json-written encodes (translation tr) w
write_response_lem encodes (found r) w = write_json-written encodes (result r) w
write_response_lem encodes (explained tr r) w = write_json-written encodes (explanation tr r) w

-- The service that the limiter leaves.
abbrev let_through : {X P : Type 0} → Bool → X → Service X P → Service X P
let_through true x w = record w { shared = x }
let_through false x w = set_header "Retry-After" "1" (record w { shared = x })

written-Replies :
    {X P : Type 0} (s : Result X P) (r : Request) (client_ip : Request → String) (id : String)
    (v : Service X P) (passes : Bool) (x x' : X) (reply : ℕ × List (Content P)) (log : List LogLine)
    → Begins v id x log
    → let w = written reply (let_through passes x' v) in
      s ≡ returned (add_line (line_of client_ip r w.recorded w) w)
      → Replies s r id (client_ip r) v.headers passes x' reply log
written-Replies s r client_ip id v true x x' reply log b e = record {
  after = _;
  returns = e;
  sent = rw b.sent refl;
  body = rw b.body refl;
  content_type = refl;
  named = b.named;
  retry = b.retry;
  kept = λ k c a. rw c refl;
  logs = rw (b.logs, b.named) refl;
  limiter = refl;
}
written-Replies s r client_ip id v false x x' reply log b e = record {
  after = _;
  returns = e;
  sent = rw b.sent refl;
  body = rw b.body refl;
  content_type = refl;
  named = b.named;
  retry = refl;
  kept = λ k c a. rw (c, a) refl;
  logs = rw (b.logs, b.named) refl;
  limiter = refl;
}

module _ {B F R : Type 0} (buckets : Buckets B) (key client_ip : Request → String) (now : ℤ)
    (random_id : String) (encodes : Payload F R → Bool) where
  limited_writes :
      (h : Handler (Clients B) (Payload F R)) (resp : Response F R) (r : Request)
      (w : Service (Clients B) (Payload F R))
      → ((w : Service (Clients B) (Payload F R)) → h r w ≡ returned (write_response encodes resp w))
      → let (passes, clients) = serve buckets (key r) now w.shared in
        let reply = limited_reply encodes passes resp in
        rate_limit_middleware buckets key now h r w
        ≡ returned (written reply (let_through passes clients w))
  unfolding rate_limit_middleware write_error write_json
  limited_writes h resp r w writes = elim (Bool-cases (serve buckets (key r) now w.shared).0) [
    | inl e ↦ rw e (
        writes (record w { shared = (serve buckets (key r) now w.shared).1 })
        ∙ ap returned (
            write_response_lem encodes resp
              (record w { shared = (serve buckets (key r) now w.shared).1 })))
    | inr e ↦ rw e refl
  ]

  -- `h` behind the limiter and the middlewares, if it writes this response; `inner` is what
  -- another middleware makes of the service.
  pub limited-Replies :
      (inner : Service (Clients B) (Payload F R) → Service (Clients B) (Payload F R))
      (h : Handler (Clients B) (Payload F R)) (resp : Response F R) (r : Request)
      (clients : Clients B) (log : List LogLine)
      → ((w : Service (Clients B) (Payload F R)) → h r w ≡ returned (write_response encodes resp w))
      → let id = request_id random_id r in
        let v = inner (entered id (fresh clients log)) in
        Begins v id clients log
        → let (passes, clients') = serve buckets (key r) now clients in
          Replies
            (stack random_id client_ip
              (λ r w. rate_limit_middleware buckets key now h r (inner w))
              r
              (fresh clients log))
            r
            id
            (client_ip r)
            v.headers
            passes
            clients'
            (limited_reply encodes passes resp)
            log
  limited-Replies inner h resp r clients log writes b =
      let id = request_id random_id r in
      let v = inner (entered id (fresh clients log)) in
      let handler = λ (r : Request) (w : Service (Clients B) (Payload F R)).
        rate_limit_middleware buckets key now h r (inner w) in
      let s = stack random_id client_ip handler r (fresh clients log) in
      let (passes, clients') = serve buckets (key r) now v.shared in
      subst
        (λ (c : Clients B).
          let (passes, clients') = serve buckets (key r) now c in
          Replies s r id (client_ip r) v.headers passes clients' (limited_reply encodes passes resp)
            log)
        b.shared
        (written-Replies s r client_ip id v passes clients clients'
          (limited_reply encodes passes resp) log b
          (subst (λ (x : Result (Clients B) (Payload F R)). Answered client_ip r x s)
            (limited_writes h resp r v writes)
            (stack-Answered random_id client_ip handler r (fresh clients log))))
