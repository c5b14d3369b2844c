-- ===== src/Api/Middleware/Stack.antt =====
-- What the middlewares around the router make of a handler.
use Prim.Native.String.{len}
use opensearch_query_gateway.Shared.{
  ℕ, ◌≤◌, String, false, [], ◌∷◌, ◌++◌, ◌≡◌, refl, ap, is_empty, ltb, Bool-cases, inl, inr, arith,
  append_assoc,
}
use opensearch_query_gateway.Api.Middleware.{
  Request, LogLine, served, panicked, Service, Result, returned, panics, Handler, set_header,
  first_status, add_line, header_or_empty, request_id, logged, recovered, stack, write_error,
}

request_id-bounds :
    (random_id : String) (r : Request)
    → is_empty random_id ≡ false
    → len random_id ≤ 64
    → (is_empty (request_id random_id r) ≡ false) × (len (request_id random_id r) ≤ 64)
unfolding request_id
request_id-bounds random_id r e l = elim (Bool-cases (is_empty (r.header "X-Request-ID"))) [
  | inl p ↦ rw p (e, l)
  | inr p ↦ elim (Bool-cases (ltb 64 (len (r.header "X-Request-ID")))) [
    | inl q ↦ rw (p, q) (e, l)
    | inr q ↦ rw (p, q) (p, ground arith)
  ]
]

-- What the handler finds: the id of the request is set, and the recorder says 200.
abbrev pub entered : {X P : Type 0} → String → Service X P → Service X P
entered id w = record (set_header "X-Request-ID" id w) { recorded = 200 }

abbrev pub line_of : {X P : Type 0} → (Request → String) → Request → ℕ → Service X P → LogLine
line_of client_ip r status w =
    served r.method r.path status (client_ip r) (header_or_empty (w.headers "X-Request-ID"))

-- The answer to a handler that ended as the first result says.
abbrev pub Answered :
    {X P : Type 0} → (Request → String) → Request → Result X P → Result X P → Type 0
Answered client_ip r (returned w) s = s ≡ returned (add_line (line_of client_ip r w.recorded w) w)
Answered {X} {P} client_ip r (panics v w) s =
    (w' : Service X P) × (s ≡ returned w')
    × (w'.sent ≡ first_status 500 w.sent)
    × (w'.log ≡ w.log ++ panicked v r.method r.path ∷ line_of client_ip r 500 w ∷ [])

answered :
    {X P : Type 0} (client_ip : Request → String) (r : Request) (h : Result X P)
    → Answered client_ip r h (logged client_ip r (recovered r h))
unfolding logged recovered write_error
answered client_ip r (returned w) = refl
answered client_ip r (panics v w) = (
  _,
  refl,
  refl,
  append_assoc w.log (panicked v r.method r.path ∷ []) (line_of client_ip r 500 w ∷ []),
)

pub stack-Answered :
    {X P : Type 0} (random_id : String) (client_ip : Request → String) (handler : Handler X P)
    (r : Request) (w : Service X P)
    → Answered client_ip r
        (handler r (entered (request_id random_id r) w))
        (stack random_id client_ip handler r w)
unfolding stack
stack-Answered random_id client_ip handler r w =
    answered client_ip r (handler r (entered (request_id random_id r) w))

pub stack_cong :
    {X P : Type 0} (random_id : String) (client_ip : Request → String) (h h' : Handler X P)
    (r : Request) (w : Service X P)
    → ((v : Service X P) → h r v ≡ h' r v)
    → stack random_id client_ip h r w ≡ stack random_id client_ip h' r w
unfolding stack
stack_cong {X} {P} random_id client_ip h h' r w e =
    ap (λ (s : Result X P). logged client_ip r (recovered r s))
      (e (entered (request_id random_id r) w))

-- Every request is answered, whatever the handler behind the middlewares does, and its id, which the
-- handler finds in the response's headers, is not empty and has at most 64 bytes, if that holds of
-- the random id. A handler that returns keeps what it did, and one line is logged behind it, with
-- the status that it wrote last, or 200. A handler that panics has sent its own status or else 500
-- is sent, and its panic is logged before the line of the request, which has status 500.
pub stack_answers :
    {X P : Type 0} (random_id : String) (client_ip : Request → String) (handler : Handler X P)
    (r : Request) (w : Service X P)
    → is_empty random_id ≡ false
    → len random_id ≤ 64
    → let id = request_id random_id r in
      (is_empty id ≡ false)
      × (len id ≤ 64)
      × Answered client_ip r (handler r (entered id w)) (stack random_id client_ip handler r w)
stack_answers random_id client_ip handler r w e l =
    let (named, short) = request_id-bounds random_id r e l in
    (named, short, stack-Answered random_id client_ip handler r w)
