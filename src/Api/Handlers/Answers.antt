-- ===== src/Api/Handlers/Answers.antt =====
-- When a handler answers with a result.
use opensearch_query_gateway.Shared.{
  Bool, true, false, Option, none, some, ◌≡◌, refl, ap, ◌∙◌, ◌↔◌, if◌then◌else◌,
}
use opensearch_query_gateway.Shared.Fallible.{Fallible, ok, err, >>=-ok_inv, ok-injective}
use opensearch_query_gateway.Api.Errors.{ApiError, Failure}
use opensearch_query_gateway.Api.Page.{SearchRequest}
use opensearch_query_gateway.Api.Translate.{Translation, Server, translate}
use opensearch_query_gateway.Api.Translate.Checked.{IsSound, translate-IsSound}
use opensearch_query_gateway.Api.Handlers.{
  Body, decoded, max_bytes_error, undecodable, decode, Response, failed, translated, found,
  explained, or_failure, respond, Backend, search_handler,
}

-- The result in a response of the search handler, and the translation that goes with it where the
-- client asked for one.
abbrev pub result_of : {F R : Type 0} → Response F R → Option R
result_of (failed e) = none
result_of (translated tr) = none
result_of (found r) = some r
result_of (explained tr r) = some r

respond-some :
    {F R : Type 0} (m : Fallible Failure (Response F R)) (r : R)
    → result_of (respond m) ≡ some r
    → (a : Response F R) × (m ≡ ok a) × (result_of a ≡ some r)
unfolding respond
respond-some (ok a) r h = (a, refl, h)
respond-some (err e) r h = cc

or_failure-ok : {A : Type 0} (m : Fallible ApiError A) {a : A} → or_failure m ≡ ok a → m ≡ ok a
or_failure-ok (ok a) h = cc
or_failure-ok (err e) h = cc

decode-ok : (b : Body) {req : SearchRequest} → decode b ≡ ok req → b ≡ decoded req
unfolding decode
decode-ok (decoded req) h = cc
decode-ok (max_bytes_error e) h = cc
decode-ok (undecodable e) h = cc

result_of-if :
    {F R : Type 0} (b : Bool) (tr : Translation F) (r : R)
    → result_of (if b then explained tr r else found r) ≡ some r
result_of-if true tr r = refl
result_of-if false tr r = refl

result-if :
    {F R : Type 0} (b : Bool) (tr : Translation F) (x r : R)
    → result_of (if b then explained tr x else found x) ≡ some r
    → x ≡ r
result-if true tr x r h = cc
result-if false tr x r h = cc

module _ {F R : Type 0} (s : Server F) (ask : Backend F R) (body : Body) where
  -- The body holds a request that `translate` accepts, and the cluster answers its DSL with `r`.
  pub record Answered (r : R) : Type 0 where
    pub req : SearchRequest
    pub request : body ≡ decoded req
    pub translation : Translation F
    pub translates : translate s req ≡ ok translation
    pub sound : IsSound s req translation
    pub result : ask translation.index translation.dsl ≡ ok r
    pub response :
        search_handler s ask body ≡ (if req.explain then explained translation r else found r)

  answered :
      (req : SearchRequest) (tr : Translation F) (r : R)
      → body ≡ decoded req
      → translate s req ≡ ok tr
      → ask tr.index tr.dsl ≡ ok r
      → Answered r
  unfolding search_handler
  answered req tr r b t a = record {
    req = req;
    request = b;
    translation = tr;
    translates = t;
    sound = translate-IsSound s req tr t;
    result = a;
    response = rw (b, t, a);
  }

  -- The search handler answers with a result exactly when the body holds a request whose
  -- translation succeeds (with all that its checks guarantee) and the cluster answers this
  -- translation's DSL, on its index, with that result; the translation is in the response exactly
  -- if the request asks to explain.
  pub search_handler_answers :
      (r : R) → (result_of (search_handler s ask body) ≡ some r) ↔ Answered r
  unfolding search_handler
  search_handler_answers r = (to, from)
    where
      to : result_of (search_handler s ask body) ≡ some r → Answered r
      to h =
          let (resp, m, has) = respond-some _ r h in
          let (req, d, h₁) = >>=-ok_inv (or_failure (decode body)) _ m in
          let (tr, t, h₂) = >>=-ok_inv (or_failure (translate s req)) _ h₁ in
          let (x, a, h₃) = >>=-ok_inv (ask tr.index tr.dsl) _ h₂ in
          let same = result-if req.explain tr x r (ap result_of (ok-injective h₃) ∙ has) in
          answered req tr r (decode-ok body (or_failure-ok (decode body) d))
            (or_failure-ok (translate s req) t) (a ∙ ap (λ y. ok y) same)

      from : Answered r → result_of (search_handler s ask body) ≡ some r
      from a = ap result_of a.response ∙ result_of-if a.req.explain a.translation r
