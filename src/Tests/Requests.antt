-- ===== src/Tests/Requests.antt =====
-- Requests, pages, errors and the rule engine.
use mathlib.Core.Path.{subst}
use mathlib.Core.List.{Mem, mem-cons_self}
use opensearch_query_gateway.Shared.{
  ℕ, String, Bool, true, false, none, some, str_eq, if◌then◌else◌, [], ◌∷◌, ◌≡◌, ◌↔◌, refl, arith,
  cut, trim_space,
}
use opensearch_query_gateway.Shared.Int.{pos, ◌≤ℤ◌, add_int}
use opensearch_query_gateway.Shared.Fallible.{ok}
use opensearch_query_gateway.Json.{Json, single, str}
use opensearch_query_gateway.Rules.{
  field_alias, known_field, valid_clause, rejection_reason, Interpreter, solution, exhausted,
  RejectionError, accepted, rejected, validate,
}
use opensearch_query_gateway.Rules.Verdicts.{Holds, Fails, validate_verdict}
use opensearch_query_gateway.Builder.{Page, build_expression, build_search}
use opensearch_query_gateway.Builder.Leaves.{leaves}
use opensearch_query_gateway.Builder.Search.{build_search-query}
use opensearch_query_gateway.Api.Errors
use opensearch_query_gateway.Api.Errors.{ApiError, ExecutorError, opensearch, write_err, sprintf}
use opensearch_query_gateway.Query.{
  Query, Value, walk_clauses, walk_expression, is_relative_time, duration_of,
}
use opensearch_query_gateway.Query.Parse
use opensearch_query_gateway.Config.{index_allowed}
use opensearch_query_gateway.Api.Errors.Statuses.{Allowed, write_err_status}
use opensearch_query_gateway.Api.Page.{SearchRequest, page, page_size, direction}
use opensearch_query_gateway.Api.Page.Bounds.{page_bounds, page_overflow}
use opensearch_query_gateway.Api.Translate.{Translation, translate, walk, visit, check_clause}
use opensearch_query_gateway.Api.Translate.Checked.{IsSound, translate-IsSound}
use opensearch_query_gateway.Api.Translate.Fields.{translate-leaves, IsAccepted, KeepsLast}
use opensearch_query_gateway.Api.Handlers.{Backend, decoded, search_handler}
use opensearch_query_gateway.Api.Handlers.Answers.{result_of, Answered, search_handler_answers}
use opensearch_query_gateway.Tests.Samples.{
  canonical, rules, limits, server, request, sample, floats, builder, build_run,
}

abbrev sample_page : Page
sample_page = record {
  size = pos 10;
  from = pos 0;
  sort = record { field = "views"; desc = true } ∷ [];
  track = true;
}

page_sample : page rules limits request ≡ ok sample_page
unfolding page add_int direction cut trim_space
page_sample = refl

page_bounds_example :
    (sample_page.size ≡ page_size limits request)
    × (sample_page.from ≡ request.from)
    × (pos 0 ≤ℤ sample_page.size)
    × (sample_page.size ≤ℤ limits.max_size)
    × (pos 0 ≤ℤ sample_page.from)
    × (pos 10 ≤ℤ limits.max_from)
page_bounds_example = page_bounds rules limits request sample_page page_sample (omega arith)

-- An offset whose sum with the size is 2 ^ 63.
abbrev far_request : SearchRequest
far_request = record request { from = pos 9223372036854775807; size = some (pos 1); sort = [] }

page_overflow_example :
    (p : Page) × (page rules limits far_request ≡ ok p)
    × (p.from ≡ pos 9223372036854775807)
    × (limits.max_from ≤ℤ pos 9223372036854775808)
page_overflow_example =
    page_overflow rules limits far_request 9223372036854775807 1 refl refl refl (omega arith)
      (omega arith) (omega arith, omega arith) (omega arith, omega arith) (omega arith)
      (omega arith)

-- What a run of `translate` unfolds.
unfoldable translate_run : Unit {0}
unfolding translate index_allowed page add_int direction cut trim_space Parse.parse walk_clauses
    walk_expression visit check_clause is_relative_time duration_of
translate_run = tt

-- An index that no client may search.
abbrev secret_request : SearchRequest
secret_request = record request { index = "secret" }

abbrev not_allowed_error : ApiError
not_allowed_error = record {
  status = 403;
  code = "index_not_allowed";
  msg = sprintf "index %q is not allowed" (Errors.str "secret" ∷ []);
}

-- The cluster refuses for lack of memory.
abbrev breaker : ExecutorError
breaker = record { status = 429; type = "circuit_breaking_exception"; reason = "too large" }

write_err_status_example :
    Allowed (opensearch breaker "too large") (write_err (opensearch breaker "too large")).status
write_err_status_example = write_err_status (opensearch breaker "too large")

-- Rules that allow no operation on the field `body`.
abbrev interp : Interpreter
interp (valid_clause f o v) = exhausted none none
interp (known_field f) = solution ""
interp (rejection_reason f o v) = solution "full text only"
interp (field_alias f) = exhausted none none

validate_verdict_example :
    let verdict = validate interp (λ op. op) "body" ">" "3" in
    ((verdict ≡ accepted) ↔ Holds (exhausted none none))
    × ((e : RejectionError)
        → verdict ≡ rejected e
        → Fails (exhausted none none) × ((e.field ≡ "body") × (e.op ≡ ">") × (e.value ≡ "3")))
validate_verdict_example = validate_verdict interp (λ op. op) "body" ">" "3"

-- What the clauses of the sample query become.
abbrev walked : Query
walked = (walk server sample).0

abbrev translation : Translation ℕ
translation = record {
  index = "documents";
  query = request.query;
  dsl = build_search floats builder walked sample_page;
  normalized = record { from = "tag"; to = "tags" } ∷ [];
}

translate_sample : translate server request ≡ ok translation
unfolding translate_run
translate_sample = refl

translate-IsSound_example : IsSound server request translation
translate-IsSound_example = translate-IsSound server request translation translate_sample

keeps_if :
    (b : Bool) (f g : String) (value : Value)
    → is_relative_time (record { field = f; value = value }) ≡ false
    → is_relative_time (record { field = g; value = value }) ≡ false
    → is_relative_time (record { field = if b then f else g; value = value }) ≡ false
keeps_if true f g value h k = h
keeps_if false f g value h k = k

canonical-keeps :
    (raw : String) (value : Value)
    → is_relative_time (record { field = canonical raw; value = value }) ≡ false
unfolding is_relative_time
canonical-keeps raw value = keeps_if (str_eq raw "tag") "tags" _ value refl (
    keeps_if (str_eq raw "views") "views" _ value refl
      (keeps_if (str_eq raw "status") "status" "other" value refl refl))

normalize_keeps : KeepsLast rules
normalize_keeps c field value r h =
    let same : canonical c.field ≡ field = cc in
    subst (λ f. is_relative_time (record { field = f; value = value }) ≡ false) same
      (canonical-keeps c.field value)

abbrev match_tags : Json ℕ
match_tags = single "match" (single "tags" (str "go"))

mem_sample : Mem match_tags (leaves (build_expression floats builder walked.root))
unfolding build_run leaves walk_clauses walk_expression visit check_clause
mem_sample = mem-cons_self

translate-leaves_example : ∥ IsAccepted rules match_tags ∥₁
translate-leaves_example =
    translate-leaves server request translation (build_expression floats builder walked.root)
      match_tags normalize_keeps translate_sample
      (build_search-query floats builder walked sample_page) mem_sample

-- A cluster that answers every search with the number 7.
abbrev seven : Backend ℕ ℕ
seven index dsl = ok 7

search_handler_answers_example :
    (result_of (search_handler server seven (decoded request)) ≡ some 7)
    ↔ Answered server seven (decoded request) 7
search_handler_answers_example = search_handler_answers server seven (decoded request) 7
