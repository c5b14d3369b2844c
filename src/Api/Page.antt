-- ===== src/Api/Page.antt =====
-- internal/api/handler_search.go: `page`, which checks the pagination and the sort criteria.
pub mod Bounds
pub mod Refusals
use opensearch_query_gateway.Shared.{
  String, Bool, true, false, not, ◌||◌, Option, none, some, List, [], ◌∷◌, str_eq, if◌then◌else◌,
  is_empty, cut, trim_space, ◌≡◌, refl, codes, codes_eq, to_lower, map,
}
use opensearch_query_gateway.Shared.Int.{ℤ, pos, ltb_ℤ, add_int}
use opensearch_query_gateway.Shared.Fallible.{Fallible, ok, err, ◌>>=◌}
use opensearch_query_gateway.Config.{SearchConfig}
use opensearch_query_gateway.Rules
use opensearch_query_gateway.Rules.{Verdict, Interpreter}
use opensearch_query_gateway.Builder.{SortField, Page}
use opensearch_query_gateway.Api.Errors.{
  ApiError, Message, str, int, text, sprintf, joined, bad_request,
}

-- The interface `RuleEngine`.
pub record RuleEngine : Type 0 where
  pub normalize_field : String → Fallible String String
  pub validate : String → String → String → Verdict
  pub known_field : String → Fallible String Bool

-- The methods of `rules.Engine` with an interpreter; `not_allowed` writes an operation.
abbrev pub engine_with : Interpreter → (String → String) → RuleEngine
engine_with interp not_allowed = record {
  normalize_field = Rules.normalize_field interp;
  validate = Rules.validate interp not_allowed;
  known_field = Rules.is_known_field interp;
}

pub record SearchRequest : Type 0 where
  pub query : String
  pub index : String
  pub size : Option ℤ
  pub from : ℤ
  pub sort : List String
  pub explain : Bool

-- `strings.ToLower(s)` compared with a text of ASCII letters.
abbrev lower_is : String → String → Bool
lower_is s t = codes_eq (map to_lower (codes s)) (codes t)

-- `Desc` for the direction behind the colon, if it is a direction.
unfoldable pub direction : String → Option Bool
unfolding codes_eq
direction dir =
    if is_empty dir || lower_is dir "asc"
    then some false
    else if lower_is dir "desc"
    then some true
    else none

-- `rule_error`: the rule engine failed.
abbrev pub rule_error : Message → ApiError
rule_error msg = record { status = 500; code = "rule_error"; msg = msg }

-- The Go functions of the rule engine return an `error`.
abbrev pub from_rules : {A : Type 0} → (String → Message) → Fallible String A → Fallible ApiError A
from_rules wrap (ok a) = ok a
from_rules wrap (err e) = err (rule_error (wrap e))

abbrev pub guard : Bool → ApiError → Fallible ApiError (Unit {0})
guard true e = ok tt
guard false e = err e

pub guard-ok : (b : Bool) (e : ApiError) {u : Unit {0}} → guard b e ≡ ok u → b ≡ true
guard-ok true e h = refl
guard-ok false e h = cc

abbrev direction_or : String → Option Bool → Fallible ApiError Bool
direction_or dir none = err (
    bad_request "invalid_sort"
      (sprintf "invalid sort direction %q (use asc or desc)" (str dir ∷ [])))
direction_or dir (some desc) = ok desc

abbrev pub size_or : ℤ → Option ℤ → ℤ
size_or default none = default
size_or default (some n) = n

-- `Size` of the page.
abbrev pub page_size : SearchConfig → SearchRequest → ℤ
page_size limits req = size_or limits.default_size req.size

abbrev size_fits : SearchConfig → ℤ → Bool
size_fits limits size = not (ltb_ℤ size (pos 0) || ltb_ℤ limits.max_size size)

abbrev from_fits : SearchConfig → ℤ → ℤ → Bool
from_fits limits from size = not (ltb_ℤ from (pos 0) || ltb_ℤ limits.max_from (add_int from size))

check_size : SearchConfig → ℤ → Fallible ApiError (Unit {0})
check_size limits size = guard (size_fits limits size) (
    bad_request "invalid_size" (sprintf "size must be between 0 and %d" (int limits.max_size ∷ [])))

-- `From+Size` is a sum of two `int` values.
check_from : SearchConfig → ℤ → ℤ → Fallible ApiError (Unit {0})
check_from limits from size = guard (from_fits limits from size) (
    bad_request "invalid_from" (
      sprintf "from+size must not exceed %d; use a narrower query or search_after-based paging"
        (int limits.max_from ∷ [])))

module _ (rules : RuleEngine) where
  -- The field of the index that a criterion names.
  unfoldable pub sort_target : String → Fallible ApiError String
  sort_target field = if str_eq field "_score" then ok field else (do
    canonical ← from_rules text (rules.normalize_field field)
    known ← from_rules text (rules.known_field canonical)
    guarded ←
        guard known
          (bad_request "invalid_sort" (sprintf "cannot sort by unknown field %q" (str field ∷ [])))
    ok canonical)

  unfoldable pub sort_field : String → Fallible ApiError SortField
  unfolding sort_target
  sort_field raw = do
    let parts = cut b':' (trim_space raw)
    desc ← direction_or parts.1 (direction parts.1)
    named ← guard (not (is_empty parts.0)) (bad_request "invalid_sort" (text "empty sort field"))
    field ← sort_target parts.0
    ok (record { field = field; desc = desc })

  unfoldable pub sort_fields : List String → Fallible ApiError (List SortField)
  sort_fields [] = ok []
  sort_fields (raw ∷ raws) = do s ← sort_field raw; rest ← sort_fields raws; ok (s ∷ rest)

  unfoldable pub page : SearchConfig → SearchRequest → Fallible ApiError Page
  unfolding check_size check_from sort_fields sort_field
  page limits req = do
    let size = page_size limits req
    sized ← check_size limits size
    placed ← check_from limits req.from size
    sort ← sort_fields req.sort
    ok (record { size = size; from = req.from; sort = sort; track = limits.track_total_hits })
