-- ===== src/Rules/Bootstrap.antt =====
-- internal/rules/bootstrap.pl: the rules that are shipped, with the facts of loaded schemas, as
-- answers to the goals of the rule engine. A negated goal is tried over all facts.
pub mod Fields
pub mod Verdicts
use Prim.Native.Char.{code}
use opensearch_query_gateway.Shared.{
  ℕ, String, Bool, true, false, not, ◌||◌, ◌&&◌, Option, none, some, List, [], ◌∷◌, if◌then◌else◌,
  ◌==◌, ◌<>◌, codes, str_eq,
}
use opensearch_query_gateway.Config.{contains}
use opensearch_query_gateway.Rules.{
  Goal, field_alias, known_field, valid_clause, rejection_reason, Outcome, solution, exhausted,
  Interpreter,
}

-- The facts `field`, `object`, `nested` and `field_type` that were loaded, without their index.
pub record Facts : Type 0 where
  pub fields : List String
  pub objects : List String
  pub nested : List String
  pub types : List (String × String)

-- `atom_concat(Prefix, _, F)`.
unfoldable pub starts_with : List ℕ → List ℕ → Bool
starts_with [] cs = true
starts_with (p ∷ ps) [] = false
starts_with (p ∷ ps) (c ∷ cs) = p == c && starts_with ps cs

abbrev alias_of : String → Option String
alias_of raw =
    if str_eq raw "author"
    then some "created_by"
    else if str_eq raw "tag"
    then some "tags"
    else if str_eq raw "ts"
    then some "@timestamp"
    else none

abbrev pub allowed_fields : List String
allowed_fields =
    "created_by" ∷ "tags" ∷ "title" ∷ "status" ∷ "published_at" ∷ "views" ∷ "@timestamp" ∷ []

-- `inside_nested` for the given nested fields.
unfoldable pub inside_one : String → List String → Bool
unfolding starts_with
inside_one f [] = false
inside_one f (p ∷ ps) = starts_with (codes (p <> ".")) (codes f) || inside_one f ps

abbrev pub numeric_types : List String
numeric_types =
    "long" ∷ "integer" ∷ "short" ∷ "byte" ∷ "double" ∷ "float" ∷ "half_float" ∷ "scaled_float"
    ∷ "unsigned_long" ∷ []

-- A type that a range may be over: a number, a date, `ip` or `keyword`.
abbrev pub range_types : List String
range_types = "date" ∷ "date_nanos" ∷ "ip" ∷ "keyword" ∷ numeric_types

-- `field_type(_, F, T)` for one of the types.
unfoldable pub has_type : String → List String → List (String × String) → Bool
unfolding contains
has_type f ts [] = false
has_type f ts ((g, t) ∷ rest) = (str_eq g f && contains t ts) || has_type f ts rest

abbrev pub nested_reason : String
nested_reason = "fields inside nested objects are not supported yet"

abbrev pub range_reason : String
range_reason = "range queries require a numeric or date field"

abbrev yes_or_no : Bool → Outcome
yes_or_no true = solution ""
yes_or_no false = exhausted none none

abbrev text_or_no : Option String → Outcome
text_or_no (some s) = solution s
text_or_no none = exhausted none none

module _ (facts : Facts) where
  abbrev pub in_nested : String → Bool
  in_nested f = contains f facts.nested || inside_one f facts.nested

  unfoldable pub is_known : String → Bool
  unfolding contains inside_one
  is_known f =
      contains f allowed_fields
      || (contains f facts.fields && not (contains f facts.objects) && not (in_nested f))

  unfoldable pub is_range_field : String → Bool
  unfolding contains has_type
  is_range_field f =
      contains f ("views" ∷ "published_at" ∷ "@timestamp" ∷ [])
      || has_type f range_types facts.types

  unfoldable pub is_valid : String → String → Bool
  is_valid f op =
      (str_eq op "eq" && is_known f) || (str_eq op "range" && is_known f && is_range_field f)

  -- The first clause of `rejection_reason` that succeeds.
  unfoldable pub reason_of : String → String → Option String
  unfolding contains inside_one
  reason_of f op =
      if in_nested f
      then some nested_reason
      else if not (is_known f)
      then some "unknown field"
      else if str_eq op "range" && is_known f && not (is_range_field f)
      then some range_reason
      else none

  -- What an interpreter that has loaded the rules and the facts answers.
  unfoldable pub bootstrap : Interpreter
  bootstrap (field_alias raw) = text_or_no (alias_of raw)
  bootstrap (known_field f) = yes_or_no (is_known f)
  bootstrap (valid_clause f op value) = yes_or_no (is_valid f op)
  bootstrap (rejection_reason f op value) = text_or_no (reason_of f op)
