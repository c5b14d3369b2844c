-- ===== src/Schema.antt =====
-- internal/schema/models.go and internal/schema/analyzer.go: the fields of an index and what each
-- of them can be used for.
pub mod Notes
pub mod Lookup
pub mod Mapper
pub mod Analysis
pub mod Uses
pub mod Atoms
pub mod Facts
use opensearch_query_gateway.Shared.{
  String, Bool, true, false, not, ◌||◌, ◌&&◌, Option, none, some, List, [], ◌∷◌, str_eq,
  if◌then◌else◌,
}
use opensearch_query_gateway.Shared.Int.{ℤ}

pub record Field : Type 0 where
  pub path : String
  pub type : String
  pub indexed : Option Bool
  pub doc_values : Option Bool
  pub fielddata : Bool
  pub analyzer : String
  pub format : String
  pub ignore_above : Option ℤ
  pub is_object : Bool
  pub is_nested : Bool
  pub parent : String

pub record IndexSchema : Type 0 where
  pub name : String
  pub fields : List Field

-- `numericTypes`.
unfoldable pub is_numeric : String → Bool
is_numeric t =
    str_eq t "long"
    || str_eq t "integer"
    || str_eq t "short"
    || str_eq t "byte"
    || str_eq t "double"
    || str_eq t "float"
    || str_eq t "half_float"
    || str_eq t "scaled_float"
    || str_eq t "unsigned_long"

unfoldable pub is_date : String → Bool
is_date t = str_eq t "date" || str_eq t "date_nanos"

-- The pointer is set, and to false.
unfoldable pub is_off : Option Bool → Bool
is_off none = false
is_off (some b) = not b

abbrev pub searchable_type : String → Bool
searchable_type t =
    str_eq t "text"
    || str_eq t "match_only_text"
    || str_eq t "keyword"
    || str_eq t "constant_keyword"
    || str_eq t "wildcard"
    || str_eq t "boolean"
    || str_eq t "ip"
    || is_numeric t
    || is_date t

unfoldable pub searchable : Field → Bool
searchable f =
    if f.is_object || f.is_nested
    then false
    else if is_off f.indexed
    then false
    else searchable_type f.type

abbrev aggregatable_type : String → Bool
aggregatable_type t =
    str_eq t "keyword"
    || str_eq t "constant_keyword"
    || str_eq t "boolean"
    || str_eq t "ip"
    || is_numeric t
    || is_date t

unfoldable pub aggregatable : Field → Bool
aggregatable f =
    if f.is_object || f.is_nested
    then false
    else if str_eq f.type "text"
    then f.fielddata
    else if is_off f.doc_values
    then false
    else aggregatable_type f.type

unfoldable pub operators_of_type : String → List String
operators_of_type t =
    if str_eq t "text" || str_eq t "match_only_text"
    then "match" ∷ "phrase" ∷ "fuzzy" ∷ []
    else if str_eq t "keyword" || str_eq t "wildcard" || str_eq t "constant_keyword"
    then "match" ∷ "wildcard" ∷ "fuzzy" ∷ []
    else if is_numeric t || str_eq t "ip"
    then "match" ∷ "range" ∷ "compare" ∷ []
    else if is_date t
    then "match" ∷ "range" ∷ "compare" ∷ "relative" ∷ []
    else if str_eq t "boolean"
    then "match" ∷ []
    else []

unfoldable pub operators : Field → List String
unfolding operators_of_type
operators f = if not (searchable f) then [] else operators_of_type f.type
