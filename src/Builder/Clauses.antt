-- ===== src/Builder/Clauses.antt =====
-- The shape of the query that is built for a clause: its kind, its field, its boost.
use opensearch_query_gateway.Shared.{
  String, Bool, true, false, Option, none, some, ◌≡◌, refl, if◌then◌else◌, arith, str_eq,
  Bool-cases, inl, inr,
}
use opensearch_query_gateway.Json.{Json, float, single, get_prop, set_prop}
use opensearch_query_gateway.Query.{
  Clause, Operand, Fuzzy, Range, Compare, range, compare, phrase, word, is_relative_time, duration,
}
use opensearch_query_gateway.Dsl.{
  Floats, boost_factor, contains_wildcard, range_params, range_clause, compare_ops, compare_clause,
  match_clause, phrase_clause, fuzzy_clause, wildcard_clause,
}
use opensearch_query_gateway.Builder.Search.{entry}
use opensearch_query_gateway.Builder.{Builder, by_word, by_operand, build_clause, since}

abbrev pub word_kind : String → Option Fuzzy → String
word_kind w none = if contains_wildcard w then "wildcard" else "match"
word_kind w (some f) = if contains_wildcard w then "wildcard" else "fuzzy"

abbrev pub operand_kind : Operand → Option Fuzzy → String
operand_kind (range r) f = "range"
operand_kind (compare c) f = "range"
operand_kind (phrase s) f = "match_phrase"
operand_kind (word w) f = word_kind w f

-- The kind of query that a clause asks for.
abbrev pub kind : Clause → String
kind c = if is_relative_time c then "range" else operand_kind c.value.operand c.value.fuzzy

-- The field that a clause searches.
abbrev pub target : Builder → Clause → String
target b c = if is_relative_time c then b.time_field else c.field

no_key_is_boost :
    (p q r s : Bool)
    → str_eq
        (if p then "gt" else if q then "gte" else if r then "lt" else if s then "lte" else "")
        "boost"
      ≡ false
no_key_is_boost true q r s = refl
no_key_is_boost false true r s = refl
no_key_is_boost false false true s = refl
no_key_is_boost false false false true = refl
no_key_is_boost false false false false = refl

compare_ops-ne-boost : (op : String) → str_eq (compare_ops op) "boost" ≡ false
unfolding compare_ops
compare_ops-ne-boost op =
    no_key_is_boost (str_eq op ">") (str_eq op ">=") (str_eq op "<") (str_eq op "<=")

module _ {F : Type 0} where
  abbrev pub boost_entry : Option F → Option (Json F)
  boost_entry none = none
  boost_entry (some f) = some (float f)

  -- `j` is a query of kind `k` on the field `f` alone, with that boost or with none.
  abbrev pub HasShape : String → String → Option F → Json F → Type 0
  HasShape k f boost j =
      (v : Json F) × (j ≡ single k (single f v)) × (entry "boost" v ≡ boost_entry boost)

  range_clause-HasShape :
      (f : String) (r : Range) (boost : Option F)
      → HasShape "range" f boost (range_clause f r boost)
  unfolding range_clause get_prop
  range_clause-HasShape f r none = (_, refl, ground arith)
  range_clause-HasShape f r (some x) = (_, refl, ground arith)

  compare_clause-HasShape :
      (f : String) (c : Compare) (boost : Option F)
      → HasShape "range" f boost (compare_clause f c boost)
  unfolding compare_clause get_prop set_prop
  compare_clause-HasShape f c none = (_, refl, rw (compare_ops-ne-boost c.op))
  compare_clause-HasShape f c (some x) = (_, refl, ground (arith, compare_ops-ne-boost c.op))

  since-HasShape :
      (f d : String) (boost : Option F) → HasShape "range" f boost (range_params f (since d) boost)
  unfolding range_params get_prop
  since-HasShape f d none = (_, refl, refl)
  since-HasShape f d (some x) = (_, refl, refl)

  match_clause-HasShape :
      (f w : String) (boost : Option F) → HasShape "match" f boost (match_clause f w boost)
  unfolding match_clause get_prop
  match_clause-HasShape f w none = (_, refl, refl)
  match_clause-HasShape f w (some x) = (_, refl, refl)

  phrase_clause-HasShape :
      (f s : String) (fuzzy : Option Fuzzy) (boost : Option F)
      → HasShape "match_phrase" f boost (phrase_clause f s fuzzy boost)
  unfolding phrase_clause get_prop
  phrase_clause-HasShape f s none none = (_, refl, refl)
  phrase_clause-HasShape f s none (some x) = (_, refl, refl)
  phrase_clause-HasShape f s (some y) none = (_, refl, refl)
  phrase_clause-HasShape f s (some y) (some x) = (_, refl, refl)

  fuzzy_clause-HasShape :
      (f w d : String) (boost : Option F) → HasShape "fuzzy" f boost (fuzzy_clause f w d boost)
  unfolding fuzzy_clause get_prop
  fuzzy_clause-HasShape f w d none = (_, refl, refl)
  fuzzy_clause-HasShape f w d (some x) = (_, refl, refl)

  wildcard_clause-HasShape :
      (f w : String) (boost : Option F) → HasShape "wildcard" f boost (wildcard_clause f w boost)
  unfolding wildcard_clause get_prop
  wildcard_clause-HasShape f w none = (_, refl, refl)
  wildcard_clause-HasShape f w (some x) = (_, refl, refl)

module _ {F : Type 0} (fp : Floats F) (b : Builder) where
  by_word-HasShape :
      (f w : String) (fuzzy : Option Fuzzy) (boost : Option F)
      → HasShape (word_kind w fuzzy) f boost (by_word fp b f w fuzzy boost)
  unfolding by_word
  by_word-HasShape f w none boost = elim (Bool-cases (contains_wildcard w)) [
    | inl e ↦ rw e (wildcard_clause-HasShape f w boost)
    | inr e ↦ rw e (match_clause-HasShape f w boost)
  ]
  by_word-HasShape f w (some fuzzy) boost = elim (Bool-cases (contains_wildcard w)) [
    | inl e ↦ rw e (wildcard_clause-HasShape f w boost)
    | inr e ↦ rw e (fuzzy_clause-HasShape f w fuzzy.distance boost)
  ]

  by_operand-HasShape :
      (f : String) (o : Operand) (fuzzy : Option Fuzzy) (boost : Option F)
      → HasShape (operand_kind o fuzzy) f boost (by_operand fp b f o fuzzy boost)
  unfolding by_operand
  by_operand-HasShape f (range r) fuzzy boost = range_clause-HasShape f r boost
  by_operand-HasShape f (compare c) fuzzy boost = compare_clause-HasShape f c boost
  by_operand-HasShape f (phrase s) fuzzy boost = phrase_clause-HasShape f s fuzzy boost
  by_operand-HasShape f (word w) fuzzy boost = by_word-HasShape f w fuzzy boost

  pub build_clause-HasShape :
      (c : Clause)
      → HasShape (kind c) (target b c) (boost_factor fp c.value.boost) (build_clause fp b c)
  unfolding build_clause
  build_clause-HasShape c = elim (Bool-cases (is_relative_time c)) [
    | inl e ↦ rw e (since-HasShape b.time_field (duration c).0 (boost_factor fp c.value.boost))
    | inr e ↦
        rw e (
          by_operand-HasShape c.field c.value.operand c.value.fuzzy (boost_factor fp c.value.boost))
  ]
