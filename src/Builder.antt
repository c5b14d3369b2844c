-- ===== src/Builder.antt =====
-- internal/dslbuilder/builder.go: from the syntax tree to the body of a search.
pub mod Meaning
pub mod Leaves
pub mod Typed
pub mod Search
pub mod Clauses
pub mod Kinds
use opensearch_query_gateway.Shared.{
  ℕ, String, Bool, true, false, not, Option, List, [], ◌∷◌, ◌++◌, ltb, ◌==◌, ◌&&◌, none, some,
  if◌then◌else◌, ◌<>◌, is_empty, is_some, length, map,
}
use opensearch_query_gateway.Shared.Int.{ℤ, pos, leb_ℤ, ltb_ℤ}
use opensearch_query_gateway.Json.{
  Json, Props, str, int, bool, arr, obj, end, prop, of_list, set_prop, single,
}
use opensearch_query_gateway.Query.{
  Clause, Operand, Fuzzy, range, compare, phrase, word, Expression, OrOps, AndExpr, AndOps, NotExpr,
  Primary, Query, expression, no_or, or_op, and_expr, no_and, and_op, not_expr, group, clause,
  is_relative_time, duration,
}
use opensearch_query_gateway.Dsl.{
  Floats, boost_factor, contains_wildcard, range_params, range_clause, compare_clause, match_clause,
  phrase_clause, fuzzy_clause, wildcard_clause,
}

abbrev pub default_time_field : String
default_time_field = "@timestamp"

pub record Builder : Type 0 where
  pub time_field : String

-- `Option` of the source: a change of the builder.
abbrev pub BuilderOption : Type 0
BuilderOption = Builder → Builder

unfoldable pub with_time_field : String → BuilderOption
with_time_field field b = if not (is_empty field) then record { time_field = field } else b

apply_options : List BuilderOption → Builder → Builder
apply_options [] b = b
apply_options (o ∷ opts) b = apply_options opts (o b)

unfoldable pub new : List BuilderOption → Builder
unfolding apply_options
new opts = apply_options opts (record { time_field = default_time_field })

-- `must` and `mustNot` of `and`.
pub record Collected (F : Type 0) : Type 0 where
  pub must : List (Json F)
  pub must_not : List (Json F)

module _ {F : Type 0} where
  -- The end of `collect`, with the query of the primary expression at hand.
  unfoldable pub add_query : Bool → Json F → Collected F → Collected F
  add_query negated q acc =
      if negated
      then record acc { must_not = acc.must_not ++ q ∷ [] }
      else record acc { must = acc.must ++ q ∷ [] }

  abbrev has_items : List (Json F) → Bool
  has_items [] = false
  has_items (_ ∷ _) = true

  abbrev set_items : String → List (Json F) → Props F → Props F
  set_items k xs ps = if has_items xs then set_prop k (arr (of_list xs)) ps else ps

  bool_query : List (Json F) → List (Json F) → Json F
  bool_query must must_not =
      single "bool" (obj (set_items "must_not" must_not (set_items "must" must end)))

  -- The end of `and`: a single positive query stands for itself.
  unfoldable pub and_query : List (Json F) → List (Json F) → Json F
  unfolding bool_query set_prop
  and_query (q ∷ []) [] = q
  and_query must must_not = bool_query must must_not

  -- The end of `expression`: the first query, and those behind each OR.
  unfoldable pub or_query : Json F → List (Json F) → Json F
  or_query first [] = first
  or_query first (q ∷ qs) = single "bool" (
      obj (
        prop "should" (arr (of_list (first ∷ q ∷ qs)))
          (prop "minimum_should_match" (int (pos 1)) end)))

module _ {F : Type 0} where
  -- The time window `gte: now-<d>` of a relative clause.
  abbrev since : String → Props F
  since d = prop "gte" (str ("now-" <> d)) end

module _ {F : Type 0} (fp : Floats F) (b : Builder) where
  by_word : String → String → Option Fuzzy → Option F → Json F
  by_word field w none boost =
      if contains_wildcard w then wildcard_clause field w boost else match_clause field w boost
  by_word field w (some fuzzy) boost =
      if contains_wildcard w
      then wildcard_clause field w boost
      else fuzzy_clause field w fuzzy.distance boost

  by_operand : String → Operand → Option Fuzzy → Option F → Json F
  by_operand field (range r) fuzzy boost = range_clause field r boost
  by_operand field (compare c) fuzzy boost = compare_clause field c boost
  by_operand field (phrase s) fuzzy boost = phrase_clause field s fuzzy boost
  by_operand field (word w) fuzzy boost = by_word field w fuzzy boost

  unfoldable pub build_clause : Clause → Json F
  unfolding by_operand by_word
  build_clause c =
      let boost = boost_factor fp c.value.boost in
      if is_relative_time c
      then range_params b.time_field (since (duration c).0) boost
      else by_operand c.field c.value.operand c.value.fuzzy boost

  unfoldable mutual
    pub build_expression : Expression → Json F
    build_expression (expression left right) = or_query (build_and left) (build_or_ops right)

    pub build_or_ops : OrOps → List (Json F)
    build_or_ops no_or = []
    build_or_ops (or_op op right more) = build_and right ∷ build_or_ops more

    pub build_and : AndExpr → Json F
    build_and (and_expr left right) =
        let acc = collect_ops right (collect left (record { must = []; must_not = [] })) in
        and_query acc.must acc.must_not

    pub collect_ops : AndOps → Collected F → Collected F
    collect_ops no_and acc = acc
    collect_ops (and_op op right more) acc = collect_ops more (collect right acc)

    pub collect : NotExpr → Collected F → Collected F
    collect (not_expr negated primary) acc = add_query negated (build_primary primary) acc

    pub build_primary : Primary → Json F
    build_primary (group e) = build_expression e
    build_primary (clause c) = build_clause c

  abbrev pub build : Query → Props F
  build q = prop "query" (build_expression q.root) end

-- One criterion of `sort`.
pub record SortField : Type 0 where
  pub field : String
  pub desc : Bool

pub record Page : Type 0 where
  pub size : ℤ
  pub from : ℤ
  pub sort : List SortField
  pub track : Bool

module _ {F : Type 0} where
  unfoldable pub sort_query : SortField → Json F
  sort_query s = single s.field (single "order" (str (if s.desc then "desc" else "asc")))

  unfoldable pub set_page : Page → Props F → Props F
  unfolding set_prop sort_query
  set_page p body =
      let sized = if leb_ℤ (pos 0) p.size then set_prop "size" (int p.size) body else body in
      let placed = if ltb_ℤ (pos 0) p.from then set_prop "from" (int p.from) sized else sized in
      let sorted = set_items "sort" (map sort_query p.sort) placed in
      if p.track then set_prop "track_total_hits" (bool true) sorted else sorted

unfoldable pub build_search : {F : Type 0} → Floats F → Builder → Query → Page → Json F
unfolding set_page
build_search fp b q p = obj (set_page p (build fp b q))
