-- ===== src/Builder/Typed.antt =====
-- The DSL of an expression is made of queries that OpenSearch knows.
use mathlib.Core.Path.{subst}
use opensearch_query_gateway.Shared.{
  String, Bool, true, false, Option, none, some, List, [], ◌∷◌, ◌++◌, sym, Bool-cases, inl, inr,
}
use opensearch_query_gateway.Shared.Int.{pos}
use opensearch_query_gateway.Json.{Json, int, arr, obj, end, prop, of_list, set_prop, single}
use opensearch_query_gateway.Query.{
  Clause, Operand, Fuzzy, range, compare, phrase, word, Expression, OrOps, AndExpr, AndOps, NotExpr,
  Primary, expression, no_or, or_op, and_expr, no_and, and_op, not_expr, group, clause,
  is_relative_time,
}
use opensearch_query_gateway.Dsl.{Floats, contains_wildcard}
use opensearch_query_gateway.Builder.{
  Builder, Collected, add_query, bool_query, and_query, or_query, build_clause, build_expression,
  build_or_ops, build_and, collect_ops, collect, build_primary,
}
use opensearch_query_gateway.Builder.Clauses.{
  word_kind, operand_kind, kind, target, build_clause-HasShape,
}

-- The queries on one field that the gateway uses.
pub data IsKind : String → Type 0 where
  match_kind : IsKind "match"
  phrase_kind : IsKind "match_phrase"
  fuzzy_kind : IsKind "fuzzy"
  wildcard_kind : IsKind "wildcard"
  range_kind : IsKind "range"

module _ {F : Type 0} where
  abbrev list : List (Json F) → Json F
  list qs = arr (of_list qs)

  -- A query on one field, or a `bool` query in one of four forms, of which none has an empty list of
  -- queries, and none stands for a query alone.
  mutual
    pub data IsQuery : Json F → Type 0 where
      leaf : (k field : String) (v : Json F) → IsKind k → IsQuery (single k (single field v))
      any_of :
          (q p : Json F) (qs : List (Json F))
          → AreQueries (q ∷ p ∷ qs)
          → IsQuery (
              single "bool" (
                obj (
                  prop "should"
                    (list (q ∷ p ∷ qs))
                    (prop "minimum_should_match" (int (pos 1)) end))))
      all_of :
          (q p : Json F) (qs : List (Json F))
          → AreQueries (q ∷ p ∷ qs)
          → IsQuery (single "bool" (obj (prop "must" (list (q ∷ p ∷ qs)) end)))
      none_of :
          (x : Json F) (xs : List (Json F))
          → AreQueries (x ∷ xs)
          → IsQuery (single "bool" (obj (prop "must_not" (list (x ∷ xs)) end)))
      but_not :
          (q x : Json F) (qs xs : List (Json F))
          → AreQueries (q ∷ qs)
          → AreQueries (x ∷ xs)
          → IsQuery (
              single "bool"
                (obj (prop "must" (list (q ∷ qs)) (prop "must_not" (list (x ∷ xs)) end))))

    pub data AreQueries : List (Json F) → Type 0 where
      no_query : AreQueries []
      more : (q : Json F) (qs : List (Json F)) → IsQuery q → AreQueries qs → AreQueries (q ∷ qs)

  AreQueries-append :
      {qs ps : List (Json F)} → AreQueries qs → AreQueries ps → AreQueries (qs ++ ps)
  AreQueries-append no_query h = h
  AreQueries-append (more q qs i j) h = more q _ i (AreQueries-append j h)

  or_query-IsQuery :
      {q : Json F} {qs : List (Json F)} → IsQuery q → AreQueries qs → IsQuery (or_query q qs)
  unfolding or_query
  or_query-IsQuery i no_query = i
  or_query-IsQuery {q} i (more p qs j k) = any_of q p qs (more q (p ∷ qs) i (more p qs j k))

  -- One of the two lists has a query.
  abbrev IsSome : List (Json F) → List (Json F) → Type 0
  IsSome [] [] = ⊥
  IsSome _ _ = Unit

  and_query-IsQuery :
      {must must_not : List (Json F)}
      → AreQueries must
      → AreQueries must_not
      → IsSome must must_not
      → IsQuery (and_query must must_not)
  unfolding and_query bool_query set_prop
  and_query-IsQuery no_query no_query s = absurd s
  and_query-IsQuery no_query (more x xs i j) s = none_of x xs (more x xs i j)
  and_query-IsQuery (more q [] i j) no_query s = i
  and_query-IsQuery (more q (p ∷ qs) i j) no_query s = all_of q p qs (more q (p ∷ qs) i j)
  and_query-IsQuery (more q [] i j) (more x xs k l) s =
      but_not q x [] xs (more q [] i j) (more x xs k l)
  and_query-IsQuery (more q (p ∷ qs) i j) (more x xs k l) s =
      but_not q x (p ∷ qs) xs (more q (p ∷ qs) i j) (more x xs k l)

  -- What has been collected, and that something has.
  record AreCollected (acc : Collected F) : Type 0 where
    must : AreQueries acc.must
    must_not : AreQueries acc.must_not

  append-IsSome : (xs ys : List (Json F)) (y : Json F) → IsSome (xs ++ y ∷ []) ys
  append-IsSome [] ys y = tt
  append-IsSome (x ∷ xs) ys y = tt

  append-IsSome_right : (xs ys : List (Json F)) (y : Json F) → IsSome xs (ys ++ y ∷ [])
  append-IsSome_right [] [] y = tt
  append-IsSome_right [] (x ∷ ys) y = tt
  append-IsSome_right (x ∷ xs) ys y = tt

  added :
      (negated : Bool) (q : Json F) (acc : Collected F)
      → IsQuery q
      → AreCollected acc
      → AreCollected (add_query negated q acc)
        × IsSome (add_query negated q acc).must (add_query negated q acc).must_not
  unfolding add_query
  added true q acc i h = (
    record { must = h.must; must_not = AreQueries-append h.must_not (more q [] i no_query) },
    append-IsSome_right acc.must acc.must_not q,
  )
  added false q acc i h = (
    record { must = AreQueries-append h.must (more q [] i no_query); must_not = h.must_not },
    append-IsSome acc.must acc.must_not q,
  )

word_kind-IsKind : (w : String) (f : Option Fuzzy) → IsKind (word_kind w f)
word_kind-IsKind w none = elim (Bool-cases (contains_wildcard w)) [
  | inl e ↦ rw e wildcard_kind
  | inr e ↦ rw e match_kind
]
word_kind-IsKind w (some f) = elim (Bool-cases (contains_wildcard w)) [
  | inl e ↦ rw e wildcard_kind
  | inr e ↦ rw e fuzzy_kind
]

operand_kind-IsKind : (o : Operand) (f : Option Fuzzy) → IsKind (operand_kind o f)
operand_kind-IsKind (range r) f = range_kind
operand_kind-IsKind (compare c) f = range_kind
operand_kind-IsKind (phrase s) f = phrase_kind
operand_kind-IsKind (word w) f = word_kind-IsKind w f

kind-IsKind : (c : Clause) → IsKind (kind c)
kind-IsKind c = elim (Bool-cases (is_relative_time c)) [
  | inl e ↦ rw e range_kind
  | inr e ↦ rw e (operand_kind-IsKind c.value.operand c.value.fuzzy)
]

module _ {F : Type 0} (fp : Floats F) (b : Builder) where
  build_clause-IsQuery : (c : Clause) → IsQuery (build_clause fp b c)
  build_clause-IsQuery c =
      let (v, shape, boost) = build_clause-HasShape fp b c in
      subst IsQuery (sym shape) (leaf (kind c) (target b c) v (kind-IsKind c))

  mutual
    unfolding build_expression

    expression-IsQuery : (e : Expression) → IsQuery (build_expression fp b e)
    expression-IsQuery (expression l r) = or_query-IsQuery (and-IsQuery l) (or_ops-AreQueries r)

    or_ops-AreQueries : (e : OrOps) → AreQueries (build_or_ops fp b e)
    or_ops-AreQueries no_or = no_query
    or_ops-AreQueries (or_op op right rest) =
        more (build_and fp b right) (build_or_ops fp b rest) (and-IsQuery right)
          (or_ops-AreQueries rest)

    and-IsQuery : (e : AndExpr) → IsQuery (build_and fp b e)
    and-IsQuery (and_expr l r) =
        let start : Collected F = record { must = []; must_not = [] } in
        let (first, there) =
          not_collected l start (record { must = no_query; must_not = no_query }) in
        let (all, still) = ops_collected r (collect fp b l start) first there in
        and_query-IsQuery all.must all.must_not still

    ops_collected :
        (e : AndOps) (acc : Collected F)
        → AreCollected acc
        → IsSome acc.must acc.must_not
        → AreCollected (collect_ops fp b e acc)
          × IsSome (collect_ops fp b e acc).must (collect_ops fp b e acc).must_not
    ops_collected no_and acc h s = (h, s)
    ops_collected (and_op op right rest) acc h s =
        let (next, there) = not_collected right acc h in
        ops_collected rest (collect fp b right acc) next there

    not_collected :
        (e : NotExpr) (acc : Collected F)
        → AreCollected acc
        → AreCollected (collect fp b e acc)
          × IsSome (collect fp b e acc).must (collect fp b e acc).must_not
    not_collected (not_expr negated p) acc h =
        added negated (build_primary fp b p) acc (primary-IsQuery p) h

    primary-IsQuery : (p : Primary) → IsQuery (build_primary fp b p)
    primary-IsQuery (group e) = expression-IsQuery e
    primary-IsQuery (clause c) = build_clause-IsQuery c

  -- The DSL of every expression is a query of the type that OpenSearch takes here: a query of a
  -- known kind on one field, or a `bool` query of such queries, in which `should` has two queries
  -- at least and asks for one of them, `must` has two at least or stands beside a `must_not`, and
  -- no list is empty.
  pub build_expression-IsQuery : (e : Expression) → IsQuery (build_expression fp b e)
  build_expression-IsQuery e = expression-IsQuery e
