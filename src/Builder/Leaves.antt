-- ===== src/Builder/Leaves.antt =====
-- The leaves of the DSL are the queries of the clauses: none is lost and none is invented.
use mathlib.Core.List.{Perm, perm_append_comm, map-append}
use mathlib.Core.List.Perm
use opensearch_query_gateway.Shared.{
  Bool, true, false, List, [], ◌∷◌, ◌++◌, ◌≡◌, refl, sym, ◌∙◌, ap, if◌then◌else◌, str_eq, arith,
  append-nil, append_assoc, map,
}
use opensearch_query_gateway.Json.{
  Json, Elems, Props, arr, obj, nil, cons, end, prop, of_list, set_prop,
}
use opensearch_query_gateway.Query.{
  Clause, Expression, OrOps, AndExpr, AndOps, NotExpr, Primary, expression, no_or, or_op, and_expr,
  no_and, and_op, not_expr, group, clause,
}
use opensearch_query_gateway.Query.Walk.{
  clauses_expression, clauses_or_ops, clauses_and, clauses_and_ops, clauses_not, clauses_primary,
}
use opensearch_query_gateway.Dsl.{
  Floats, range_clause, range_params, match_clause, phrase_clause, fuzzy_clause, wildcard_clause,
  compare_clause,
}
use opensearch_query_gateway.Builder.{
  Builder, Collected, add_query, bool_query, and_query, or_query, build_clause, build_expression,
  build_or_ops, build_and, collect_ops, collect, build_primary,
}

-- The queries that are no `bool` query, in the order in which they stand.
module _ {F : Type 0} where
  unfoldable mutual
    pub leaves : Json F → List (Json F)
    leaves (obj (prop k v ps)) =
        let inner = leaves_bool v in if str_eq k "bool" then inner else obj (prop k v ps) ∷ []
    leaves j = j ∷ []

    leaves_bool : Json F → List (Json F)
    leaves_bool (obj ps) = leaves_props ps
    leaves_bool _ = []

    leaves_props : Props F → List (Json F)
    leaves_props end = []
    leaves_props (prop k v ps) = leaves_items v ++ leaves_props ps

    leaves_items : Json F → List (Json F)
    leaves_items (arr xs) = leaves_elems xs
    leaves_items _ = []

    leaves_elems : Elems F → List (Json F)
    leaves_elems nil = []
    leaves_elems (cons x xs) = leaves x ++ leaves_elems xs

  abbrev leaves_list : List (Json F) → List (Json F)
  leaves_list qs = leaves_elems (of_list qs)

  leaves_list-append :
      (xs : List (Json F)) (q : Json F) → leaves_list (xs ++ q ∷ []) ≡ leaves_list xs ++ leaves q
  unfolding leaves
  leaves_list-append [] q = append-nil (leaves q)
  leaves_list-append (x ∷ xs) q =
      rw (leaves_list-append xs q) (sym (append_assoc (leaves x) (leaves_list xs) (leaves q)))

  leaves-bool_query :
      (must must_not : List (Json F))
      → leaves (bool_query must must_not) ≡ leaves_list must ++ leaves_list must_not
  unfolding leaves bool_query set_prop
  leaves-bool_query [] [] = refl
  leaves-bool_query [] (x ∷ xs) = append-nil (leaves_list (x ∷ xs))
  leaves-bool_query (q ∷ qs) [] = refl
  leaves-bool_query (q ∷ qs) (x ∷ xs) =
      ap (λ l. leaves_list (q ∷ qs) ++ l) (append-nil (leaves_list (x ∷ xs)))

  leaves-and_query :
      (must must_not : List (Json F))
      → leaves (and_query must must_not) ≡ leaves_list must ++ leaves_list must_not
  unfolding and_query
  leaves-and_query [] must_not = leaves-bool_query [] must_not
  leaves-and_query (q ∷ []) [] =
      unfold leaves in sym (append-nil (leaves q ++ []) ∙ append-nil (leaves q))
  leaves-and_query (q ∷ []) (x ∷ xs) = leaves-bool_query (q ∷ []) (x ∷ xs)
  leaves-and_query (q ∷ p ∷ qs) must_not = leaves-bool_query (q ∷ p ∷ qs) must_not

  leaves-or_query :
      (first : Json F) (qs : List (Json F))
      → leaves (or_query first qs) ≡ leaves first ++ leaves_list qs
  unfolding or_query leaves
  leaves-or_query first [] = sym (append-nil (leaves first))
  leaves-or_query first (q ∷ qs) = append-nil (leaves_list (first ∷ q ∷ qs))

  abbrev of_collected : Collected F → List (Json F)
  of_collected acc = leaves_list acc.must ++ leaves_list acc.must_not

  leaves-add_query :
      (negated : Bool) (q : Json F) (acc : Collected F)
      → Perm (of_collected (add_query negated q acc)) (of_collected acc ++ leaves q)
  unfolding add_query
  leaves-add_query true q acc = rw (leaves_list-append acc.must_not q, append_assoc) (Perm.refl _)
  leaves-add_query false q acc =
      rw (leaves_list-append acc.must q, append_assoc, append_assoc)
        (Perm.append_left (leaves_list acc.must)
          (perm_append_comm (leaves q) (leaves_list acc.must_not)))

clause_kinds : Unit {0}
unfolding leaves build_clause range_clause range_params compare_clause match_clause phrase_clause
    fuzzy_clause wildcard_clause
clause_kinds = tt

module _ {F : Type 0} (fp : Floats F) (b : Builder) where
  leaves-build_clause : (c : Clause) → leaves (build_clause fp b c) ≡ build_clause fp b c ∷ []
  unfolding clause_kinds
  leaves-build_clause c = ground arith

  abbrev queries : List Clause → List (Json F)
  queries cs = map (build_clause fp b) cs

  mutual
    unfolding build_expression leaves

    expression_leaves :
        (e : Expression) → Perm (leaves (build_expression fp b e)) (queries (clauses_expression e))
    expression_leaves (expression l r) =
        rw (leaves-or_query (build_and fp b l) (build_or_ops fp b r), map-append)
          (Perm.append (and_leaves l) (or_ops_leaves r))

    or_ops_leaves :
        (e : OrOps) → Perm (leaves_list (build_or_ops fp b e)) (queries (clauses_or_ops e))
    or_ops_leaves no_or = Perm.refl []
    or_ops_leaves (or_op op r more) =
        rw map-append (Perm.append (and_leaves r) (or_ops_leaves more))

    and_leaves : (e : AndExpr) → Perm (leaves (build_and fp b e)) (queries (clauses_and e))
    and_leaves (and_expr l r) =
        let start = collect fp b l (record { must = []; must_not = [] }) in
        rw
          (
            leaves-and_query (collect_ops fp b r start).must (collect_ops fp b r start).must_not,
            map-append,
          )
          (Perm.trans (and_ops_leaves r start) (
            Perm.append_right (queries (clauses_and_ops r))
              (not_leaves l (record { must = []; must_not = [] }))))

    and_ops_leaves :
        (e : AndOps) (acc : Collected F)
        → Perm
            (of_collected (collect_ops fp b e acc))
            (of_collected acc ++ queries (clauses_and_ops e))
    and_ops_leaves no_and acc = rw append-nil (Perm.refl (of_collected acc))
    and_ops_leaves (and_op op r more) acc =
        rw (map-append, ← append_assoc)
          (Perm.trans (and_ops_leaves more (collect fp b r acc))
            (Perm.append_right (queries (clauses_and_ops more)) (not_leaves r acc)))

    not_leaves :
        (e : NotExpr) (acc : Collected F)
        → Perm (of_collected (collect fp b e acc)) (of_collected acc ++ queries (clauses_not e))
    not_leaves (not_expr n p) acc =
        Perm.trans (leaves-add_query n (build_primary fp b p) acc)
          (Perm.append_left (of_collected acc) (primary_leaves p))

    primary_leaves :
        (e : Primary) → Perm (leaves (build_primary fp b e)) (queries (clauses_primary e))
    primary_leaves (group e) = expression_leaves e
    primary_leaves (clause c) = rw (leaves-build_clause c) (Perm.refl (build_clause fp b c ∷ []))

  -- The queries in the DSL of an expression that are not `bool` queries are, up to their order,
  -- those of its clauses, each as often as its clause stands in the expression.
  pub build_expression-leaves :
      (e : Expression)
      → Perm (leaves (build_expression fp b e)) (map (build_clause fp b) (clauses_expression e))
  build_expression-leaves e = expression_leaves e
