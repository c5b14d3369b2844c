-- ===== src/Builder/Meaning.antt =====
-- The DSL that the builder makes of a query means what the query means.
use mathlib.Core.Path.{fun_ext}
use mathlib.Core.Bool.{and_assoc, and-true, true-and, and-false, or-false}
use opensearch_query_gateway.Shared.{
  ℕ, ◌+◌, Bool, true, false, not, ◌&&◌, ◌||◌, List, [], ◌∷◌, ◌++◌, ◌≡◌, refl, sym, ◌∙◌,
  if◌then◌else◌, leb, arith, ap,
}
use opensearch_query_gateway.Json.{Json, of_list, set_prop}
use opensearch_query_gateway.BoolQuery.{matches, matches_elems, misses_elems, count_elems}
use opensearch_query_gateway.Query.{
  Clause, Expression, OrOps, AndExpr, AndOps, NotExpr, Primary, expression, no_or, or_op, and_expr,
  no_and, and_op, not_expr, group, clause,
}
use opensearch_query_gateway.Query.Meaning.{
  holds_expression, holds_or_ops, holds_and, holds_and_ops, holds_not, holds_primary,
}
use opensearch_query_gateway.Dsl.{
  Floats, range_clause, range_params, match_clause, phrase_clause, fuzzy_clause, wildcard_clause,
  compare_clause,
}
use opensearch_query_gateway.Builder.{
  Builder, Collected, add_query, bool_query, and_query, or_query, build_clause, build_expression,
  build_or_ops, build_and, collect_ops, collect, build_primary,
}

one_more : (m : Bool) (n : ℕ) → leb 1 ((if m then 1 else 0) + n) ≡ m || leb 1 n
one_more true n = ground arith
one_more false n = ground arith

and_right_comm : (a b c : Bool) → (a && b) && c ≡ (a && c) && b
and_right_comm true true c = sym (and-true c)
and_right_comm true false c = sym (and-false c)
and_right_comm false b c = refl

clause_kinds : Unit {0}
unfolding matches build_clause range_clause range_params compare_clause match_clause phrase_clause
    fuzzy_clause wildcard_clause
clause_kinds = tt

module _ {F : Type 0} (leaf : Json F → Bool) where
  -- The positive queries match, and the negative ones do not.
  abbrev conj : List (Json F) → List (Json F) → Bool
  conj must must_not = matches_elems leaf (of_list must) && misses_elems leaf (of_list must_not)

  matches_elems-append :
      (xs : List (Json F)) (q : Json F)
      → matches_elems leaf (of_list (xs ++ q ∷ []))
        ≡ matches_elems leaf (of_list xs) && matches leaf q
  unfolding matches
  matches_elems-append [] q = ground arith
  matches_elems-append (x ∷ xs) q = ground (arith, matches_elems-append xs q)

  misses_elems-append :
      (xs : List (Json F)) (q : Json F)
      → misses_elems leaf (of_list (xs ++ q ∷ []))
        ≡ misses_elems leaf (of_list xs) && not (matches leaf q)
  unfolding matches
  misses_elems-append [] q = ground arith
  misses_elems-append (x ∷ xs) q = ground (arith, misses_elems-append xs q)

  matches-bool_query :
      (must must_not : List (Json F)) → matches leaf (bool_query must must_not) ≡ conj must must_not
  unfolding matches bool_query set_prop
  matches-bool_query [] [] = refl
  matches-bool_query [] (x ∷ xs) = simp (and-true, true-and)
  matches-bool_query (q ∷ qs) [] = refl
  matches-bool_query (q ∷ qs) (x ∷ xs) = simp (and-true)

  matches-and_query :
      (must must_not : List (Json F)) → matches leaf (and_query must must_not) ≡ conj must must_not
  unfolding and_query
  matches-and_query [] must_not = matches-bool_query [] must_not
  matches-and_query (q ∷ []) [] = unfold matches in simp and-true
  matches-and_query (q ∷ []) (x ∷ xs) = matches-bool_query (q ∷ []) (x ∷ xs)
  matches-and_query (q ∷ p ∷ qs) must_not = matches-bool_query (q ∷ p ∷ qs) must_not

  abbrev any : List (Json F) → Bool
  any [] = false
  any (q ∷ qs) = matches leaf q || any qs

  one_matches : (qs : List (Json F)) → leb 1 (count_elems leaf (of_list qs)) ≡ any qs
  unfolding matches
  one_matches [] = refl
  one_matches (q ∷ qs) =
      one_more (matches leaf q) (count_elems leaf (of_list qs))
      ∙ ap (λ rest. matches leaf q || rest) (one_matches qs)

  matches_should :
      (first q : Json F) (qs : List (Json F))
      → matches leaf (or_query first (q ∷ qs)) ≡ leb 1 (count_elems leaf (of_list (first ∷ q ∷ qs)))
  unfolding or_query matches
  matches_should first q qs = and-true _

  matches-or_query :
      (first : Json F) (qs : List (Json F))
      → matches leaf (or_query first qs) ≡ matches leaf first || any qs
  matches-or_query first [] = unfold or_query in sym (or-false (matches leaf first))
  matches-or_query first (q ∷ qs) = matches_should first q qs ∙ one_matches (first ∷ q ∷ qs)

  abbrev conj_of : Collected F → Bool
  conj_of acc = conj acc.must acc.must_not

  no_queries : conj [] [] ≡ true
  unfolding matches
  no_queries = refl

  conj-add_query :
      (negated : Bool) (q : Json F) (acc : Collected F)
      → conj_of (add_query negated q acc)
        ≡ conj_of acc && (if negated then not (matches leaf q) else matches leaf q)
  unfolding add_query
  conj-add_query true q acc = rw (misses_elems-append acc.must_not q) (
      sym (
        and_assoc (matches_elems leaf (of_list acc.must)) (misses_elems leaf (of_list acc.must_not))
          (not (matches leaf q))))
  conj-add_query false q acc = rw (matches_elems-append acc.must q) (
      and_right_comm (matches_elems leaf (of_list acc.must)) (matches leaf q)
        (misses_elems leaf (of_list acc.must_not)))

  module _ (fp : Floats F) (b : Builder) where
    abbrev pub clause_matches : Clause → Bool
    clause_matches c = matches leaf (build_clause fp b c)

    mutual
      unfolding build_expression holds_expression

      expression_means :
          (e : Expression)
          → matches leaf (build_expression fp b e) ≡ holds_expression clause_matches e
      expression_means (expression l r) =
          matches-or_query (build_and fp b l) (build_or_ops fp b r)
          ∙ rw (and_means l, or_ops_mean r)

      or_ops_mean : (e : OrOps) → any (build_or_ops fp b e) ≡ holds_or_ops clause_matches e
      or_ops_mean no_or = refl
      or_ops_mean (or_op op r more) = rw (and_means r, or_ops_mean more)

      and_means : (e : AndExpr) → matches leaf (build_and fp b e) ≡ holds_and clause_matches e
      and_means (and_expr l r) =
          matches-and_query _ _
          ∙ and_ops_mean r (collect fp b l (record { must = []; must_not = [] }))
          ∙ rw (not_means l (record { must = []; must_not = [] }), no_queries)

      and_ops_mean :
          (e : AndOps) (acc : Collected F)
          → conj_of (collect_ops fp b e acc) ≡ conj_of acc && holds_and_ops clause_matches e
      and_ops_mean no_and acc = sym (and-true _)
      and_ops_mean (and_op op r more) acc =
          and_ops_mean more (collect fp b r acc)
          ∙ rw (not_means r acc) (
              and_assoc (conj_of acc) (holds_not clause_matches r)
                (holds_and_ops clause_matches more))

      not_means :
          (e : NotExpr) (acc : Collected F)
          → conj_of (collect fp b e acc) ≡ conj_of acc && holds_not clause_matches e
      not_means (not_expr n p) acc =
          conj-add_query n (build_primary fp b p) acc ∙ rw (primary_means p)

      primary_means :
          (e : Primary) → matches leaf (build_primary fp b e) ≡ holds_primary clause_matches e
      primary_means (group e) = expression_means e
      primary_means (clause c) = refl

    -- The query of a clause is never a `bool` query.
    clause_matches_leaf : (c : Clause) → clause_matches c ≡ leaf (build_clause fp b c)
    unfolding clause_kinds
    clause_matches_leaf c = ground arith

    pub build_expression_means :
        (e : Expression)
        → matches leaf (build_expression fp b e)
          ≡ holds_expression (λ c. leaf (build_clause fp b c)) e
    build_expression_means e = rw (← fun_ext clause_matches_leaf) (expression_means e)
