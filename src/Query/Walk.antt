-- ===== src/Query/Walk.antt =====
-- What `WalkClauses` does, against the plain list of a query's clauses.
use opensearch_query_gateway.Shared.{Bool, ◌≡◌, refl, List, [], ◌∷◌, ◌++◌}
use opensearch_query_gateway.Query.{
  Clause, Expression, OrOps, AndExpr, AndOps, NotExpr, Primary, Query, expression, no_or, or_op,
  and_expr, no_and, and_op, not_expr, group, clause, walk_expression, walk_or_ops, walk_and,
  walk_and_ops, walk_not, walk_primary, walk_clauses,
}

-- The clauses of a query, from left to right, whatever groups and operators they stand in.
abbrev mutual
  pub clauses_expression : Expression → List Clause
  clauses_expression (expression l r) = clauses_and l ++ clauses_or_ops r

  pub clauses_or_ops : OrOps → List Clause
  clauses_or_ops no_or = []
  clauses_or_ops (or_op op r more) = clauses_and r ++ clauses_or_ops more

  pub clauses_and : AndExpr → List Clause
  clauses_and (and_expr l r) = clauses_not l ++ clauses_and_ops r

  pub clauses_and_ops : AndOps → List Clause
  clauses_and_ops no_and = []
  clauses_and_ops (and_op op r more) = clauses_not r ++ clauses_and_ops more

  pub clauses_not : NotExpr → List Clause
  clauses_not (not_expr n p) = clauses_primary p

  pub clauses_primary : Primary → List Clause
  clauses_primary (group e) = clauses_expression e
  clauses_primary (clause c) = c ∷ []

-- The query with its clauses taken out: its groups, operators and negations.
pub data Skeleton : Type 0 where
  leaf : Skeleton
  negation : Bool → Skeleton → Skeleton
  pair : Skeleton → Skeleton → Skeleton
  stop : Skeleton

abbrev mutual
  pub skeleton_expression : Expression → Skeleton
  skeleton_expression (expression l r) = pair (skeleton_and l) (skeleton_or_ops r)

  pub skeleton_or_ops : OrOps → Skeleton
  skeleton_or_ops no_or = stop
  skeleton_or_ops (or_op op r more) = pair (skeleton_and r) (skeleton_or_ops more)

  pub skeleton_and : AndExpr → Skeleton
  skeleton_and (and_expr l r) = pair (skeleton_not l) (skeleton_and_ops r)

  pub skeleton_and_ops : AndOps → Skeleton
  skeleton_and_ops no_and = stop
  skeleton_and_ops (and_op op r more) = pair (skeleton_not r) (skeleton_and_ops more)

  pub skeleton_not : NotExpr → Skeleton
  skeleton_not (not_expr n p) = negation n (skeleton_primary p)

  pub skeleton_primary : Primary → Skeleton
  skeleton_primary (group e) = skeleton_expression e
  skeleton_primary (clause c) = leaf

module _ {ℓ} {S : Type ℓ} (fn : Clause → S → Clause × S) where
  -- A loop over a list of clauses, each call seeing the state that the one before it left.
  abbrev pub walk_list : List Clause → S → List Clause × S
  walk_list [] s = ([], s)
  walk_list (c ∷ cs) s = let (c', s₁) = fn c s in let (cs', s₂) = walk_list cs s₁ in (c' ∷ cs', s₂)

  walk_list-append :
      (xs ys : List Clause) (s : S)
      → walk_list (xs ++ ys) s ≡ (
        (walk_list xs s).0 ++ (walk_list ys (walk_list xs s).1).0,
        (walk_list ys (walk_list xs s).1).1,
      )
  walk_list-append [] ys s = refl
  walk_list-append (x ∷ xs) ys s = rw (walk_list-append xs ys (fn x s).1)

  mutual
    unfolding walk_expression

    walk_expression_lem :
        (e : Expression) (s : S)
        → walk_list (clauses_expression e) s
          ≡ (clauses_expression (walk_expression fn e s).0, (walk_expression fn e s).1)
    walk_expression_lem (expression l r) s = rw (
      walk_list-append (clauses_and l) (clauses_or_ops r) s,
      walk_and_lem l s,
      walk_or_ops_lem r (walk_and fn l s).1,
    )

    walk_or_ops_lem :
        (e : OrOps) (s : S)
        → walk_list (clauses_or_ops e) s
          ≡ (clauses_or_ops (walk_or_ops fn e s).0, (walk_or_ops fn e s).1)
    walk_or_ops_lem no_or s = refl
    walk_or_ops_lem (or_op op r more) s = rw (
      walk_list-append (clauses_and r) (clauses_or_ops more) s,
      walk_and_lem r s,
      walk_or_ops_lem more (walk_and fn r s).1,
    )

    walk_and_lem :
        (e : AndExpr) (s : S)
        → walk_list (clauses_and e) s ≡ (clauses_and (walk_and fn e s).0, (walk_and fn e s).1)
    walk_and_lem (and_expr l r) s = rw (
      walk_list-append (clauses_not l) (clauses_and_ops r) s,
      walk_not_lem l s,
      walk_and_ops_lem r (walk_not fn l s).1,
    )

    walk_and_ops_lem :
        (e : AndOps) (s : S)
        → walk_list (clauses_and_ops e) s
          ≡ (clauses_and_ops (walk_and_ops fn e s).0, (walk_and_ops fn e s).1)
    walk_and_ops_lem no_and s = refl
    walk_and_ops_lem (and_op op r more) s = rw (
      walk_list-append (clauses_not r) (clauses_and_ops more) s,
      walk_not_lem r s,
      walk_and_ops_lem more (walk_not fn r s).1,
    )

    walk_not_lem :
        (e : NotExpr) (s : S)
        → walk_list (clauses_not e) s ≡ (clauses_not (walk_not fn e s).0, (walk_not fn e s).1)
    walk_not_lem (not_expr n p) s = walk_primary_lem p s

    walk_primary_lem :
        (e : Primary) (s : S)
        → walk_list (clauses_primary e) s
          ≡ (clauses_primary (walk_primary fn e s).0, (walk_primary fn e s).1)
    walk_primary_lem (group e) s = walk_expression_lem e s
    walk_primary_lem (clause c) s = refl

  mutual
    unfolding walk_expression

    skeleton_expression-walk :
        (e : Expression) (s : S)
        → skeleton_expression (walk_expression fn e s).0 ≡ skeleton_expression e
    skeleton_expression-walk (expression l r) s =
        rw (skeleton_and-walk l s, skeleton_or_ops-walk r (walk_and fn l s).1)

    skeleton_or_ops-walk :
        (e : OrOps) (s : S) → skeleton_or_ops (walk_or_ops fn e s).0 ≡ skeleton_or_ops e
    skeleton_or_ops-walk no_or s = refl
    skeleton_or_ops-walk (or_op op r more) s =
        rw (skeleton_and-walk r s, skeleton_or_ops-walk more (walk_and fn r s).1)

    skeleton_and-walk : (e : AndExpr) (s : S) → skeleton_and (walk_and fn e s).0 ≡ skeleton_and e
    skeleton_and-walk (and_expr l r) s =
        rw (skeleton_not-walk l s, skeleton_and_ops-walk r (walk_not fn l s).1)

    skeleton_and_ops-walk :
        (e : AndOps) (s : S) → skeleton_and_ops (walk_and_ops fn e s).0 ≡ skeleton_and_ops e
    skeleton_and_ops-walk no_and s = refl
    skeleton_and_ops-walk (and_op op r more) s =
        rw (skeleton_not-walk r s, skeleton_and_ops-walk more (walk_not fn r s).1)

    skeleton_not-walk : (e : NotExpr) (s : S) → skeleton_not (walk_not fn e s).0 ≡ skeleton_not e
    skeleton_not-walk (not_expr n p) s = rw (skeleton_primary-walk p s)

    skeleton_primary-walk :
        (e : Primary) (s : S) → skeleton_primary (walk_primary fn e s).0 ≡ skeleton_primary e
    skeleton_primary-walk (group e) s = skeleton_expression-walk e s
    skeleton_primary-walk (clause c) s = refl

-- `WalkClauses` calls the function once for each clause of the query, from left to right, each
-- call seeing the state that the call before it left; the changed clauses stand in the same
-- places, and the groups, operators and negations around them are those of the query given.
pub walk_clauses_visits :
    {S : Type 0} (fn : Clause → S → Clause × S) (q : Query) (s : S)
    → (clauses_expression (walk_clauses fn q s).0.root
        ≡ (walk_list fn (clauses_expression q.root) s).0)
      × ((walk_clauses fn q s).1 ≡ (walk_list fn (clauses_expression q.root) s).1)
      × (skeleton_expression (walk_clauses fn q s).0.root ≡ skeleton_expression q.root)
unfolding walk_clauses
walk_clauses_visits fn q s = (
  rw (walk_expression_lem fn q.root s),
  rw (walk_expression_lem fn q.root s),
  skeleton_expression-walk fn q.root s,
)
