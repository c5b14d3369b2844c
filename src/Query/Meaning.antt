-- ===== src/Query/Meaning.antt =====
-- What a query means: OR binds loosest, then AND (written or not), then NOT; parentheses group.
use opensearch_query_gateway.Shared.{Bool, true, false, not, ◌&&◌, ◌||◌, if◌then◌else◌}
use opensearch_query_gateway.Query.{
  Clause, Expression, OrOps, AndExpr, AndOps, NotExpr, Primary, expression, no_or, or_op, and_expr,
  no_and, and_op, not_expr, group, clause,
}

-- `holds` says of each clause whether the document satisfies it.
module _ (holds : Clause → Bool) where
  unfoldable mutual
    pub holds_expression : Expression → Bool
    holds_expression (expression l r) = holds_and l || holds_or_ops r

    pub holds_or_ops : OrOps → Bool
    holds_or_ops no_or = false
    holds_or_ops (or_op op r more) = holds_and r || holds_or_ops more

    pub holds_and : AndExpr → Bool
    holds_and (and_expr l r) = holds_not l && holds_and_ops r

    pub holds_and_ops : AndOps → Bool
    holds_and_ops no_and = true
    holds_and_ops (and_op op r more) = holds_not r && holds_and_ops more

    pub holds_not : NotExpr → Bool
    holds_not (not_expr negated p) = if negated then not (holds_primary p) else holds_primary p

    pub holds_primary : Primary → Bool
    holds_primary (group e) = holds_expression e
    holds_primary (clause c) = holds c
