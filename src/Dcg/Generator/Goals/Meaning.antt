-- ===== src/Dcg/Generator/Goals/Meaning.antt =====
-- A generated clause says of two lists of tokens what the body of its rule says.
use opensearch_query_gateway.Shared.{ℕ, String, List, [], ◌≡◌, ◌↔◌, refl, sym, ◌<>◌}
use opensearch_query_gateway.Dcg.{Rule}
use opensearch_query_gateway.Dcg.Generator.{gen_rule}
use opensearch_query_gateway.Dcg.Generator.Goals.{
  input, output, fresh, goal_of, Env, Program, Holds, Takes, print,
}
use opensearch_query_gateway.Dcg.Generator.Goals.Text.{gen_expr-print}
use opensearch_query_gateway.Dcg.Generator.Goals.Soundness.{sound}
use opensearch_query_gateway.Dcg.Generator.Goals.Completeness.{along, complete}

-- `S0` and `S` have values, and the other variables none yet.
abbrev given : List String → List String → Env
given xs ys input = xs
given xs ys output = ys
given xs ys (fresh n) = []

-- For two lists of tokens and any meaning of the predicates, the body of a rule takes the first
-- list and leaves the second exactly if the variables of its clause have values for which the goals
-- of the clause hold, `S0` being the first list and `S` the second; and the clause is the text of
-- these goals behind the rule's head, whatever the counter is.
pub gen_rule_means :
    (show : ℕ → String) (program : Program) (r : Rule) (k : ℕ) (xs ys : List String)
    → ((gen_rule show r k).0
        ≡ r.head <> "(S0,S) :- " <> print show (goal_of r.body input output k).0 <> ".")
      × (Takes program r.body xs ys ↔ (
          (env : Env) × (env input ≡ xs)
          × (env output ≡ ys)
          × Holds program env (goal_of r.body input output k).0))
unfolding gen_rule
gen_rule_means show program r k xs ys = (
  rw (gen_expr-print show r.body k) refl,
  (
    (λ t.
        let env : Env = given xs ys in
        let (env₁, agree, keep) = complete program r.body input output k env tt tt t in
        (env₁, agree input tt, agree output tt, keep env₁ λ v o. refl)),
    λ (env, p, q, h).
        along (Takes program r.body) (sym p) (sym q) (sound program r.body input output k env h),
  ),
)
