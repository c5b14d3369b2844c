-- ===== src/Dcg/Generator/Goals/Completeness.antt =====
-- What the body of a rule says, the goals of its clause say too, for some values of the variables
-- that the generator brought in.
use mathlib.Core.Path.{subst}
use opensearch_query_gateway.Shared.{
  ℕ, ◌+◌, ◌≤◌, String, List, ◌∷◌, ◌≡◌, inl, inr, refl, sym, ◌∙◌, arith,
}
use opensearch_query_gateway.Dcg.{Expr, Exprs, seq, alt, symbol, terminal, empty, nil, cons}
use opensearch_query_gateway.Dcg.Generator.Goals.{
  Var, fresh, goal_of, seq_goal, part_goals, option_goals, Env, Program, Holds, HoldAll, HoldsAny,
  Takes, TakesAll, TakesAny,
}
use opensearch_query_gateway.Dcg.Generator.Goals.Scope.{
  IsOld, Agree, IsOld-mono, Agree-trans, set, set-Agree, set_at, goal_of-grows, parts-grow,
  options-grow,
}
use opensearch_query_gateway.Dcg.Generator.Goals.Soundness.{HasItem}

-- What holds of two lists holds of equal ones.
pub along :
    (P : List String → List String → Type 0) {xs xs' ys ys' : List String}
    → xs' ≡ xs
    → ys' ≡ ys
    → P xs ys
    → P xs' ys'
along P {xs} {xs'} {ys} {ys'} p q h =
    subst (λ (zs : List String). P zs ys') (sym p) (subst (λ (zs : List String). P xs zs) (sym q) h)

module _ (program : Program) where
  -- The old variables keep their values, and the goal holds whatever later variables are given.
  abbrev pub Extends : ℕ → ℕ → Env → (Env → Type 0) → Type 0
  Extends k k' env P =
      (env' : Env) × Agree k env env' × ((env'' : Env) → Agree k' env' env'' → P env'')

  -- A goal of one step, which brings in no variable.
  at_once :
      (P : List String → List String → Type 0) (a b : Var) (k : ℕ) (env : Env)
      → IsOld k a
      → IsOld k b
      → P (env a) (env b)
      → Extends k k env (λ env'. P (env' a) (env' b))
  at_once P a b k env oa ob h =
      (env, λ v o. refl, λ env'' agree. along P (agree a oa) (agree b ob) h)

  -- The first of some items, and the others from the variable between them.
  both :
      (a b : Var) (k k₁ k₂ : ℕ) (env : Env) (zs : List String) (P Q : Env → Type 0)
      → k + 1 ≤ k₁
      → k₁ ≤ k₂
      → Extends (k + 1) k₁ (set (k + 1) zs env) P
      → ((env₁ : Env) → Agree (k + 1) (set (k + 1) zs env) env₁ → Extends k₁ k₂ env₁ Q)
      → Extends k k₂ env (λ env'. P env' × Q env')
  both a b k k₁ k₂ env zs P Q h₁ h₂ (env₁, agree₁, keep₁) later =
      let (env₂, agree₂, keep₂) = later env₁ agree₁ in
      (
        env₂,
        Agree-trans (omega arith) (set-Agree k zs env)
            (λ v o. agree₂ v (IsOld-mono v h₁ o) ∙ agree₁ v o),
        λ env'' agree. (keep₁ env'' (Agree-trans h₂ agree₂ agree), keep₂ env'' agree),
      )

  -- What is shown below of an expression, and of a list of parts.
  abbrev pub IsComplete : Expr → Type 0
  IsComplete e =
      (a b : Var) (k : ℕ) (env : Env)
      → IsOld k a
      → IsOld k b
      → Takes program e (env a) (env b)
      → Extends k (goal_of e a b k).1 env (λ env'. Holds program env' (goal_of e a b k).0)

  abbrev AreComplete : Exprs → Type 0
  AreComplete es =
      (a b : Var) (k : ℕ) (env : Env)
      → HasItem es
      → IsOld k a
      → IsOld k b
      → TakesAll program es (env a) (env b)
      → Extends k (part_goals es a b k).1 env (λ env'. HoldAll program env' (part_goals es a b k).0)

  others_complete :
      (e : Expr) (es : Exprs) (a b : Var) (k : ℕ) (env : Env) (zs : List String)
      → HasItem es
      → IsOld k a
      → IsOld k b
      → Takes program e (env a) zs
      → TakesAll program es zs (env b)
      → IsComplete e
      → AreComplete es
      → (let mid = fresh (k + 1) in
          let (g, k₁) = goal_of e a mid (k + 1) in
          let (gs, k₂) = part_goals es mid b k₁ in
          Extends k k₂ env (λ env'. Holds program env' g × HoldAll program env' gs))
  others_complete e es a b k env zs i oa ob t r first later =
      let mid = fresh (k + 1) in
      let k₁ = (goal_of e a mid (k + 1)).1 in
      let grows = goal_of-grows e a mid (k + 1) in
      let agree = set-Agree k zs env in
      both a b k k₁ (part_goals es mid b k₁).1 env zs _ _ grows (parts-grow es mid b k₁)
        (first a mid (k + 1) (set (k + 1) zs env) (IsOld-mono a (omega arith) oa) (omega arith)
          (along (Takes program e) (agree a oa) (set_at (k + 1) zs env) t))
        λ env₁ agree₁. later mid b k₁ env₁ i grows (IsOld-mono b (omega (arith, grows)) ob) (
          along (TakesAll program es) (agree₁ mid (omega arith) ∙ set_at (k + 1) zs env)
            (agree₁ b (IsOld-mono b (omega arith) ob) ∙ agree b ob) r)

  mutual
    unfolding goal_of Holds Takes

    pub complete : (e : Expr) → IsComplete e
    complete (symbol name) a b k env oa ob h = at_once (program name) a b k env oa ob h
    complete (terminal value) a b k env oa ob h =
        at_once (λ xs ys. xs ≡ value ∷ ys) a b k env oa ob h
    complete (seq items) a b k env oa ob h = seq_complete items a b k env oa ob h
    complete (alt opts) a b k env oa ob h = options_complete opts a b k env oa ob h
    complete empty a b k env oa ob h = at_once (λ xs ys. xs ≡ ys) a b k env oa ob h

    seq_complete :
        (es : Exprs) (a b : Var) (k : ℕ) (env : Env)
        → IsOld k a
        → IsOld k b
        → TakesAll program es (env a) (env b)
        → Extends k (seq_goal es a b k).1 env (λ env'. Holds program env' (seq_goal es a b k).0)
    seq_complete nil a b k env oa ob h = at_once (λ xs ys. xs ≡ ys) a b k env oa ob h
    seq_complete (cons e nil) a b k env oa ob (zs, t, p) =
        complete e a b k env oa ob (along (Takes program e) refl (sym p) t)
    seq_complete (cons e (cons f es)) a b k env oa ob (zs, t, r) =
        others_complete e (cons f es) a b k env zs tt oa ob t r (complete e)
          (parts_complete (cons f es))

    parts_complete : (es : Exprs) → AreComplete es
    parts_complete nil a b k env i oa ob h = absurd i
    parts_complete (cons e nil) a b k env i oa ob (zs, t, p) =
        let (env₁, agree₁, keep₁) =
          complete e a b k env oa ob (along (Takes program e) refl (sym p) t) in
        (env₁, agree₁, λ env'' agree. (keep₁ env'' agree, tt))
    parts_complete (cons e (cons f es)) a b k env i oa ob (zs, t, r) =
        others_complete e (cons f es) a b k env zs tt oa ob t r (complete e)
          (parts_complete (cons f es))

    options_complete :
        (es : Exprs) (a b : Var) (k : ℕ) (env : Env)
        → IsOld k a
        → IsOld k b
        → TakesAny program es (env a) (env b)
        → Extends k
            (option_goals es a b k).1
            env
            (λ env'. HoldsAny program env' (option_goals es a b k).0)
    options_complete nil a b k env oa ob h = absurd h
    options_complete (cons e es) a b k env oa ob (inl h) =
        let (env₁, agree₁, keep₁) = complete e a b k env oa ob h in
        (
          env₁,
          agree₁,
          λ env'' agree. inl (
              keep₁ env''
                λ v o. agree v (IsOld-mono v (options-grow es a b (goal_of e a b k).1) o)),
        )
    options_complete (cons e es) a b k env oa ob (inr h) =
        let grows = goal_of-grows e a b k in
        let (env₁, agree₁, keep₁) =
          options_complete es a b (goal_of e a b k).1 env (IsOld-mono a grows oa)
            (IsOld-mono b grows ob) h in
        (env₁, (λ v o. agree₁ v (IsOld-mono v grows o)), λ env'' agree. inr (keep₁ env'' agree))
