-- ===== src/Dcg/Generator/Goals/Soundness.antt =====
-- What the goals of a clause say, the body of its rule says too.
use opensearch_query_gateway.Shared.{ℕ, ◌+◌, inl, inr, refl}
use opensearch_query_gateway.Dcg.{Expr, Exprs, seq, alt, symbol, terminal, empty, nil, cons}
use opensearch_query_gateway.Dcg.Generator.Goals.{
  Var, fresh, goal_of, seq_goal, part_goals, option_goals, Env, Program, Holds, HoldAll, HoldsAny,
  Takes, TakesAll, TakesAny,
}

abbrev pub HasItem : Exprs → Type 0
HasItem nil = ⊥
HasItem (cons e es) = Unit

module _ (program : Program) where
  mutual
    unfolding goal_of Holds Takes

    pub sound :
        (e : Expr) (a b : Var) (k : ℕ) (env : Env)
        → Holds program env (goal_of e a b k).0
        → Takes program e (env a) (env b)
    sound (symbol name) a b k env h = h
    sound (terminal value) a b k env h = h
    sound (seq items) a b k env h = seq_sound items a b k env h
    sound (alt opts) a b k env h = options_sound opts a b k env h
    sound empty a b k env h = h

    seq_sound :
        (es : Exprs) (a b : Var) (k : ℕ) (env : Env)
        → Holds program env (seq_goal es a b k).0
        → TakesAll program es (env a) (env b)
    seq_sound nil a b k env h = h
    seq_sound (cons e nil) a b k env h = (env b, sound e a b k env h, refl)
    seq_sound (cons e (cons f es)) a b k env h =
        let mid = fresh (k + 1) in
        (
          env mid,
          sound e a mid (k + 1) env h.0,
          parts_sound (cons f es) mid b (goal_of e a mid (k + 1)).1 env tt h.1,
        )

    parts_sound :
        (es : Exprs) (a b : Var) (k : ℕ) (env : Env)
        → HasItem es
        → HoldAll program env (part_goals es a b k).0
        → TakesAll program es (env a) (env b)
    parts_sound nil a b k env i h = absurd i
    parts_sound (cons e nil) a b k env i h = (env b, sound e a b k env h.0, refl)
    parts_sound (cons e (cons f es)) a b k env i h =
        let mid = fresh (k + 1) in
        (
          env mid,
          sound e a mid (k + 1) env h.0,
          parts_sound (cons f es) mid b (goal_of e a mid (k + 1)).1 env tt h.1,
        )

    options_sound :
        (es : Exprs) (a b : Var) (k : ℕ) (env : Env)
        → HoldsAny program env (option_goals es a b k).0
        → TakesAny program es (env a) (env b)
    options_sound nil a b k env h = h
    options_sound (cons e es) a b k env (inl h) = inl (sound e a b k env h)
    options_sound (cons e es) a b k env (inr h) =
        inr (options_sound es a b (goal_of e a b k).1 env h)
