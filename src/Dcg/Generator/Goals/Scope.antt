-- ===== src/Dcg/Generator/Goals/Scope.antt =====
-- The variables of a clause: which of them are in use, and that the counter only grows.
use opensearch_query_gateway.Shared.{
  ℕ, ◌+◌, ◌≤◌, ◌==◌, String, List, ◌≡◌, ◌∙◌, refl, arith, if◌then◌else◌,
}
use opensearch_query_gateway.Dcg.{Expr, Exprs, seq, alt, symbol, terminal, empty, nil, cons}
use opensearch_query_gateway.Dcg.Generator.Goals.{
  Var, input, output, fresh, Env, goal_of, seq_goal, part_goals, option_goals,
}

-- A variable that is in use when the counter is `k`.
abbrev pub IsOld : ℕ → Var → Type 0
IsOld k input = Unit
IsOld k output = Unit
IsOld k (fresh n) = n ≤ k

abbrev pub Agree : ℕ → Env → Env → Type 0
Agree k e₁ e₂ = (v : Var) → IsOld k v → e₂ v ≡ e₁ v

pub IsOld-mono : {k k' : ℕ} (v : Var) → k ≤ k' → IsOld k v → IsOld k' v
IsOld-mono input h o = tt
IsOld-mono output h o = tt
IsOld-mono (fresh n) h o = omega arith

pub Agree-trans :
    {k k' : ℕ} {e₁ e₂ e₃ : Env} → k ≤ k' → Agree k e₁ e₂ → Agree k' e₂ e₃ → Agree k e₁ e₃
Agree-trans h p q v o = q v (IsOld-mono v h o) ∙ p v o

-- The environment that gives the variable `n` a value.
unfoldable pub set : ℕ → List String → Env → Env
set n xs env input = env input
set n xs env output = env output
set n xs env (fresh m) = if m == n then xs else env (fresh m)

pub set-Agree : (k : ℕ) (xs : List String) (env : Env) → Agree k env (set (k + 1) xs env)
unfolding set
set-Agree k xs env input o = refl
set-Agree k xs env output o = refl
set-Agree k xs env (fresh n) o = ground arith

pub set_at : (k : ℕ) (xs : List String) (env : Env) → set k xs env (fresh k) ≡ xs
unfolding set
set_at k xs env = ground arith

mutual
  unfolding goal_of

  pub goal_of-grows : (e : Expr) (a b : Var) (k : ℕ) → k ≤ (goal_of e a b k).1
  goal_of-grows (symbol name) a b k = omega arith
  goal_of-grows (terminal value) a b k = omega arith
  goal_of-grows (seq items) a b k = seq-grows items a b k
  goal_of-grows (alt opts) a b k = options-grow opts a b k
  goal_of-grows empty a b k = omega arith

  seq-grows : (es : Exprs) (a b : Var) (k : ℕ) → k ≤ (seq_goal es a b k).1
  seq-grows nil a b k = omega arith
  seq-grows (cons e nil) a b k = goal_of-grows e a b k
  seq-grows (cons e (cons f es)) a b k = omega (
    arith,
    goal_of-grows e a (fresh (k + 1)) (k + 1),
    parts-grow (cons f es) (fresh (k + 1)) b (goal_of e a (fresh (k + 1)) (k + 1)).1,
  )

  pub parts-grow : (es : Exprs) (a b : Var) (k : ℕ) → k ≤ (part_goals es a b k).1
  parts-grow nil a b k = omega arith
  parts-grow (cons e nil) a b k = goal_of-grows e a b k
  parts-grow (cons e (cons f es)) a b k = omega (
    arith,
    goal_of-grows e a (fresh (k + 1)) (k + 1),
    parts-grow (cons f es) (fresh (k + 1)) b (goal_of e a (fresh (k + 1)) (k + 1)).1,
  )

  pub options-grow : (es : Exprs) (a b : Var) (k : ℕ) → k ≤ (option_goals es a b k).1
  options-grow nil a b k = omega arith
  options-grow (cons e es) a b k =
      omega (arith, goal_of-grows e a b k, options-grow es a b (goal_of e a b k).1)
