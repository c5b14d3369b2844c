-- ===== src/Dcg/Generator/Goals.antt =====
-- The goals whose text `genExpr` writes, and their meaning: a variable stands for a list of tokens,
-- and a clause holds if its variables have values for which its body holds.
pub mod Text
pub mod Meaning
pub mod Scope
pub mod Soundness
pub mod Completeness
use opensearch_query_gateway.Shared.{
  ℕ, ◌+◌, ◌≤◌, ◌==◌, String, List, [], ◌∷◌, ◌≡◌, ◌⊎◌, if◌then◌else◌, ◌<>◌, join,
}
use opensearch_query_gateway.Dcg.{Expr, Exprs, seq, alt, symbol, terminal, empty, nil, cons}
use opensearch_query_gateway.Dcg.Generator.{unify, take_token, call, var_name}

-- `S0`, `S`, and the variable that the counter `n` gives.
pub data Var : Type 0 where
  input : Var
  output : Var
  fresh : ℕ → Var

mutual
  pub data Goal : Type 0 where
    calls : (name : String) (a b : Var) → Goal
    takes : (a : Var) (value : String) (b : Var) → Goal
    same : (a b : Var) → Goal
    conj : Goals → Goal
    disj : Goals → Goal

  pub data Goals : Type 0 where
    none : Goals
    more : Goal → Goals → Goals

unfoldable mutual
  pub goal_of : Expr → Var → Var → ℕ → Goal × ℕ
  goal_of (symbol name) a b k = (calls name a b, k)
  goal_of (terminal value) a b k = (takes a value b, k)
  goal_of (seq items) a b k = seq_goal items a b k
  goal_of (alt opts) a b k = let (gs, k') = option_goals opts a b k in (disj gs, k')
  goal_of empty a b k = (same a b, k)

  pub seq_goal : Exprs → Var → Var → ℕ → Goal × ℕ
  seq_goal nil a b k = (same a b, k)
  seq_goal (cons e nil) a b k = goal_of e a b k
  seq_goal (cons e (cons f es)) a b k =
      let (g, k₁) = goal_of e a (fresh (k + 1)) (k + 1) in
      let (gs, k₂) = part_goals (cons f es) (fresh (k + 1)) b k₁ in (conj (more g gs), k₂)

  pub part_goals : Exprs → Var → Var → ℕ → Goals × ℕ
  part_goals nil a b k = (none, k)
  part_goals (cons e nil) a b k = let (g, k') = goal_of e a b k in (more g none, k')
  part_goals (cons e (cons f es)) a b k =
      let (g, k₁) = goal_of e a (fresh (k + 1)) (k + 1) in
      let (gs, k₂) = part_goals (cons f es) (fresh (k + 1)) b k₁ in (more g gs, k₂)

  pub option_goals : Exprs → Var → Var → ℕ → Goals × ℕ
  option_goals nil a b k = (none, k)
  option_goals (cons e es) a b k =
      let (g, k₁) = goal_of e a b k in let (gs, k₂) = option_goals es a b k₁ in (more g gs, k₂)

-- The lists of tokens that the variables stand for.
abbrev pub Env : Type 0
Env = Var → List String

-- What each predicate of the program says of the tokens before it and behind it.
abbrev pub Program : Type 1
Program = String → List String → List String → Type 0

module _ (program : Program) where
  unfoldable mutual
    pub Holds : Env → Goal → Type 0
    Holds env (calls name a b) = program name (env a) (env b)
    Holds env (takes a value b) = env a ≡ value ∷ env b
    Holds env (same a b) = env a ≡ env b
    Holds env (conj gs) = HoldAll env gs
    Holds env (disj gs) = HoldsAny env gs

    pub HoldAll : Env → Goals → Type 0
    HoldAll env none = Unit
    HoldAll env (more g gs) = Holds env g × HoldAll env gs

    pub HoldsAny : Env → Goals → Type 0
    HoldsAny env none = ⊥
    HoldsAny env (more g gs) = Holds env g ⊎ HoldsAny env gs

  -- A body of a grammar takes tokens from the front of `xs` and leaves `ys`.
  unfoldable mutual
    pub Takes : Expr → List String → List String → Type 0
    Takes (symbol name) xs ys = program name xs ys
    Takes (terminal value) xs ys = xs ≡ value ∷ ys
    Takes (seq items) xs ys = TakesAll items xs ys
    Takes (alt opts) xs ys = TakesAny opts xs ys
    Takes empty xs ys = xs ≡ ys

    pub TakesAll : Exprs → List String → List String → Type 0
    TakesAll nil xs ys = xs ≡ ys
    TakesAll (cons e es) xs ys = (zs : List String) × Takes e xs zs × TakesAll es zs ys

    pub TakesAny : Exprs → List String → List String → Type 0
    TakesAny nil xs ys = ⊥
    TakesAny (cons e es) xs ys = Takes e xs ys ⊎ TakesAny es xs ys

module _ (show : ℕ → String) where
  abbrev pub name_of : Var → String
  name_of input = "S0"
  name_of output = "S"
  name_of (fresh n) = var_name show n

  unfoldable mutual
    pub print : Goal → String
    print (calls name a b) = call name (name_of a) (name_of b)
    print (takes a value b) = take_token (name_of a) value (name_of b)
    print (same a b) = unify (name_of a) (name_of b)
    print (conj gs) = join ", " (print_all gs)
    print (disj gs) = "(" <> join " ; " (print_all gs) <> ")"

    pub print_all : Goals → List String
    print_all none = []
    print_all (more g gs) = print g ∷ print_all gs
