-- ===== src/Dcg/Generator.antt =====
-- internal/dcg/generator.go: from the rules of a grammar to Prolog clauses. The counter of the
-- generator is passed along; `fmt` writes it with `show`.
pub mod Goals
pub mod Quotes
use opensearch_query_gateway.Shared.{ℕ, ◌+◌, String, List, [], ◌∷◌, ◌<>◌, join}
use opensearch_query_gateway.Schema.Atoms.{replace_all}
use opensearch_query_gateway.Dcg.{
  Expr, Exprs, seq, alt, symbol, terminal, empty, nil, cons, Rule, ParseError,
}
use opensearch_query_gateway.Dcg.Lexer.{Unicode}
use opensearch_query_gateway.Dcg.Parser.{Outcome, ok, err, out_of_fuel, parse_rules}

unfoldable pub quote_atom : String → String
unfolding replace_all
quote_atom s = "'" <> replace_all b'\'' "\\'" (replace_all b'\\' "\\\\" s) <> "'"

abbrev pub unify : String → String → String
unify a b = a <> " = " <> b

abbrev pub take_token : String → String → String → String
take_token a value b = a <> " = [" <> quote_atom value <> "|" <> b <> "]"

abbrev pub call : String → String → String → String
call name a b = name <> "(" <> a <> "," <> b <> ")"

-- `Compile`: the text of the clauses, or the error.
pub data Compiled : Type 0 where
  clauses : String → Compiled
  refused : ParseError → Compiled
  unanswered : Compiled

module _ (show : ℕ → String) where
  -- The variable that `fresh` returns when it sets the counter to `n`.
  abbrev pub var_name : ℕ → String
  var_name n = "S" <> show n

  -- The last two arguments are `out` and the counter.
  unfoldable mutual
    pub gen_expr : Expr → String → String → ℕ → String × ℕ
    gen_expr (symbol name) a b k = (call name a b, k)
    gen_expr (terminal value) a b k = (take_token a value b, k)
    gen_expr (seq items) a b k = gen_seq items a b k
    gen_expr (alt opts) a b k =
        let (parts, k') = gen_options opts a b k in ("(" <> join " ; " parts <> ")", k')
    gen_expr empty a b k = (unify a b, k)

    pub gen_seq : Exprs → String → String → ℕ → String × ℕ
    gen_seq nil a b k = (unify a b, k)
    gen_seq (cons e nil) a b k = gen_expr e a b k
    gen_seq (cons e (cons f es)) a b k =
        let (part, k₁) = gen_expr e a (var_name (k + 1)) (k + 1) in
        let (parts, k₂) = gen_parts (cons f es) (var_name (k + 1)) b k₁ in
        (join ", " (part ∷ parts), k₂)

    -- The parts of items of which there is at least one.
    pub gen_parts : Exprs → String → String → ℕ → List String × ℕ
    gen_parts nil a b k = ([], k)
    gen_parts (cons e nil) a b k = let (part, k') = gen_expr e a b k in (part ∷ [], k')
    gen_parts (cons e (cons f es)) a b k =
        let (part, k₁) = gen_expr e a (var_name (k + 1)) (k + 1) in
        let (parts, k₂) = gen_parts (cons f es) (var_name (k + 1)) b k₁ in (part ∷ parts, k₂)

    pub gen_options : Exprs → String → String → ℕ → List String × ℕ
    gen_options nil a b k = ([], k)
    gen_options (cons e es) a b k =
        let (part, k₁) = gen_expr e a b k in
        let (parts, k₂) = gen_options es a b k₁ in (part ∷ parts, k₂)

  unfoldable pub gen_rule : Rule → ℕ → String × ℕ
  gen_rule r k =
      let (body, k') = gen_expr r.body "S0" "S" k in (r.head <> "(S0,S) :- " <> body <> ".", k')

  unfoldable pub gen_rules : List Rule → ℕ → List String
  unfolding gen_rule
  gen_rules [] k = []
  gen_rules (r ∷ rs) k = let (clause, k') = gen_rule r k in clause ∷ gen_rules rs k'

  unfoldable pub generate : List Rule → String
  unfolding gen_rules
  generate rules = join "\n" (gen_rules rules 0)

  unfoldable pub compiled : Outcome (List Rule) → Compiled
  unfolding generate
  compiled (ok rules p) = clauses (generate rules)
  compiled (err e) = refused e
  compiled out_of_fuel = unanswered

  unfoldable pub compile : Unicode → String → Compiled
  unfolding compiled
  compile unicode src = compiled (parse_rules unicode src)
