-- ===== src/Dcg/Parser.antt =====
-- internal/dcg/parser.go: the rules of a grammar from its tokens. The parser's methods take its
-- state and return it; each call takes one from the fuel.
pub mod Reads
pub mod Bodies
pub mod Total
use opensearch_query_gateway.Shared.{ℕ, zero, suc, ◌+◌, ◌*◌, String, List, [], ◌∷◌, ◌<>◌}
use opensearch_query_gateway.Dcg.{
  Expr, Exprs, seq, alt, symbol, terminal, empty, nil, cons, Rule, ParseError,
}
use opensearch_query_gateway.Dcg.Lexer.{
  Unicode, TokenType, eof, ident, string, arrow, dot, comma, bar, lparen, rparen, illegal, Token,
  Lexer, new_lexer, next_token,
}
use opensearch_query_gateway.Dcg.Lexer.Progress.{chars}

pub record Parser : Type 0 where
  pub lx : Lexer
  pub cur : Token
  pub peek : Token

-- What a method returns: a value with the parser's new state, an error, or no answer for want of
-- fuel.
pub data Outcome (A : Type 0) : Type 0 where
  ok : A → Parser → Outcome A
  err : ParseError → Outcome A
  out_of_fuel : Outcome A

infixl 5 ◌>>=◌
abbrev pub ◌>>=◌ : {A B : Type 0} → Outcome A → (A × Parser → Outcome B) → Outcome B
ok a p >>= next = next (a, p)
err e >>= next = err e
out_of_fuel >>= next = out_of_fuel

abbrev pub error_at : {A : Type 0} → Parser → String → Outcome A
error_at p msg = err (record { pos = p.cur.pos; msg = msg })

-- `unexpected` and the token's text.
abbrev pub unexpected : {A : Type 0} → Parser → Outcome A
unexpected p = error_at p ("unexpected " <> p.cur.value)

-- An error for a token that is not `wanted`.
abbrev pub wrong : {A : Type 0} → TokenType → String → Parser → Outcome A
wrong illegal expected p = unexpected p
wrong _ expected p = error_at p expected

-- The end of `parseSeq`.
unfoldable pub seq_of : Exprs → Expr
seq_of nil = empty
seq_of (cons e nil) = e
seq_of (cons e (cons f es)) = seq (cons e (cons f es))

-- The end of `parseExpr`.
unfoldable pub alt_of : Expr → Exprs → Expr
alt_of left nil = left
alt_of left (cons e es) = alt (cons left (cons e es))

module _ (unicode : Unicode) where
  unfoldable pub advance : Parser → Parser
  advance p = let (t, lx) = next_token unicode p.lx in record { lx = lx; cur = p.peek; peek = t }

  unfoldable pub new_parser : String → Parser
  new_parser input =
      let (cur, lx₁) = next_token unicode (new_lexer input) in
      let (peek, lx₂) = next_token unicode lx₁ in record { lx = lx₂; cur = cur; peek = peek }

  unfoldable pub close_paren : TokenType → Expr → Parser → Outcome Expr
  close_paren rparen e p = ok e (advance p)
  close_paren _ e p = error_at p "expected )"

  -- The type of the current token comes first, since each method branches on it.
  unfoldable mutual
    unfolding close_paren seq_of alt_of

    pub parse_expr : ℕ → Parser → Outcome Expr
    parse_expr zero p = out_of_fuel
    parse_expr (suc n) p = do
      left ← parse_seq n p
      opts ← parse_options n left.1.cur.type left.1
      ok (alt_of left.0 opts.0) opts.1

    pub parse_options : ℕ → TokenType → Parser → Outcome Exprs
    parse_options zero type p = out_of_fuel
    parse_options (suc n) bar p = do
      right ← parse_seq n (advance p)
      more ← parse_options n right.1.cur.type right.1
      ok (cons right.0 more.0) more.1
    parse_options (suc n) _ p = ok nil p

    pub parse_seq : ℕ → Parser → Outcome Expr
    parse_seq zero p = out_of_fuel
    parse_seq (suc n) p = do items ← parse_items n p.cur.type p; ok (seq_of items.0) items.1

    pub parse_items : ℕ → TokenType → Parser → Outcome Exprs
    parse_items zero type p = out_of_fuel
    parse_items (suc n) eof p = ok nil p
    parse_items (suc n) dot p = ok nil p
    parse_items (suc n) bar p = ok nil p
    parse_items (suc n) rparen p = ok nil p
    parse_items (suc n) comma p = parse_items n (advance p).cur.type (advance p)
    parse_items (suc n) type p = do
      item ← parse_item n type p
      more ← parse_items n item.1.cur.type item.1
      ok (cons item.0 more.0) more.1

    pub parse_item : ℕ → TokenType → Parser → Outcome Expr
    parse_item zero type p = out_of_fuel
    parse_item (suc n) ident p = ok (symbol p.cur.value) (advance p)
    parse_item (suc n) string p = ok (terminal p.cur.value) (advance p)
    parse_item (suc n) lparen p = do e ← parse_expr n (advance p); close_paren e.1.cur.type e.0 e.1
    parse_item (suc n) illegal p = unexpected p
    parse_item (suc n) _ p = error_at p "expected symbol or string"

  unfoldable pub parse_ident : TokenType → Parser → Outcome String
  parse_ident ident p = ok p.cur.value (advance p)
  parse_ident _ p = error_at p "expected identifier"

  unfoldable pub expect_arrow : TokenType → Parser → Outcome (Unit {0})
  expect_arrow arrow p = ok tt (advance p)
  expect_arrow _ p = error_at p "expected -->"

  unfoldable pub expect_dot : TokenType → Parser → Outcome (Unit {0})
  expect_dot dot p = ok tt (advance p)
  expect_dot type p = wrong type "expected ." p

  unfoldable pub head_of : TokenType → Parser → Outcome String
  unfolding parse_ident
  head_of illegal p = unexpected p
  head_of type p = parse_ident type p

  unfoldable pub parse_rule : ℕ → Parser → Outcome Rule
  unfolding head_of expect_arrow expect_dot parse_expr
  parse_rule n p = do
    head ← head_of p.cur.type p
    begun ← expect_arrow head.1.cur.type head.1
    body ← parse_expr n begun.1
    done ← expect_dot body.1.cur.type body.1
    ok (record { head = head.0; body = body.0 }) done.1

  unfoldable pub parse_rules_at : ℕ → TokenType → Parser → Outcome (List Rule)
  unfolding parse_rule
  parse_rules_at zero type p = out_of_fuel
  parse_rules_at (suc n) eof p = ok [] p
  parse_rules_at (suc n) type p = do
    r ← parse_rule n p
    rules ← parse_rules_at n r.1.cur.type r.1
    ok (r.0 ∷ rules.0) rules.1

  -- Five for each character are enough.
  abbrev pub fuel_for : String → ℕ
  fuel_for input = 5 * chars input + 4

  unfoldable pub parse_rules : String → Outcome (List Rule)
  unfolding parse_rules_at new_parser
  parse_rules input = let p = new_parser input in parse_rules_at (fuel_for input) p.cur.type p
