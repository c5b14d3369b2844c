-- ===== src/Dcg/Printer/Expressions.antt =====
-- The parser reads every printed expression.
use opensearch_query_gateway.Shared.{ℕ, zero, suc, ◌+◌, ◌*◌, ◌≤◌, String, [], ◌∷◌, ◌≡◌, ap, arith}
use opensearch_query_gateway.Dcg.{Expr, Exprs, symbol, terminal, empty, nil, cons}
use opensearch_query_gateway.Dcg.Lexer.{Unicode, TokenType, ident, string, lparen}
use opensearch_query_gateway.Dcg.Parser.{
  Parser, ok, seq_of, alt_of, advance, parse_expr, parse_options, parse_seq, parse_items,
  parse_item,
}
use opensearch_query_gateway.Dcg.Parser.Reads.{left, IsLegal, advance-left}
use opensearch_query_gateway.Dcg.Printer.{Marks, opening, closing, bar_marks}
use opensearch_query_gateway.Dcg.Printer.Feeding.{
  IsFirst, Stops, EndsBody, EndsBody-Stops, Feeds, Gives, Gives-le, at_type,
}
use opensearch_query_gateway.Dcg.Printer.Steps.{
  stop_items, first_item, seq_of_items, stop_options, expr_of_seq, in_parens,
}

pub bar_marks-Stops : (es : Exprs) (rest : Marks) → EndsBody rest → Stops (bar_marks es rest)
unfolding bar_marks
bar_marks-Stops nil rest h = EndsBody-Stops rest h
bar_marks-Stops (cons e es) rest h = tt

abbrev pub BeginsItem : Marks → Type 0
BeginsItem [] = ⊥
BeginsItem ((t, v) ∷ ms) = IsFirst t

module _ (unicode : Unicode) where
  -- What the methods make of the tokens of an expression, with enough fuel.
  abbrev pub ItemGives : Expr → Marks → Marks → Type 0
  ItemGives e ms rest =
      (n : ℕ) (p : Parser)
      → 5 * left p ≤ n
      → Feeds unicode p ms
      → Gives unicode (parse_item unicode n p.cur.type p) e rest (left (advance unicode p))

  abbrev pub SeqGives : Expr → Marks → Marks → Type 0
  SeqGives e ms rest =
      (n : ℕ) (p : Parser)
      → 5 * left p + 2 ≤ n
      → Feeds unicode p ms
      → Gives unicode (parse_seq unicode n p) e rest (left p)

  abbrev pub ExprGives : Expr → Marks → Marks → Type 0
  ExprGives e ms rest =
      (n : ℕ) (p : Parser)
      → 5 * left p + 3 ≤ n
      → Feeds unicode p ms
      → Gives unicode (parse_expr unicode n p) e rest (left p)

  abbrev pub ItemsGive : Exprs → Marks → Marks → Type 0
  ItemsGive es ms rest =
      (n : ℕ) (p : Parser)
      → 5 * left p + 1 ≤ n
      → Feeds unicode p ms
      → Gives unicode (parse_items unicode n p.cur.type p) es rest (left p)

  abbrev pub OptionsGive : Exprs → Marks → Marks → Type 0
  OptionsGive es ms rest =
      (n : ℕ) (p : Parser)
      → 5 * left p + 1 ≤ n
      → Feeds unicode p ms
      → Gives unicode (parse_options unicode n p.cur.type p) es rest (left p)

  pub less :
      (p : Parser) (t : TokenType)
      → IsLegal t
      → p.cur.type ≡ t
      → suc (left (advance unicode p)) ≤ left p
  less p t l h = advance-left unicode p t h l

  first-IsLegal : (t : TokenType) → IsFirst t → IsLegal t
  first-IsLegal ident i = tt
  first-IsLegal string i = tt
  first-IsLegal lparen i = tt
  first-IsLegal _ i = absurd i

  -- A list of items that begins with the given one.
  pub list_of :
      (e : Expr) (es : Exprs) (ms mid rest : Marks)
      → BeginsItem ms
      → ItemGives e ms mid
      → ItemsGive es mid rest
      → ItemsGive (cons e es) ms rest
  unfolding Feeds
  list_of e es [] mid rest i item later n p h f = absurd i
  list_of e es ((t, v) ∷ ms) mid rest i item later zero p h f = absurd (omega arith)
  list_of e es ((t, v) ∷ ms) mid rest i item later (suc n) p h f =
      let smaller = less p t (first-IsLegal t i) f.0 in
      Gives-le unicode (left (advance unicode p)) (left p) (omega arith) (
        first_item unicode n p t e es mid rest (left (advance unicode p)) i f.0
          (item n p (omega arith) f) λ q g l. later n q (omega arith) g)

  pub seq_of_list :
      (es : Exprs) (ms rest : Marks) → ItemsGive es ms rest → SeqGives (seq_of es) ms rest
  seq_of_list es ms rest items zero p h f = absurd (omega arith)
  seq_of_list es ms rest items (suc n) p h f =
      seq_of_items unicode n p es rest (left p) (items n p (omega arith) f)

  pub stopped : (rest : Marks) → Stops rest → ItemsGive nil rest rest
  stopped rest s n p h f = stop_items unicode n p rest (omega arith) s f

  pub ended : (rest : Marks) → EndsBody rest → OptionsGive nil rest rest
  ended rest s n p h f = stop_options unicode n p rest (omega arith) s f

  pub one :
      (e : Expr) (ms rest : Marks)
      → BeginsItem ms
      → Stops rest
      → ItemGives e ms rest
      → SeqGives e ms rest
  unfolding seq_of
  one e ms rest i s item =
      seq_of_list (cons e nil) ms rest (list_of e nil ms rest rest i item (stopped rest s))

  pub alt_of_options :
      (e : Expr) (es : Exprs) (ms mid rest : Marks)
      → SeqGives e ms mid
      → OptionsGive es mid rest
      → ExprGives (alt_of e es) ms rest
  alt_of_options e es ms mid rest first later zero p h f = absurd (omega arith)
  alt_of_options e es ms mid rest first later (suc n) p h f =
      expr_of_seq unicode n p e es mid rest (left p) (first n p (omega arith) f)
        λ q g l. later n q (omega arith) g

  -- One alternative alone.
  pub alone :
      (e : Expr) (ms rest : Marks) → EndsBody rest → SeqGives e ms rest → ExprGives e ms rest
  unfolding alt_of
  alone e ms rest s first = alt_of_options e nil ms rest rest first (ended rest s)

  pub parens :
      (e : Expr) (ms rest : Marks)
      → ExprGives e ms (closing ∷ rest)
      → ItemGives e (opening ∷ ms) rest
  unfolding Feeds
  parens e ms rest inside zero p h f = let smaller = less p lparen tt f.0 in absurd (omega arith)
  parens e ms rest inside (suc n) p h f =
      let smaller = less p lparen tt f.0 in
      in_parens unicode n p e rest (left (advance unicode p)) f.0
        (inside n (advance unicode p) (omega arith) f.2)

  -- The items that are one token, or an empty pair of parentheses.
  pub symbol_item :
      (name : String) (rest : Marks) → ItemGives (symbol name) ((ident, name) ∷ rest) rest
  unfolding Feeds parse_item
  symbol_item name rest zero p h f = let smaller = less p ident tt f.0 in absurd (omega arith)
  symbol_item name rest (suc n) p h f =
      at_type unicode (λ t. parse_item unicode (suc n) t p) (symbol name) rest
        (left (advance unicode p)) p ident f.0
        (record {
          after = advance unicode p;
          answer = ap (λ (v : String). ok (symbol v) (advance unicode p)) f.1;
          feeds = f.2;
          less = omega arith;
        })

  pub terminal_item : (v : String) (rest : Marks) → ItemGives (terminal v) ((string, v) ∷ rest) rest
  unfolding Feeds parse_item
  terminal_item v rest zero p h f = let smaller = less p string tt f.0 in absurd (omega arith)
  terminal_item v rest (suc n) p h f =
      at_type unicode (λ t. parse_item unicode (suc n) t p) (terminal v) rest
        (left (advance unicode p)) p string f.0
        (record {
          after = advance unicode p;
          answer = ap (λ (v : String). ok (terminal v) (advance unicode p)) f.1;
          feeds = f.2;
          less = omega arith;
        })

  pub empty_item : (rest : Marks) → ItemGives empty (opening ∷ closing ∷ rest) rest
  unfolding seq_of
  empty_item rest = parens empty (closing ∷ rest) rest (
      alone empty (closing ∷ rest) (closing ∷ rest) tt
        (seq_of_list nil (closing ∷ rest) (closing ∷ rest) (stopped (closing ∷ rest) tt)))
