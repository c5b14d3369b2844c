-- ===== src/Dcg/Printer/Steps.antt =====
-- What the parser's methods make of given tokens, step by step.
use mathlib.Core.Path.{subst}
use opensearch_query_gateway.Shared.{ℕ, zero, suc, ◌≤◌, [], ◌∷◌, ◌≡◌, refl, sym, arith}
use opensearch_query_gateway.Dcg.{Expr, Exprs, nil, cons}
use opensearch_query_gateway.Dcg.Lexer.{
  Unicode, TokenType, ident, string, dot, comma, bar, lparen, rparen,
}
use opensearch_query_gateway.Dcg.Parser.{
  Parser, ok, ◌>>=◌, seq_of, alt_of, advance, close_paren, parse_expr, parse_options, parse_seq,
  parse_items, parse_item,
}
use opensearch_query_gateway.Dcg.Parser.Reads.{left, advance-left}
use opensearch_query_gateway.Dcg.Printer.{Marks, closing}
use opensearch_query_gateway.Dcg.Printer.Feeding.{
  IsStop, IsEnd, Stops, EndsBody, IsFirst, Feeds, Gives, here-Gives, then-Gives, at_type,
}

module _ (unicode : Unicode) where
  pub stop_items :
      (n : ℕ) (p : Parser) (ms : Marks)
      → 1 ≤ n
      → Stops ms
      → Feeds unicode p ms
      → Gives unicode (parse_items unicode n p.cur.type p) nil ms (left p)
  unfolding Feeds parse_items
  stop_items n p [] h s f = absurd s
  stop_items n p ((t, v) ∷ ms) h s f =
      at_type unicode (λ u. parse_items unicode n u p) nil ((t, v) ∷ ms) (left p) p t f.0
        (stop n t h s (here-Gives unicode nil p ((t, v) ∷ ms) f))
    where
      stop :
          (n : ℕ) (t : TokenType)
          → 1 ≤ n
          → IsStop t
          → Gives unicode (ok nil p) nil ((t, v) ∷ ms) (left p)
          → Gives unicode (parse_items unicode n t p) nil ((t, v) ∷ ms) (left p)
      stop zero t h s g = absurd (omega arith)
      stop (suc n) dot h s g = g
      stop (suc n) bar h s g = g
      stop (suc n) rparen h s g = g
      stop (suc n) _ h s g = absurd s

  -- The first item, and the other items from what it leaves.
  pub first_item :
      (n : ℕ) (p : Parser) (t : TokenType) (e : Expr) (es : Exprs) (mid rest : Marks) (b : ℕ)
      → IsFirst t
      → p.cur.type ≡ t
      → Gives unicode (parse_item unicode n p.cur.type p) e mid b
      → ((q : Parser)
          → Feeds unicode q mid
          → left q ≤ b
          → Gives unicode (parse_items unicode n q.cur.type q) es rest (left q))
      → Gives unicode (parse_items unicode (suc n) p.cur.type p) (cons e es) rest b
  unfolding parse_items
  first_item n p t e es mid rest b i h g later =
      at_type unicode (λ u. parse_items unicode (suc n) u p) (cons e es) rest b p t h
        (step t i (
          then-Gives unicode (parse_item unicode n t p)
            (λ r. parse_items unicode n r.1.cur.type r.1) cons e es mid rest b
            (subst (λ (u : TokenType). Gives unicode (parse_item unicode n u p) e mid b) h g)
            later))
    where
      step :
          (t : TokenType)
          → IsFirst t
          → Gives unicode
              (parse_item unicode n t p >>= λ r.
                parse_items unicode n r.1.cur.type r.1 >>= λ m. ok (cons r.0 m.0) m.1)
              (cons e es)
              rest
              b
          → Gives unicode (parse_items unicode (suc n) t p) (cons e es) rest b
      step ident i g = g
      step string i g = g
      step lparen i g = g
      step _ i g = absurd i

  pub skip_comma :
      (n : ℕ) (p : Parser) (es : Exprs) (rest : Marks) (b : ℕ)
      → p.cur.type ≡ comma
      → Gives unicode
          (parse_items unicode n (advance unicode p).cur.type (advance unicode p))
          es
          rest
          b
      → Gives unicode (parse_items unicode (suc n) p.cur.type p) es rest b
  unfolding parse_items
  skip_comma n p es rest b h g =
      at_type unicode (λ u. parse_items unicode (suc n) u p) es rest b p comma h g

  pub seq_of_items :
      (n : ℕ) (p : Parser) (es : Exprs) (rest : Marks) (b : ℕ)
      → Gives unicode (parse_items unicode n p.cur.type p) es rest b
      → Gives unicode (parse_seq unicode (suc n) p) (seq_of es) rest b
  unfolding parse_seq
  seq_of_items n p es rest b g = record {
    after = g.after;
    answer = rw g.answer;
    feeds = g.feeds;
    less = g.less;
  }

  pub stop_options :
      (n : ℕ) (p : Parser) (ms : Marks)
      → 1 ≤ n
      → EndsBody ms
      → Feeds unicode p ms
      → Gives unicode (parse_options unicode n p.cur.type p) nil ms (left p)
  unfolding Feeds parse_options
  stop_options n p [] h s f = absurd s
  stop_options n p ((t, v) ∷ ms) h s f =
      at_type unicode (λ u. parse_options unicode n u p) nil ((t, v) ∷ ms) (left p) p t f.0
        (stop n t h s (here-Gives unicode nil p ((t, v) ∷ ms) f))
    where
      stop :
          (n : ℕ) (t : TokenType)
          → 1 ≤ n
          → IsEnd t
          → Gives unicode (ok nil p) nil ((t, v) ∷ ms) (left p)
          → Gives unicode (parse_options unicode n t p) nil ((t, v) ∷ ms) (left p)
      stop zero t h s g = absurd (omega arith)
      stop (suc n) dot h s g = g
      stop (suc n) rparen h s g = g
      stop (suc n) _ h s g = absurd s

  pub next_option :
      (n : ℕ) (p : Parser) (e : Expr) (es : Exprs) (mid rest : Marks) (b : ℕ)
      → p.cur.type ≡ bar
      → Gives unicode (parse_seq unicode n (advance unicode p)) e mid b
      → ((q : Parser)
          → Feeds unicode q mid
          → left q ≤ b
          → Gives unicode (parse_options unicode n q.cur.type q) es rest (left q))
      → Gives unicode (parse_options unicode (suc n) p.cur.type p) (cons e es) rest b
  unfolding parse_options
  next_option n p e es mid rest b h g later =
      at_type unicode (λ u. parse_options unicode (suc n) u p) (cons e es) rest b p bar h
        (then-Gives unicode (parse_seq unicode n (advance unicode p))
          (λ r. parse_options unicode n r.1.cur.type r.1) cons e es mid rest b g later)

  pub expr_of_seq :
      (n : ℕ) (p : Parser) (e : Expr) (es : Exprs) (mid rest : Marks) (b : ℕ)
      → Gives unicode (parse_seq unicode n p) e mid b
      → ((q : Parser)
          → Feeds unicode q mid
          → left q ≤ b
          → Gives unicode (parse_options unicode n q.cur.type q) es rest (left q))
      → Gives unicode (parse_expr unicode (suc n) p) (alt_of e es) rest b
  unfolding parse_expr
  expr_of_seq n p e es mid rest b g later =
      then-Gives unicode (parse_seq unicode n p) (λ r. parse_options unicode n r.1.cur.type r.1)
        alt_of e es mid rest b g later

  pub in_parens :
      (n : ℕ) (p : Parser) (e : Expr) (rest : Marks) (b : ℕ)
      → p.cur.type ≡ lparen
      → Gives unicode (parse_expr unicode n (advance unicode p)) e (closing ∷ rest) b
      → Gives unicode (parse_item unicode (suc n) p.cur.type p) e rest b
  unfolding parse_item Feeds close_paren
  in_parens n p e rest b h g =
      at_type unicode (λ u. parse_item unicode (suc n) u p) e rest b p lparen h
        (record {
          after = advance unicode g.after;
          answer = rw g.answer (closed g.after g.feeds.0);
          feeds = g.feeds.2;
          less = omega (arith, g.less, advance-left unicode g.after rparen g.feeds.0 tt);
        })
    where
      closed :
          (q : Parser)
          → q.cur.type ≡ rparen
          → close_paren unicode q.cur.type e q ≡ ok e (advance unicode q)
      closed q h =
          subst (λ (u : TokenType). close_paren unicode u e q ≡ ok e (advance unicode q)) (sym h)
            refl
