-- ===== src/Dcg/Parser/Bodies.antt =====
-- The parser of bodies answers, and it skips no token.
use opensearch_query_gateway.Shared.{ℕ, zero, suc, ◌+◌, ◌*◌, ◌≤◌, ◌<◌, ◌≡◌, refl, arith}
use opensearch_query_gateway.Dcg.{Expr, cons}
use opensearch_query_gateway.Dcg.Lexer.{
  Unicode, TokenType, eof, ident, string, dot, comma, bar, lparen, rparen,
}
use opensearch_query_gateway.Dcg.Lexer.Progress.{weight, weight_of}
use opensearch_query_gateway.Dcg.Parser.{
  Parser, ok, ◌>>=◌, advance, close_paren, parse_expr, parse_options, parse_seq, parse_items,
  parse_item,
}
use opensearch_query_gateway.Dcg.Parser.Reads.{
  IsLegal, left, Ends, Ends->>=, Ends-imp, Reads, here, Reads-trans, advance-left, left-le, read_at,
}

module _ (unicode : Unicode) where
  close_paren-Ends :
      (t : TokenType) (e : Expr) (p : Parser)
      → p.cur.type ≡ t
      → Ends (Reads unicode p) (close_paren unicode t e p)
  unfolding close_paren
  close_paren-Ends rparen e p h = read_at unicode p rparen h tt (here _)
  close_paren-Ends _ e p h = tt

  -- One round of the loop over the items, from what the item and the rounds behind it do.
  items_step :
      (n : ℕ) (t : TokenType) (p : Parser)
      → p.cur.type ≡ t
      → Ends (λ q. IsLegal t × Reads unicode (advance unicode p) q) (parse_item unicode n t p)
      → ((q : Parser)
          → left q < left p
          → Ends (Reads unicode q) (parse_items unicode n q.cur.type q))
      → Ends (Reads unicode p) (
          parse_item unicode n t p >>= λ item.
          parse_items unicode n item.1.cur.type item.1 >>= λ more. ok (cons item.0 more.0) more.1)
  items_step n t p e h later = Ends->>= (Reads unicode p) (parse_item unicode n t p) _ h λ f q r.
      Ends->>= (Reads unicode p) (parse_items unicode n q.cur.type q) _
        (later q (omega (arith, left-le unicode r.1, advance-left unicode p t e r.0)))
        λ es q' r'. read_at unicode p t e r.0 (Reads-trans unicode r.1 r')

  mutual
    unfolding parse_expr parse_options parse_seq parse_items parse_item

    pub expr-Ends :
        (n : ℕ) (p : Parser) → 5 * left p + 3 ≤ n → Ends (Reads unicode p) (parse_expr unicode n p)
    expr-Ends zero p h = absurd (omega arith)
    expr-Ends (suc n) p h =
        Ends->>= (Reads unicode p) (parse_seq unicode n p) _ (seq-Ends n p (omega arith)) λ e q r.
          Ends->>= (Reads unicode p) (parse_options unicode n q.cur.type q) _
            (options-Ends n q.cur.type q refl (omega (arith, left-le unicode r)))
            λ es q' r'. Reads-trans unicode r r'

    options-Ends :
        (n : ℕ) (t : TokenType) (p : Parser)
        → p.cur.type ≡ t
        → 5 * left p + 1 ≤ n
        → Ends (Reads unicode p) (parse_options unicode n t p)
    options-Ends zero t p e h = absurd (omega arith)
    options-Ends (suc n) bar p e h =
        let less = advance-left unicode p bar e tt in
        Ends->>= (Reads unicode p) (parse_seq unicode n (advance unicode p)) _
          (seq-Ends n (advance unicode p) (omega arith))
          λ f q r.
            Ends->>= (Reads unicode p) (parse_options unicode n q.cur.type q) _
              (options-Ends n q.cur.type q refl (omega (arith, left-le unicode r, less)))
              λ es q' r'. read_at unicode p bar e tt (Reads-trans unicode r r')
    options-Ends (suc n) _ p e h = here p

    seq-Ends :
        (n : ℕ) (p : Parser) → 5 * left p + 2 ≤ n → Ends (Reads unicode p) (parse_seq unicode n p)
    seq-Ends zero p h = absurd (omega arith)
    seq-Ends (suc n) p h =
        Ends->>= (Reads unicode p) (parse_items unicode n p.cur.type p) _
          (items-Ends n p.cur.type p refl (omega arith)) λ es q r. r

    items-Ends :
        (n : ℕ) (t : TokenType) (p : Parser)
        → p.cur.type ≡ t
        → 5 * left p + 1 ≤ n
        → Ends (Reads unicode p) (parse_items unicode n t p)
    items-Ends zero t p e h = absurd (omega arith)
    items-Ends (suc n) eof p e h = here p
    items-Ends (suc n) dot p e h = here p
    items-Ends (suc n) bar p e h = here p
    items-Ends (suc n) rparen p e h = here p
    items-Ends (suc n) comma p e h =
        let less = advance-left unicode p comma e tt in
        Ends-imp (parse_items unicode n (advance unicode p).cur.type (advance unicode p))
          (items-Ends n (advance unicode p).cur.type (advance unicode p) refl (omega arith))
          λ q r. read_at unicode p comma e tt r
    items-Ends (suc n) t p e h =
        items_step n t p e (item-Ends n t p e refl (omega arith))
          λ q less. items-Ends n q.cur.type q refl (omega arith)

    item-Ends :
        (n : ℕ) (t : TokenType) (p : Parser)
        → p.cur.type ≡ t
        → weight_of t ≡ 1
        → 5 * left p ≤ n
        → Ends (λ q. IsLegal t × Reads unicode (advance unicode p) q) (parse_item unicode n t p)
    item-Ends zero t p e w h = let v : weight p.cur ≡ 1 = rw e w in absurd (omega arith)
    item-Ends (suc n) ident p e w h = (tt, here _)
    item-Ends (suc n) string p e w h = (tt, here _)
    item-Ends (suc n) lparen p e w h =
        let less = advance-left unicode p lparen e tt in
        Ends->>= (λ q. Unit {0} × Reads unicode (advance unicode p) q)
          (parse_expr unicode n (advance unicode p)) _
          (expr-Ends n (advance unicode p) (omega arith))
          λ f q r.
            Ends-imp (close_paren unicode q.cur.type f q) (close_paren-Ends q.cur.type f q refl)
              λ q' r'. (tt, Reads-trans unicode r r')
    item-Ends (suc n) _ p e w h = tt
