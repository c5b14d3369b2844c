-- ===== src/Dcg/Printer/Rules.antt =====
-- The parser reads every printed list of rules.
use mathlib.Core.Path.{subst}
use opensearch_query_gateway.Shared.{
  ℕ, zero, suc, ◌+◌, ◌*◌, ◌≤◌, String, List, [], ◌∷◌, ◌≡◌, refl, sym, ap, arith,
}
use opensearch_query_gateway.Dcg.{Rule}
use opensearch_query_gateway.Dcg.Lexer.{Unicode, TokenType, eof, ident, arrow, dot}
use opensearch_query_gateway.Dcg.Parser.{
  Parser, ok, advance, expect_arrow, expect_dot, head_of, parse_rule, parse_rules_at,
}
use opensearch_query_gateway.Dcg.Parser.Reads.{left}
use opensearch_query_gateway.Dcg.Printer.{Marks, rule_marks, rules_marks, IsNormal, AreRules}
use opensearch_query_gateway.Dcg.Printer.Feeding.{Feeds, Gives, at_type}
use opensearch_query_gateway.Dcg.Printer.Expressions.{less}
use opensearch_query_gateway.Dcg.Printer.Bodies.{body_gives}

module _ (unicode : Unicode) where
  head_read :
      (p : Parser) (name : String)
      → p.cur.type ≡ ident
      → p.cur.value ≡ name
      → head_of unicode p.cur.type p ≡ ok name (advance unicode p)
  unfolding head_of
  head_read p name h v =
      subst (λ (t : TokenType). head_of unicode t p ≡ ok name (advance unicode p)) (sym h)
        (ap (λ (s : String). ok s (advance unicode p)) v)

  arrow_read :
      (p : Parser)
      → p.cur.type ≡ arrow
      → expect_arrow unicode p.cur.type p ≡ ok tt (advance unicode p)
  unfolding expect_arrow
  arrow_read p h =
      subst (λ (t : TokenType). expect_arrow unicode t p ≡ ok tt (advance unicode p)) (sym h) refl

  dot_read :
      (p : Parser) → p.cur.type ≡ dot → expect_dot unicode p.cur.type p ≡ ok tt (advance unicode p)
  unfolding expect_dot
  dot_read p h =
      subst (λ (t : TokenType). expect_dot unicode t p ≡ ok tt (advance unicode p)) (sym h) refl

  rule-Gives :
      (r : Rule) (rest : Marks) (n : ℕ) (p : Parser)
      → IsNormal unicode r.body
      → 5 * left p + 3 ≤ n
      → Feeds unicode p (rule_marks r rest)
      → Gives unicode (parse_rule unicode n p) r rest (left (advance unicode p))
  unfolding rule_marks Feeds parse_rule
  rule-Gives r rest n p normal h f =
      let p₁ = advance unicode p in
      let p₂ = advance unicode p₁ in
      let l₁ = less unicode p ident tt f.0 in
      let l₂ = less unicode p₁ arrow tt f.2.0 in
      let g = body_gives unicode r.body ((dot, ".") ∷ rest) normal tt n p₂ (omega arith) f.2.2 in
      let l₃ = less unicode g.after dot tt g.feeds.0 in
      record {
        after = advance unicode g.after;
        answer =
            rw
              (
                head_read p r.head f.0 f.1,
                arrow_read p₁ f.2.0,
                g.answer,
                dot_read g.after g.feeds.0,
              )
              refl;
        feeds = g.feeds.2;
        less = omega (arith, g.less);
      }

  pub rules_give :
      (rules : List Rule) (n : ℕ) (p : Parser)
      → AreRules unicode rules
      → 5 * left p + 4 ≤ n
      → Feeds unicode p (rules_marks rules)
      → Gives unicode (parse_rules_at unicode n p.cur.type p) rules [] (left p)
  unfolding rules_marks rule_marks Feeds parse_rules_at
  rules_give rules zero p are h f = absurd (omega arith)
  rules_give [] (suc n) p are h f =
      at_type unicode (λ t. parse_rules_at unicode (suc n) t p) [] [] (left p) p eof f
        (record { after = p; answer = refl; feeds = f; less = omega arith })
  rules_give (r ∷ rules) (suc n) p are h f =
      let l = less unicode p ident tt f.0 in
      let g = rule-Gives r (rules_marks rules) n p are.1 (omega arith) f in
      let k = rules_give rules n g.after are.2 (omega (arith, g.less)) g.feeds in
      at_type unicode (λ t. parse_rules_at unicode (suc n) t p) (r ∷ rules) [] (left p) p ident f.0
        (record {
          after = k.after;
          answer = rw (g.answer, k.answer) refl;
          feeds = k.feeds;
          less = omega (arith, k.less, g.less);
        })
