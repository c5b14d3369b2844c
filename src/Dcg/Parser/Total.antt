-- ===== src/Dcg/Parser/Total.antt =====
-- The parser of grammars answers, and it skips no token.
use opensearch_query_gateway.Shared.{
  ℕ, zero, suc, ◌+◌, ◌*◌, ◌≤◌, ◌<◌, String, ◌∷◌, ◌≡◌, refl, arith,
}
use opensearch_query_gateway.Dcg.Lexer.{
  Unicode, TokenType, eof, ident, arrow, dot, new_lexer, next_token,
}
use opensearch_query_gateway.Dcg.Lexer.Progress.{chars, next_token-Fits}
use opensearch_query_gateway.Dcg.Parser.{
  Parser, ok, ◌>>=◌, advance, new_parser, parse_expr, expect_arrow, expect_dot, head_of, parse_rule,
  parse_rules_at, fuel_for, parse_rules,
}
use opensearch_query_gateway.Dcg.Parser.Reads.{
  IsLegal, left, Ends, Ends->>=, Reads, here, Reads-trans, advance-left, left-le, read_at,
}
use opensearch_query_gateway.Dcg.Parser.Bodies.{expr-Ends}

module _ (unicode : Unicode) where
  -- A rule was read past its first token.
  abbrev After : TokenType → Parser → Parser → Type 0
  After t p q = IsLegal t × Reads unicode (advance unicode p) q

  head_of-Ends : (t : TokenType) (p : Parser) → Ends (After t p) (head_of unicode t p)
  unfolding head_of
  head_of-Ends ident p = (tt, here _)
  head_of-Ends _ p = tt

  expect_arrow-Ends :
      (t : TokenType) (p : Parser)
      → p.cur.type ≡ t
      → Ends (Reads unicode p) (expect_arrow unicode t p)
  unfolding expect_arrow
  expect_arrow-Ends arrow p e = read_at unicode p arrow e tt (here _)
  expect_arrow-Ends _ p e = tt

  expect_dot-Ends :
      (t : TokenType) (p : Parser)
      → p.cur.type ≡ t
      → Ends (Reads unicode p) (expect_dot unicode t p)
  unfolding expect_dot
  expect_dot-Ends dot p e = read_at unicode p dot e tt (here _)
  expect_dot-Ends _ p e = tt

  rule-Ends :
      (n : ℕ) (p : Parser) → 5 * left p + 3 ≤ n → Ends (After p.cur.type p) (parse_rule unicode n p)
  unfolding parse_rule
  rule-Ends n p h =
      let t = p.cur.type in
      Ends->>= (After t p) (head_of unicode t p) _ (head_of-Ends t p) λ head q r.
        Ends->>= (After t p) (expect_arrow unicode q.cur.type q) _
          (expect_arrow-Ends q.cur.type q refl)
          λ begun q₁ r₁.
            Ends->>= (After t p) (parse_expr unicode n q₁) _
              (expr-Ends unicode n q₁ (
                omega (
                  arith,
                  left-le unicode r.1,
                  left-le unicode r₁,
                  advance-left unicode p t refl r.0,
                )))
              λ body q₂ r₂.
                Ends->>= (After t p) (expect_dot unicode q₂.cur.type q₂) _
                  (expect_dot-Ends q₂.cur.type q₂ refl)
                  λ done q₃ r₃. (
                    r.0,
                    Reads-trans unicode r.1 (Reads-trans unicode r₁ (Reads-trans unicode r₂ r₃)),
                  )

  -- The end of the text was reached from `p`.
  abbrev pub ReadsAll : Parser → Parser → Type 0
  ReadsAll p q = Reads unicode p q × (q.cur.type ≡ eof)

  rules_step :
      (n : ℕ) (p : Parser)
      → Ends (After p.cur.type p) (parse_rule unicode n p)
      → ((q : Parser) → left q < left p → Ends (ReadsAll q) (parse_rules_at unicode n q.cur.type q))
      → Ends (ReadsAll p) (
          parse_rule unicode n p >>= λ r.
          parse_rules_at unicode n r.1.cur.type r.1 >>= λ rules. ok (r.0 ∷ rules.0) rules.1)
  rules_step n p h later =
      let t = p.cur.type in
      Ends->>= (ReadsAll p) (parse_rule unicode n p) _ h λ rule q r.
        Ends->>= (ReadsAll p) (parse_rules_at unicode n q.cur.type q) _
          (later q (omega (arith, left-le unicode r.1, advance-left unicode p t refl r.0)))
          λ rules q' r'. (read_at unicode p t refl r.0 (Reads-trans unicode r.1 r'.0), r'.1)

  rules-Ends :
      (n : ℕ) (t : TokenType) (p : Parser)
      → p.cur.type ≡ t
      → 5 * left p + 4 ≤ n
      → Ends (ReadsAll p) (parse_rules_at unicode n t p)
  unfolding parse_rules_at
  rules-Ends zero t p e h = absurd (omega arith)
  rules-Ends (suc n) eof p e h = (here p, e)
  rules-Ends (suc n) _ p e h =
      rules_step n p (rule-Ends n p (omega arith))
        λ q less. rules-Ends n q.cur.type q refl (omega arith)

  pub new_parser-le : (input : String) → left (new_parser unicode input) ≤ chars input
  unfolding new_parser
  new_parser-le input =
      let lx = new_lexer input in
      omega (arith, next_token-Fits unicode lx, next_token-Fits unicode (next_token unicode lx).1)

  -- The parser of grammars answers on every text, with rules or with an error. It answers with
  -- rules only if, from the first token of the text, it went past legal tokens alone, one at a
  -- time, up to the end of the text: nothing is skipped, and an unknown character or an unclosed
  -- string is never taken for the end.
  pub parse_rules_reads :
      (input : String) → Ends (ReadsAll (new_parser unicode input)) (parse_rules unicode input)
  unfolding parse_rules
  parse_rules_reads input =
      let p = new_parser unicode input in
      rules-Ends (fuel_for unicode input) p.cur.type p refl (omega (arith, new_parser-le input))
