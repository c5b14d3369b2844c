-- ===== src/Dcg/Printer/RoundTrip.antt =====
-- Printing a grammar and parsing it.
use opensearch_query_gateway.Shared.{List, [], ◌∷◌, ◌≡◌, refl, arith}
use opensearch_query_gateway.Dcg.{Expr, Exprs, seq, alt, symbol, terminal, empty, nil, cons, Rule}
use opensearch_query_gateway.Dcg.Lexer.{Unicode}
use opensearch_query_gateway.Dcg.Parser.{Parser, ok, new_parser, fuel_for, parse_rules}
use opensearch_query_gateway.Dcg.Parser.Total.{new_parser-le}
use opensearch_query_gateway.Dcg.Printer.{
  Marks, item_marks, option_marks, seq_marks, comma_marks, alt_marks, bar_marks, body_marks,
  rule_marks, rules_marks, text_of, print_rules, IsNormal, AreNormal, AreRules, AreTables,
}
use opensearch_query_gateway.Dcg.Printer.Rules.{rules_give}
use opensearch_query_gateway.Dcg.Printer.Texts.{AreMarks, text_of-Feeds}

module _ (unicode : Unicode) where
  mutual
    unfolding item_marks IsNormal

    item_marks-AreMarks :
        (e : Expr) (rest : Marks)
        → IsNormal unicode e
        → AreMarks unicode rest
        → AreMarks unicode (item_marks e rest)
    item_marks-AreMarks (symbol name) rest h r = (h, r)
    item_marks-AreMarks (terminal value) rest h r = (tt, r)
    item_marks-AreMarks (seq es) rest h r = (refl, seq_marks-AreMarks es _ h.0 (refl, r))
    item_marks-AreMarks (alt es) rest h r = (refl, alt_marks-AreMarks es _ h.0 (refl, r))
    item_marks-AreMarks empty rest h r = (refl, (refl, r))

    option_marks-AreMarks :
        (e : Expr) (rest : Marks)
        → IsNormal unicode e
        → AreMarks unicode rest
        → AreMarks unicode (option_marks e rest)
    option_marks-AreMarks (symbol name) rest h r = (h, r)
    option_marks-AreMarks (terminal value) rest h r = (tt, r)
    option_marks-AreMarks (seq es) rest h r = seq_marks-AreMarks es rest h.0 r
    option_marks-AreMarks (alt es) rest h r = (refl, alt_marks-AreMarks es _ h.0 (refl, r))
    option_marks-AreMarks empty rest h r = (refl, (refl, r))

    seq_marks-AreMarks :
        (es : Exprs) (rest : Marks)
        → AreNormal unicode es
        → AreMarks unicode rest
        → AreMarks unicode (seq_marks es rest)
    seq_marks-AreMarks nil rest h r = r
    seq_marks-AreMarks (cons e es) rest h r =
        item_marks-AreMarks e _ h.0 (comma_marks-AreMarks es rest h.1 r)

    comma_marks-AreMarks :
        (es : Exprs) (rest : Marks)
        → AreNormal unicode es
        → AreMarks unicode rest
        → AreMarks unicode (comma_marks es rest)
    comma_marks-AreMarks nil rest h r = r
    comma_marks-AreMarks (cons e es) rest h r =
        (refl, item_marks-AreMarks e _ h.0 (comma_marks-AreMarks es rest h.1 r))

    alt_marks-AreMarks :
        (es : Exprs) (rest : Marks)
        → AreNormal unicode es
        → AreMarks unicode rest
        → AreMarks unicode (alt_marks es rest)
    alt_marks-AreMarks nil rest h r = r
    alt_marks-AreMarks (cons e es) rest h r =
        option_marks-AreMarks e _ h.0 (bar_marks-AreMarks es rest h.1 r)

    bar_marks-AreMarks :
        (es : Exprs) (rest : Marks)
        → AreNormal unicode es
        → AreMarks unicode rest
        → AreMarks unicode (bar_marks es rest)
    bar_marks-AreMarks nil rest h r = r
    bar_marks-AreMarks (cons e es) rest h r =
        (refl, option_marks-AreMarks e _ h.0 (bar_marks-AreMarks es rest h.1 r))

  body_marks-AreMarks :
      (e : Expr) (rest : Marks)
      → IsNormal unicode e
      → AreMarks unicode rest
      → AreMarks unicode (body_marks e rest)
  unfolding body_marks IsNormal
  body_marks-AreMarks (alt es) rest h r = alt_marks-AreMarks es rest h.0 r
  body_marks-AreMarks e rest h r = option_marks-AreMarks e rest h r

  rules_marks-AreMarks :
      (rules : List Rule) → AreRules unicode rules → AreMarks unicode (rules_marks rules)
  unfolding rules_marks rule_marks
  rules_marks-AreMarks [] h = tt
  rules_marks-AreMarks (r ∷ rules) h =
      (h.0, (refl, body_marks-AreMarks r.body _ h.1 (refl, rules_marks-AreMarks rules h.2)))

  -- Printing rules and parsing the text gives the rules back, where every name is an identifier,
  -- every sequence and every choice has two parts at least, and the tables of Unicode class no
  -- mark and no white space as a letter and no blank as a digit: nesting and order, names, and
  -- strings with any characters, quotes and backslashes too, are kept.
  pub parse_rules-print_rules :
      (rules : List Rule)
      → AreTables unicode
      → AreRules unicode rules
      → (p : Parser) × (parse_rules unicode (print_rules rules) ≡ ok rules p)
  unfolding parse_rules print_rules
  parse_rules-print_rules rules tables h =
      let input = text_of (rules_marks rules) in
      let g =
        rules_give unicode rules (fuel_for unicode input) (new_parser unicode input) h
          (omega (arith, new_parser-le unicode input))
          (text_of-Feeds unicode tables (rules_marks rules) (rules_marks-AreMarks rules h)) in
      (g.after, g.answer)
