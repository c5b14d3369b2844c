-- ===== src/Dcg/Printer/Normal.antt =====
-- Rules that were parsed can be printed and parsed again.
use mathlib.Core.Path.{subst}
use opensearch_query_gateway.Shared.{ℕ, zero, suc, String, List, ◌≡◌, refl}
use opensearch_query_gateway.Dcg.{Expr, Exprs, nil, cons, Rule}
use opensearch_query_gateway.Dcg.Lexer.{
  Unicode, TokenType, eof, ident, string, arrow, dot, comma, bar, lparen, rparen,
}
use opensearch_query_gateway.Dcg.Parser.{
  Parser, Outcome, ok, err, out_of_fuel, ◌>>=◌, seq_of, alt_of, advance, new_parser, close_paren,
  parse_expr, parse_options, parse_seq, parse_items, parse_item, expect_arrow, expect_dot, head_of,
  parse_rule, parse_rules_at, fuel_for, parse_rules,
}
use opensearch_query_gateway.Dcg.Printer.{
  IsName, IsNormal, AreNormal, AreRules, AreTables, print_rules,
}
use opensearch_query_gateway.Dcg.Printer.RoundTrip.{parse_rules-print_rules}
use opensearch_query_gateway.Dcg.Printer.Names.{
  IsGood, IsReady, advance-IsReady, new_parser-IsReady,
}

module _ (unicode : Unicode) where
  -- A success has a value like this, and leaves the parser before good tokens.
  abbrev Yields : {A : Type 0} → (A → Type 0) → Outcome A → Type 0
  Yields P (ok a q) = P a × IsReady unicode q
  Yields P (err e) = Unit
  Yields P out_of_fuel = Unit

  Yields->>= :
      {A B : Type 0} {P : A → Type 0} (Q : B → Type 0) (m : Outcome A) (f : A × Parser → Outcome B)
      → Yields P m
      → ((a : A) (q : Parser) → P a → IsReady unicode q → Yields Q (f (a, q)))
      → Yields Q (m >>= f)
  Yields->>= Q (ok a q) f h k = k a q h.0 h.1
  Yields->>= Q (err e) f h k = tt
  Yields->>= Q out_of_fuel f h k = tt

  seq_of-IsNormal : (es : Exprs) → AreNormal unicode es → IsNormal unicode (seq_of es)
  unfolding seq_of IsNormal
  seq_of-IsNormal nil h = tt
  seq_of-IsNormal (cons e nil) h = h.0
  seq_of-IsNormal (cons e (cons f es)) h = (h, tt)

  alt_of-IsNormal :
      (e : Expr) (es : Exprs)
      → IsNormal unicode e
      → AreNormal unicode es
      → IsNormal unicode (alt_of e es)
  unfolding alt_of IsNormal
  alt_of-IsNormal e nil h k = h
  alt_of-IsNormal e (cons f es) h k = ((h, k), tt)

  close_paren-Yields :
      (t : TokenType) (e : Expr) (p : Parser)
      → IsNormal unicode e
      → IsReady unicode p
      → Yields (IsNormal unicode) (close_paren unicode t e p)
  unfolding close_paren
  close_paren-Yields rparen e p h r = (h, advance-IsReady unicode p r)
  close_paren-Yields _ e p h r = tt

  -- The name at the current token.
  symbol-IsName : (p : Parser) → p.cur.type ≡ ident → IsReady unicode p → IsName unicode p.cur.value
  symbol-IsName p e r = subst (λ (t : TokenType). IsGood unicode t p.cur.value) e r.0

  -- An item or an alternative, and those behind it.
  listed :
      (m : Outcome Expr) (k : Parser → Outcome Exprs)
      → Yields (IsNormal unicode) m
      → ((q : Parser) → IsReady unicode q → Yields (AreNormal unicode) (k q))
      → Yields (AreNormal unicode) (m >>= λ r. k r.1 >>= λ rest. ok (cons r.0 rest.0) rest.1)
  unfolding IsNormal
  listed m k h later =
      Yields->>= (AreNormal unicode) m _ h
        λ e q n r. Yields->>= (AreNormal unicode) (k q) _ (later q r) λ es q' n' r'. ((n, n'), r')

  mutual
    unfolding parse_expr parse_options parse_seq parse_items parse_item IsNormal

    expr-Yields :
        (n : ℕ) (p : Parser)
        → IsReady unicode p
        → Yields (IsNormal unicode) (parse_expr unicode n p)
    expr-Yields zero p r = tt
    expr-Yields (suc n) p r =
        Yields->>= (IsNormal unicode) (parse_seq unicode n p) _ (seq-Yields n p r) λ e q h k.
          Yields->>= (IsNormal unicode) (parse_options unicode n q.cur.type q) _
            (options-Yields n q.cur.type q k) λ es q' h' k'. (alt_of-IsNormal e es h h', k')

    options-Yields :
        (n : ℕ) (t : TokenType) (p : Parser)
        → IsReady unicode p
        → Yields (AreNormal unicode) (parse_options unicode n t p)
    options-Yields zero t p r = tt
    options-Yields (suc n) bar p r =
        listed (parse_seq unicode n (advance unicode p)) (λ q. parse_options unicode n q.cur.type q)
          (seq-Yields n (advance unicode p) (advance-IsReady unicode p r))
          λ q k. options-Yields n q.cur.type q k
    options-Yields (suc n) _ p r = (tt, r)

    seq-Yields :
        (n : ℕ) (p : Parser) → IsReady unicode p → Yields (IsNormal unicode) (parse_seq unicode n p)
    seq-Yields zero p r = tt
    seq-Yields (suc n) p r =
        Yields->>= (IsNormal unicode) (parse_items unicode n p.cur.type p) _
          (items-Yields n p.cur.type p refl r) λ es q h k. (seq_of-IsNormal es h, k)

    items-Yields :
        (n : ℕ) (t : TokenType) (p : Parser)
        → p.cur.type ≡ t
        → IsReady unicode p
        → Yields (AreNormal unicode) (parse_items unicode n t p)
    items-Yields zero t p e r = tt
    items-Yields (suc n) eof p e r = (tt, r)
    items-Yields (suc n) dot p e r = (tt, r)
    items-Yields (suc n) bar p e r = (tt, r)
    items-Yields (suc n) rparen p e r = (tt, r)
    items-Yields (suc n) comma p e r =
        items-Yields n (advance unicode p).cur.type (advance unicode p) refl
          (advance-IsReady unicode p r)
    items-Yields (suc n) t p e r =
        listed (parse_item unicode n t p) (λ q. parse_items unicode n q.cur.type q)
          (item-Yields n t p e r) λ q k. items-Yields n q.cur.type q refl k

    item-Yields :
        (n : ℕ) (t : TokenType) (p : Parser)
        → p.cur.type ≡ t
        → IsReady unicode p
        → Yields (IsNormal unicode) (parse_item unicode n t p)
    item-Yields zero t p e r = tt
    item-Yields (suc n) ident p e r = (symbol-IsName p e r, advance-IsReady unicode p r)
    item-Yields (suc n) string p e r = (tt, advance-IsReady unicode p r)
    item-Yields (suc n) lparen p e r =
        Yields->>= (IsNormal unicode) (parse_expr unicode n (advance unicode p)) _
          (expr-Yields n (advance unicode p) (advance-IsReady unicode p r))
          λ f q h k. close_paren-Yields q.cur.type f q h k
    item-Yields (suc n) _ p e r = tt

  abbrev IsRule : Rule → Type 0
  IsRule r = IsName unicode r.head × IsNormal unicode r.body

  head_of-Yields :
      (t : TokenType) (p : Parser)
      → p.cur.type ≡ t
      → IsReady unicode p
      → Yields (IsName unicode) (head_of unicode t p)
  unfolding head_of
  head_of-Yields ident p e r = (symbol-IsName p e r, advance-IsReady unicode p r)
  head_of-Yields _ p e r = tt

  expect_arrow-Yields :
      (t : TokenType) (p : Parser)
      → IsReady unicode p
      → Yields (λ u. Unit {0}) (expect_arrow unicode t p)
  unfolding expect_arrow
  expect_arrow-Yields arrow p r = (tt, advance-IsReady unicode p r)
  expect_arrow-Yields _ p r = tt

  expect_dot-Yields :
      (t : TokenType) (p : Parser)
      → IsReady unicode p
      → Yields (λ u. Unit {0}) (expect_dot unicode t p)
  unfolding expect_dot
  expect_dot-Yields dot p r = (tt, advance-IsReady unicode p r)
  expect_dot-Yields _ p r = tt

  parse_rule-Yields :
      (n : ℕ) (p : Parser) → IsReady unicode p → Yields IsRule (parse_rule unicode n p)
  unfolding parse_rule
  parse_rule-Yields n p r =
      Yields->>= IsRule (head_of unicode p.cur.type p) _ (head_of-Yields p.cur.type p refl r)
        λ head q h k.
          Yields->>= IsRule (expect_arrow unicode q.cur.type q) _
            (expect_arrow-Yields q.cur.type q k)
            λ begun q₁ h₁ k₁.
              Yields->>= IsRule (parse_expr unicode n q₁) _ (expr-Yields n q₁ k₁) λ body q₂ h₂ k₂.
                Yields->>= IsRule (expect_dot unicode q₂.cur.type q₂) _
                  (expect_dot-Yields q₂.cur.type q₂ k₂) λ done q₃ h₃ k₃. ((h, h₂), k₃)

  rules-Yields :
      (n : ℕ) (t : TokenType) (p : Parser)
      → IsReady unicode p
      → Yields (AreRules unicode) (parse_rules_at unicode n t p)
  unfolding parse_rules_at
  rules-Yields zero t p r = tt
  rules-Yields (suc n) eof p r = (tt, r)
  rules-Yields (suc n) _ p r =
      Yields->>= (AreRules unicode) (parse_rule unicode n p) _ (parse_rule-Yields n p r)
        λ rule q h k.
          Yields->>= (AreRules unicode) (parse_rules_at unicode n q.cur.type q) _
            (rules-Yields n q.cur.type q k) λ rules q' h' k'. ((h.0, h.1, h'), k')

  -- The rules that the parser reads from any text are in the form that printing keeps: their names
  -- are identifiers, and each sequence and each choice has two parts at least. So printing them and
  -- parsing the text gives them back, where the tables of Unicode class no mark and no white space
  -- as a letter and no blank as a digit.
  pub parse_rules_again :
      (input : String) (rules : List Rule) (p : Parser)
      → AreTables unicode
      → parse_rules unicode input ≡ ok rules p
      → AreRules unicode rules
        × ((q : Parser) × (parse_rules unicode (print_rules rules) ≡ ok rules q))
  unfolding parse_rules
  parse_rules_again input rules p tables h =
      let start = new_parser unicode input in
      let are =
        (subst (Yields (AreRules unicode)) h (
          rules-Yields (fuel_for unicode input) start.cur.type start
            (new_parser-IsReady unicode input))).0 in
      (are, unfold parse_rules in parse_rules-print_rules unicode rules tables are)
