-- ===== src/Dcg/Printer.antt =====
-- A printer of grammars, against which the parser of internal/dcg is proved. It writes a blank
-- before each token, commas between the items of a sequence, and parentheses around every
-- expression inside another that is more than a name or a string.
pub mod Feeding
pub mod Steps
pub mod Expressions
pub mod Bodies
pub mod Rules
pub mod Texts
pub mod RoundTrip
pub mod Names
pub mod Normal
use Prim.Native.Char.{Char, code}
use Prim.Native.String
use opensearch_query_gateway.Shared.{
  ℕ, String, Bool, true, false, ◌||◌, ◌&&◌, List, [], ◌∷◌, ◌≡◌, ◌≢◌, if◌then◌else◌, ◌==◌, ◌<>◌, not,
  is_space, all, codes,
}
use opensearch_query_gateway.Dcg.{Expr, Exprs, seq, alt, symbol, terminal, empty, nil, cons, Rule}
use opensearch_query_gateway.Dcg.Lexer.{
  Unicode, TokenType, eof, ident, string, arrow, dot, comma, bar, lparen, rparen, illegal,
}

-- A token without its position.
abbrev pub Mark : Type 0
Mark = TokenType × String

abbrev pub Marks : Type 0
Marks = List Mark

abbrev pub opening : Mark
opening = (lparen, "(")

abbrev pub closing : Mark
closing = (rparen, ")")

-- The tokens of an expression, with those that stand behind it.
unfoldable mutual
  -- As an item of a sequence.
  pub item_marks : Expr → Marks → Marks
  item_marks (symbol name) rest = (ident, name) ∷ rest
  item_marks (terminal value) rest = (string, value) ∷ rest
  item_marks (seq es) rest = opening ∷ seq_marks es (closing ∷ rest)
  item_marks (alt es) rest = opening ∷ alt_marks es (closing ∷ rest)
  item_marks empty rest = opening ∷ closing ∷ rest

  -- As one of some alternatives.
  pub option_marks : Expr → Marks → Marks
  option_marks (symbol name) rest = (ident, name) ∷ rest
  option_marks (terminal value) rest = (string, value) ∷ rest
  option_marks (seq es) rest = seq_marks es rest
  option_marks (alt es) rest = opening ∷ alt_marks es (closing ∷ rest)
  option_marks empty rest = opening ∷ closing ∷ rest

  pub seq_marks : Exprs → Marks → Marks
  seq_marks nil rest = rest
  seq_marks (cons e es) rest = item_marks e (comma_marks es rest)

  -- The items behind the first, a comma before each.
  pub comma_marks : Exprs → Marks → Marks
  comma_marks nil rest = rest
  comma_marks (cons e es) rest = (comma, ",") ∷ item_marks e (comma_marks es rest)

  pub alt_marks : Exprs → Marks → Marks
  alt_marks nil rest = rest
  alt_marks (cons e es) rest = option_marks e (bar_marks es rest)

  pub bar_marks : Exprs → Marks → Marks
  bar_marks nil rest = rest
  bar_marks (cons e es) rest = (bar, "|") ∷ option_marks e (bar_marks es rest)

unfoldable pub body_marks : Expr → Marks → Marks
unfolding item_marks
body_marks (alt es) rest = alt_marks es rest
body_marks e rest = option_marks e rest

unfoldable pub rule_marks : Rule → Marks → Marks
unfolding body_marks
rule_marks r rest = (ident, r.head) ∷ (arrow, "-->") ∷ body_marks r.body ((dot, ".") ∷ rest)

unfoldable pub rules_marks : List Rule → Marks
unfolding rule_marks
rules_marks [] = []
rules_marks (r ∷ rs) = rule_marks r (rules_marks rs)

-- The text of a string up to its closing quote.
unfoldable pub escaped : String → String
escaped String.[] = ""
escaped (String.◌∷◌ c s) =
    let rest = escaped s in
    if code c == b'"' || code c == b'\\'
    then String.◌∷◌ "\\" (String.◌∷◌ c rest)
    else String.◌∷◌ c rest

-- The text of a token, before what stands behind it.
unfoldable pub mark_text : TokenType → String → String → String
unfolding escaped
mark_text string value rest = String.◌∷◌ "\"" (escaped value <> String.◌∷◌ "\"" rest)
mark_text ident value rest = value <> rest
mark_text arrow value rest = String.◌∷◌ "-" (String.◌∷◌ "-" (String.◌∷◌ ">" rest))
mark_text dot value rest = String.◌∷◌ "." rest
mark_text comma value rest = String.◌∷◌ "," rest
mark_text bar value rest = String.◌∷◌ "|" rest
mark_text lparen value rest = String.◌∷◌ "(" rest
mark_text rparen value rest = String.◌∷◌ ")" rest
mark_text eof value rest = rest
mark_text illegal value rest = rest

unfoldable pub text_of : Marks → String
unfolding mark_text
text_of [] = ""
text_of ((t, value) ∷ ms) = String.◌∷◌ " " (mark_text t value (text_of ms))

unfoldable pub print_rules : List Rule → String
unfolding text_of rules_marks
print_rules rules = text_of (rules_marks rules)

module _ (unicode : Unicode) where
  abbrev pub is_start : ℕ → Bool
  is_start c = unicode.is_letter c || c == b'_'

  abbrev pub is_part : ℕ → Bool
  is_part c = unicode.is_letter c || unicode.is_digit c || c == b'_'

  -- A name that the lexer reads as one identifier.
  abbrev pub IsName : String → Type 0
  IsName String.[] = ⊥
  IsName (String.◌∷◌ c s) = (is_start (code c) ≡ true) × (all is_part (codes s) ≡ true)

  -- Sequences and alternatives have two parts at least, and the names are identifiers.
  unfoldable mutual
    pub IsNormal : Expr → Type 0
    IsNormal (symbol name) = IsName name
    IsNormal (terminal value) = Unit
    IsNormal (seq es) = AreNormal es × HasTwo es
    IsNormal (alt es) = AreNormal es × HasTwo es
    IsNormal empty = Unit

    pub AreNormal : Exprs → Type 0
    AreNormal nil = Unit
    AreNormal (cons e es) = IsNormal e × AreNormal es

    pub HasTwo : Exprs → Type 0
    HasTwo (cons e (cons f es)) = Unit
    HasTwo _ = ⊥

  abbrev pub AreRules : List Rule → Type 0
  AreRules [] = Unit
  AreRules (r ∷ rs) = IsName r.head × IsNormal r.body × AreRules rs

-- A character that is neither white space nor the beginning of a mark, a string or a comment.
abbrev pub is_plain : ℕ → Bool
is_plain c = not (
    is_space c
    || c == b'%'
    || c == b'.'
    || c == b','
    || c == b'|'
    || c == b'('
    || c == b')'
    || c == b'"'
    || c == b'-')

-- What the tables of Unicode say of these characters: no letter is one of them, and a blank is no
-- digit.
pub record AreTables (unicode : Unicode) : Type 0 where
  pub letter_plain : (c : ℕ) → unicode.is_letter c ≡ true → is_plain c ≡ true
  pub blank_digit : unicode.is_digit 32 ≡ false
