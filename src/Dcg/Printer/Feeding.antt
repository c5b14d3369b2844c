-- ===== src/Dcg/Printer/Feeding.antt =====
-- A parser before given tokens, and what a method makes of them.
use mathlib.Core.Path.{subst}
use opensearch_query_gateway.Shared.{ℕ, ◌≤◌, [], ◌∷◌, ◌≡◌, refl, sym, arith}
use opensearch_query_gateway.Dcg.Lexer.{
  Unicode, TokenType, eof, ident, string, dot, bar, lparen, rparen,
}
use opensearch_query_gateway.Dcg.Parser.{Parser, Outcome, ok, ◌>>=◌, advance}
use opensearch_query_gateway.Dcg.Parser.Reads.{left}
use opensearch_query_gateway.Dcg.Printer.{Marks}

-- A list of items ends before such a token, and a body before such a one.
abbrev pub IsStop : TokenType → Type 0
IsStop dot = Unit
IsStop bar = Unit
IsStop rparen = Unit
IsStop _ = ⊥

abbrev pub IsEnd : TokenType → Type 0
IsEnd dot = Unit
IsEnd rparen = Unit
IsEnd _ = ⊥

abbrev pub Stops : Marks → Type 0
Stops [] = ⊥
Stops ((t, v) ∷ ms) = IsStop t

abbrev pub EndsBody : Marks → Type 0
EndsBody [] = ⊥
EndsBody ((t, v) ∷ ms) = IsEnd t

pub EndsBody-Stops : (ms : Marks) → EndsBody ms → Stops ms
EndsBody-Stops [] h = h
EndsBody-Stops ((dot, v) ∷ ms) h = tt
EndsBody-Stops ((rparen, v) ∷ ms) h = tt
EndsBody-Stops ((_, v) ∷ ms) h = absurd h

-- An item begins with such a token.
abbrev pub IsFirst : TokenType → Type 0
IsFirst ident = Unit
IsFirst string = Unit
IsFirst lparen = Unit
IsFirst _ = ⊥

module _ (unicode : Unicode) where
  -- The parser's tokens from the current one on are the given ones, and then the text ends.
  unfoldable pub Feeds : Parser → Marks → Type 0
  Feeds p [] = p.cur.type ≡ eof
  Feeds p ((t, v) ∷ ms) = (p.cur.type ≡ t) × (p.cur.value ≡ v) × Feeds (advance unicode p) ms

  -- The method returns `a`, before the tokens `ms`, and has not gone back.
  pub record Gives {A : Type 0} (r : Outcome A) (a : A) (ms : Marks) (bound : ℕ) : Type 0 where
    pub after : Parser
    pub answer : r ≡ ok a after
    pub feeds : Feeds after ms
    pub less : left after ≤ bound

  pub Gives-le :
      {A : Type 0} {r : Outcome A} {a : A} {ms : Marks} (m n : ℕ)
      → m ≤ n
      → Gives r a ms m
      → Gives r a ms n
  Gives-le m n h g = record {
    after = g.after;
    answer = g.answer;
    feeds = g.feeds;
    less = omega (arith, g.less);
  }

  pub here-Gives :
      {A : Type 0} (a : A) (p : Parser) (ms : Marks) → Feeds p ms → Gives (ok a p) a ms (left p)
  here-Gives a p ms f = record { after = p; answer = refl; feeds = f; less = omega arith }

  -- One method and then another, and what is made of their values.
  pub then-Gives :
      {A B C : Type 0} (m : Outcome A) (k : A × Parser → Outcome B) (f : A → B → C) (a : A) (b : B)
      (mid rest : Marks) (x : ℕ)
      → Gives m a mid x
      → ((q : Parser) → Feeds q mid → left q ≤ x → Gives (k (a, q)) b rest (left q))
      → Gives (m >>= λ r. k r >>= λ t. ok (f r.0 t.0) t.1) (f a b) rest x
  then-Gives m k f a b mid rest x g later =
      let l = later g.after g.feeds g.less in
      record {
        after = l.after;
        answer = rw (g.answer, l.answer);
        feeds = l.feeds;
        less = omega (arith, l.less, g.less);
      }

  -- A method that branches on the type of the current token.
  pub at_type :
      {A : Type 0} (m : TokenType → Outcome A) (a : A) (ms : Marks) (b : ℕ) (p : Parser)
      (t : TokenType)
      → p.cur.type ≡ t
      → Gives (m t) a ms b
      → Gives (m p.cur.type) a ms b
  at_type m a ms b p t h g = subst (λ (u : TokenType). Gives (m u) a ms b) (sym h) g
