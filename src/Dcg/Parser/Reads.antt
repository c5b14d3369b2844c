-- ===== src/Dcg/Parser/Reads.antt =====
-- What the parser has read: from one state to another past legal tokens, one at a time.
use mathlib.Core.Path.{subst}
use opensearch_query_gateway.Shared.{sym, ℕ, suc, ◌+◌, ◌≤◌, ◌≡◌, ◌≢◌, refl, arith}
use opensearch_query_gateway.Dcg.Lexer.{Unicode, TokenType, eof, illegal}
use opensearch_query_gateway.Dcg.Lexer.Progress.{chars, weight, weight_of, next_token-Fits}
use opensearch_query_gateway.Dcg.Parser.{Parser, Outcome, ok, err, out_of_fuel, ◌>>=◌, advance}

-- A token that the text holds and that is legal.
abbrev pub IsLegal : TokenType → Type 0
IsLegal eof = ⊥
IsLegal illegal = ⊥
IsLegal _ = Unit

-- What is left of the text, with the tokens that were read from it ahead.
abbrev pub left : Parser → ℕ
left p = weight p.cur + weight p.peek + chars p.lx.rest

-- The parser gives an answer, and for a success `P` holds of the new state.
abbrev pub Ends : {A : Type 0} → (Parser → Type 0) → Outcome A → Type 0
Ends P (ok a q) = P q
Ends P (err e) = Unit
Ends P out_of_fuel = ⊥

pub Ends->>= :
    {A B : Type 0} {P : Parser → Type 0} (Q : Parser → Type 0) (m : Outcome A)
    (f : A × Parser → Outcome B)
    → Ends P m
    → ((a : A) (q : Parser) → P q → Ends Q (f (a, q)))
    → Ends Q (m >>= f)
Ends->>= Q (ok a q) f h k = k a q h
Ends->>= Q (err e) f h k = tt
Ends->>= Q out_of_fuel f h k = absurd h

pub Ends-imp :
    {A : Type 0} {P Q : Parser → Type 0} (m : Outcome A)
    → Ends P m
    → ((q : Parser) → P q → Q q)
    → Ends Q m
Ends-imp (ok a q) h k = k q h
Ends-imp (err e) h k = tt
Ends-imp out_of_fuel h k = absurd h

pub Ends-ok :
    {A : Type 0} (P : Parser → Type 0) (m : Outcome A)
    → Ends P m
    → (m ≢ out_of_fuel) × ((a : A) (q : Parser) → m ≡ ok a q → P q)
Ends-ok P m h = (λ k. subst (Ends P) k h, λ a q k. subst (Ends P) k h)

legal-weight : (t : TokenType) → IsLegal t → weight_of t ≡ 1
legal-weight eof h = absurd h
legal-weight illegal h = absurd h
legal-weight _ h = refl

module _ (unicode : Unicode) where
  -- The parser goes from one state to another by `advance` alone, past legal tokens only.
  pub data Reads : Parser → Parser → Type 0 where
    here : (p : Parser) → Reads p p
    read : (p q : Parser) → IsLegal p.cur.type → Reads (advance unicode p) q → Reads p q

  pub Reads-trans : {p q r : Parser} → Reads p q → Reads q r → Reads p r
  Reads-trans (here p) k = k
  Reads-trans (read p q l h) k = read p _ l (Reads-trans h k)

  pub advance-left :
      (p : Parser) (t : TokenType)
      → p.cur.type ≡ t
      → IsLegal t
      → suc (left (advance unicode p)) ≤ left p
  unfolding advance
  advance-left p t h k =
      let w : weight p.cur ≡ 1 = rw h (legal-weight t k) in
      omega (arith, next_token-Fits unicode p.lx)

  pub left-le : {p q : Parser} → Reads p q → left q ≤ left p
  left-le (here p) = omega arith
  left-le (read p q l h) = omega (arith, left-le h, advance-left p p.cur.type refl l)

  pub read_at :
      (p : Parser) {q : Parser} (t : TokenType)
      → p.cur.type ≡ t
      → IsLegal t
      → Reads (advance unicode p) q
      → Reads p q
  read_at p t e l r = read p _ (subst IsLegal (sym e) l) r
