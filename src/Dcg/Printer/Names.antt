-- ===== src/Dcg/Printer/Names.antt =====
-- The identifiers that the lexer gives are names.
use Prim.Native.Char.{Char, code}
use opensearch_query_gateway.Shared.{
  ℕ, ◌+◌, String, Bool, true, false, Option, none, some, ◌≡◌, refl, arith, ◌==◌, all, codes,
  if◌then◌else◌, Bool-cases, inl, inr,
}
use opensearch_query_gateway.Dcg.Lexer.{
  Unicode, TokenType, ident, Token, Lexer, new_lexer, Scan, read_string, behind_arrow, string_token,
  read_ident, ident_token, word_token, dash_token, token_from, next_token, skip_spaces,
}
use opensearch_query_gateway.Dcg.Parser.{Parser, advance, new_parser}
use opensearch_query_gateway.Dcg.Printer.{is_start, is_part, IsName}

module _ (unicode : Unicode) where
  -- An identifier's text is a name.
  abbrev pub IsGood : TokenType → String → Type 0
  IsGood ident value = IsName unicode value
  IsGood _ value = Unit

  abbrev Gives : Token × Lexer → Type 0
  Gives r = IsGood r.0.type r.0.value

  read_ident-parts :
      (s : String) (pos : ℕ) → all (is_part unicode) (codes (read_ident unicode s pos).value) ≡ true
  unfolding read_ident
  read_ident-parts String.[] pos = refl
  read_ident-parts (String.◌∷◌ c s) pos = elim (Bool-cases (is_part unicode (code c))) [
    | inl e ↦ rw (e, e) (read_ident-parts s (pos + 1))
    | inr e ↦ rw e refl
  ]

  part : (c : ℕ) → is_start unicode c ≡ true → is_part unicode c ≡ true
  part c h = ground arith

  word_token-Gives : (c : Char) (s : String) (start : ℕ) → Gives (word_token unicode c s start)
  unfolding word_token ident_token read_ident
  word_token-Gives c s start = elim (Bool-cases (is_start unicode (code c))) [
    | inl e ↦ rw (e, part (code c) e) (e, read_ident-parts s (start + 1))
    | inr e ↦ rw e tt
  ]

  string_token-Gives : (start : ℕ) (scan : Scan) → Gives (string_token start scan)
  string_token-Gives start scan = elim (Bool-cases scan.closed) [
    | inl e ↦ rw e tt
    | inr e ↦ rw e tt
  ]

  dash_token-Gives :
      (c : Char) (s : String) (start : ℕ) (o : Option String)
      → Gives (dash_token unicode c s start o)
  unfolding dash_token
  dash_token-Gives c s start none = word_token-Gives c s start
  dash_token-Gives c s start (some rest) = tt

  Gives-if : (b : Bool) (r q : Token × Lexer) → Gives r → Gives q → Gives (if b then r else q)
  Gives-if true r q h k = h
  Gives-if false r q h k = k

  token_from-Gives : (s : String) (start : ℕ) → Gives (token_from unicode s start)
  unfolding token_from
  token_from-Gives String.[] start = tt
  token_from-Gives (String.◌∷◌ c s) start = Gives-if (code c == b'.') _ _ tt (
      Gives-if (code c == b',') _ _ tt (
        Gives-if (code c == b'|') _ _ tt (
          Gives-if (code c == b'(') _ _ tt (
            Gives-if (code c == b')') _ _ tt (
              Gives-if (code c == b'"') _ _
                (string_token-Gives start (read_string false s (start + 1)))
                (Gives-if (code c == b'-') _ _ (dash_token-Gives c s start (behind_arrow s))
                  (word_token-Gives c s start)))))))

  next_token-Gives : (l : Lexer) → Gives (next_token unicode l)
  unfolding next_token
  next_token-Gives l =
      let behind = skip_spaces false l.rest l.pos in token_from-Gives behind.rest behind.pos

  -- The tokens that the parser looks at are good.
  abbrev pub IsReady : Parser → Type 0
  IsReady p = IsGood p.cur.type p.cur.value × IsGood p.peek.type p.peek.value

  pub advance-IsReady : (p : Parser) → IsReady p → IsReady (advance unicode p)
  unfolding advance
  advance-IsReady p h = (h.1, next_token-Gives p.lx)

  pub new_parser-IsReady : (input : String) → IsReady (new_parser unicode input)
  unfolding new_parser
  new_parser-IsReady input =
      let lx = new_lexer input in (next_token-Gives lx, next_token-Gives (next_token unicode lx).1)
