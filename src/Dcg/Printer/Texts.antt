-- ===== src/Dcg/Printer/Texts.antt =====
-- The lexer reads every token that is written behind a blank.
use Prim.Native.Char.{Char, code}
use text.Mathlib.TextLemmas.{nil-append, cons-append}
use opensearch_query_gateway.Shared.{
  ℕ, ◌+◌, String, Bool, true, false, ◌||◌, [], ◌∷◌, ◌≡◌, refl, sym, ap, ◌∙◌, arith, ◌==◌, ◌<>◌,
  is_space, all, codes, Bool-cases, both_true, inl, inr,
}
use opensearch_query_gateway.Dcg.Lexer.{
  Unicode, TokenType, eof, ident, string, arrow, dot, comma, bar, lparen, rparen, Token, Lexer,
  new_lexer, Scan, skip_spaces, read_string, behind_arrow, read_ident, ident_token, word_token,
  dash_token, token_from, next_token,
}
use opensearch_query_gateway.Dcg.Parser.{Parser, advance, new_parser}
use opensearch_query_gateway.Dcg.Printer.Feeding.{Feeds}
use opensearch_query_gateway.Dcg.Printer.{
  Mark, Marks, escaped, mark_text, text_of, is_start, is_part, IsName, is_plain, AreTables,
}

-- A token with the text that the lexer gives it.
abbrev pub IsMark : Unicode → Mark → Type 0
IsMark unicode (ident, value) = IsName unicode value
IsMark unicode (string, value) = Unit
IsMark unicode (arrow, value) = value ≡ "-->"
IsMark unicode (dot, value) = value ≡ "."
IsMark unicode (comma, value) = value ≡ ","
IsMark unicode (bar, value) = value ≡ "|"
IsMark unicode (lparen, value) = value ≡ "("
IsMark unicode (rparen, value) = value ≡ ")"
IsMark unicode (_, value) = ⊥

abbrev pub AreMarks : Unicode → Marks → Type 0
AreMarks unicode [] = Unit
AreMarks unicode (m ∷ ms) = IsMark unicode m × AreMarks unicode ms

-- The lexer gives this token and leaves this text.
abbrev Reads : Token × Lexer → TokenType → String → String → Type 0
Reads r t value rest = (r.0.type ≡ t) × (r.0.value ≡ value) × (r.1.rest ≡ rest)

-- A scan gives this text and leaves that one.
abbrev Scans : Scan → String → String → Type 0
Scans scan value rest = (scan.value ≡ value) × (scan.rest ≡ rest) × (scan.closed ≡ true)

neither : (a b : Bool) → a || b ≡ false → (a ≡ false) × (b ≡ false)
neither false false h = (refl, refl)
neither false true h = cc
neither true b h = cc

read_string-escaped :
    (s rest : String) (pos : ℕ)
    → Scans (read_string false (escaped s <> String.◌∷◌ "\"" rest) pos) s rest
unfolding escaped read_string
read_string-escaped String.[] rest pos = rw (nil-append (String.◌∷◌ "\"" rest)) (refl, refl, refl)
read_string-escaped (String.◌∷◌ c s) rest pos =
    elim (Bool-cases (code c == b'"' || code c == b'\\')) [
      | inl e ↦
          let ih = read_string-escaped s rest (pos + 1 + 1) in
          rw
            (
              e,
              cons-append "\\" (String.◌∷◌ c (escaped s)) (String.◌∷◌ "\"" rest),
              cons-append c (escaped s) (String.◌∷◌ "\"" rest),
            )
            (ap (String.◌∷◌ c) ih.0, ih.1, ih.2)
      | inr e ↦
          let ih = read_string-escaped s rest (pos + 1) in
          let (q, b) = neither (code c == b'"') (code c == b'\\') e in
          rw (e, cons-append c (escaped s) (String.◌∷◌ "\"" rest), q, b)
            (ap (String.◌∷◌ c) ih.0, ih.1, ih.2)
    ]

skip_blank :
    (c : Char) (s : String) (pos : ℕ)
    → is_space (code c) || code c == b'%' ≡ false
    → skip_spaces false (String.◌∷◌ " " (String.◌∷◌ c s)) pos
      ≡ record { rest = String.◌∷◌ c s; pos = pos + 1 }
unfolding skip_spaces is_space
skip_blank c s pos h = rw h refl

module _ (unicode : Unicode) (tables : AreTables unicode) where
  blank-is_part : is_part unicode 32 ≡ false
  unfolding is_space
  blank-is_part = elim (Bool-cases (unicode.is_letter 32)) [
    | inl e ↦ let h = tables.letter_plain 32 e in cc
    | inr e ↦ rw (e, tables.blank_digit) refl
  ]

  start-plain : (c : ℕ) → is_start unicode c ≡ true → is_plain c ≡ true
  unfolding is_space
  start-plain c h = elim (Bool-cases (unicode.is_letter c)) [
    | inl e ↦ tables.letter_plain c e
    | inr e ↦ ground arith
  ]

  start-is_part : (c : ℕ) → is_start unicode c ≡ true → is_part unicode c ≡ true
  start-is_part c h = ground arith

  start-space : (c : ℕ) → is_start unicode c ≡ true → is_space c || c == b'%' ≡ false
  start-space c h = let plain = start-plain c h in ground arith

  read_ident-text_of :
      (s : String) (ms : Marks) (pos : ℕ)
      → all (is_part unicode) (codes s) ≡ true
      → Scans (read_ident unicode (s <> text_of ms) pos) s (text_of ms)
  unfolding read_ident text_of
  read_ident-text_of String.[] [] pos h = rw (nil-append "") (refl, refl, refl)
  read_ident-text_of String.[] ((t, v) ∷ ms) pos h =
      rw (nil-append (text_of ((t, v) ∷ ms)), blank-is_part) (refl, refl, refl)
  read_ident-text_of (String.◌∷◌ c s) ms pos h =
      let (here, later) =
        both_true (is_part unicode (code c)) (all (is_part unicode) (codes s)) h in
      let ih = read_ident-text_of s ms (pos + 1) later in
      rw (cons-append c s (text_of ms), here) (ap (String.◌∷◌ c) ih.0, ih.1, ih.2)

  -- Behind a blank, a text that begins with no space and no comment is where the token begins.
  behind_blank :
      (c : Char) (s : String) (l : Lexer)
      → l.rest ≡ String.◌∷◌ " " (String.◌∷◌ c s)
      → is_space (code c) || code c == b'%' ≡ false
      → next_token unicode l ≡ token_from unicode (String.◌∷◌ c s) (l.pos + 1)
  unfolding next_token
  behind_blank c s l e h = rw (e, skip_blank c s l.pos h) refl

  word_from :
      (c : Char) (s : String) (start : ℕ)
      → is_start unicode (code c) ≡ true
      → token_from unicode (String.◌∷◌ c s) start
        ≡ ident_token unicode start (read_ident unicode (String.◌∷◌ c s) start)
  unfolding token_from word_token
  word_from c s start h = let plain = start-plain (code c) h in ground arith

  name_read :
      (c : Char) (s : String) (ms : Marks) (l : Lexer)
      → is_start unicode (code c) ≡ true
      → all (is_part unicode) (codes s) ≡ true
      → l.rest ≡ String.◌∷◌ " " (String.◌∷◌ c s <> text_of ms)
      → Reads (next_token unicode l) ident (String.◌∷◌ c s) (text_of ms)
  unfolding ident_token
  name_read c s ms l h k e =
      let start = l.pos + 1 in
      let whole = cons-append c s (text_of ms) in
      let r =
        read_ident-text_of (String.◌∷◌ c s) ms start (rw (start-is_part (code c) h, k) refl) in
      let scanned =
        behind_blank c (s <> text_of ms) l (e ∙ ap (String.◌∷◌ " ") whole) (start-space (code c) h)
        ∙ word_from c (s <> text_of ms) start h
        ∙ ap (λ (w : String). ident_token unicode start (read_ident unicode w start)) (sym whole) in
      rw scanned (refl, r.0, r.1)

  mark_read :
      (t : TokenType) (value : String) (ms : Marks) (l : Lexer)
      → IsMark unicode (t, value)
      → l.rest ≡ text_of ((t, value) ∷ ms)
      → Reads (next_token unicode l) t value (text_of ms)
  unfolding text_of mark_text is_space token_from ident_token dash_token behind_arrow
  mark_read ident String.[] ms l h e = absurd h
  mark_read ident (String.◌∷◌ c s) ms l h e = name_read c s ms l h.0 h.1 e
  mark_read string value ms l h e =
      let rest = escaped value <> String.◌∷◌ "\"" (text_of ms) in
      let r = read_string-escaped value (text_of ms) (l.pos + 1 + 1) in
      rw (behind_blank "\"" rest l e refl, r.2) (refl, r.0, r.1)
  mark_read arrow value ms l h e =
      rw (behind_blank "-" (String.◌∷◌ "-" (String.◌∷◌ ">" (text_of ms))) l e refl)
        (refl, sym h, refl)
  mark_read dot value ms l h e = rw (behind_blank "." (text_of ms) l e refl) (refl, sym h, refl)
  mark_read comma value ms l h e = rw (behind_blank "," (text_of ms) l e refl) (refl, sym h, refl)
  mark_read bar value ms l h e = rw (behind_blank "|" (text_of ms) l e refl) (refl, sym h, refl)
  mark_read lparen value ms l h e = rw (behind_blank "(" (text_of ms) l e refl) (refl, sym h, refl)
  mark_read rparen value ms l h e = rw (behind_blank ")" (text_of ms) l e refl) (refl, sym h, refl)
  mark_read _ value ms l h e = absurd h

  end_read : (l : Lexer) → l.rest ≡ "" → (next_token unicode l).0.type ≡ eof
  unfolding next_token skip_spaces token_from
  end_read l e = rw e refl

  -- The parser before the tokens of a text.
  abbrev pub parser_at : Lexer → Parser
  parser_at l =
      let (cur, lx₁) = next_token unicode l in
      let (peek, lx₂) = next_token unicode lx₁ in record { lx = lx₂; cur = cur; peek = peek }

  marks_feed :
      (ms : Marks) (l : Lexer)
      → AreMarks unicode ms
      → l.rest ≡ text_of ms
      → Feeds unicode (parser_at l) ms
  unfolding Feeds advance text_of
  marks_feed [] l h e = end_read l e
  marks_feed ((t, value) ∷ ms) l h e =
      let r = mark_read t value ms l h.0 e in
      (r.0, r.1, marks_feed ms (next_token unicode l).1 h.1 r.2)

  -- The parser of the text of some tokens stands before these tokens.
  pub text_of-Feeds :
      (ms : Marks) → AreMarks unicode ms → Feeds unicode (new_parser unicode (text_of ms)) ms
  unfolding new_parser
  text_of-Feeds ms h = marks_feed ms (new_lexer (text_of ms)) h refl
