-- ===== src/Dcg/Lexer/Progress.antt =====
-- Every token but the end of the input takes at least one character off the text.
use Prim.Native.Char.{Char, code}
use opensearch_query_gateway.Shared.{
  ℕ, suc, ◌+◌, ◌≤◌, String, Bool, true, false, not, ◌||◌, Option, none, some, ◌≡◌, refl, arith,
  ◌==◌, is_space, Bool-cases, inl, inr,
}
use opensearch_query_gateway.Dcg.Lexer.{
  Unicode, TokenType, eof, Token, Lexer, skip_spaces, Scan, read_string, behind_arrow, string_token,
  read_ident, ident_token, word_token, dash_token, token_from, next_token,
}

abbrev pub chars : String → ℕ
chars String.[] = 0
chars (String.◌∷◌ c s) = suc (chars s)

abbrev pub weight_of : TokenType → ℕ
weight_of eof = 0
weight_of _ = 1

-- 1 for a token that stands in the text.
abbrev pub weight : Token → ℕ
weight t = weight_of t.type

-- The token and what is left are no longer than the text.
abbrev Fits : Token × Lexer → ℕ → Type 0
Fits r n = weight r.0 + chars r.1.rest ≤ n

skip_spaces-le : (b : Bool) (s : String) (pos : ℕ) → chars (skip_spaces b s pos).rest ≤ chars s
unfolding skip_spaces
skip_spaces-le b String.[] pos = omega arith
skip_spaces-le true (String.◌∷◌ c s) pos =
    omega (arith, skip_spaces-le (not (code c == b'\n')) s (pos + 1))
skip_spaces-le false (String.◌∷◌ c s) pos =
    elim (Bool-cases (is_space (code c) || code c == b'%')) [
      | inl e ↦ rw e (omega (arith, skip_spaces-le (code c == b'%') s (pos + 1)))
      | inr e ↦ rw e (omega arith)
    ]

read_string-le : (b : Bool) (s : String) (pos : ℕ) → chars (read_string b s pos).rest ≤ chars s
unfolding read_string
read_string-le b String.[] pos = omega arith
read_string-le true (String.◌∷◌ c s) pos = omega (arith, read_string-le false s (pos + 1))
read_string-le false (String.◌∷◌ c s) pos = elim (Bool-cases (code c == b'"')) [
  | inl e ↦ rw e (omega arith)
  | inr e ↦ elim (Bool-cases (code c == b'\\')) [
    | inl k ↦ rw (e, k) (omega (arith, read_string-le true s (pos + 1)))
    | inr k ↦ rw (e, k) (omega (arith, read_string-le false s (pos + 1)))
  ]
]

string_token-Fits :
    (start : ℕ) (scan : Scan) → Fits (string_token start scan) (suc (chars scan.rest))
string_token-Fits start scan = elim (Bool-cases scan.closed) [
  | inl e ↦ rw e (omega arith)
  | inr e ↦ rw e (omega arith)
]

behind_arrow-le : (s t : String) → behind_arrow s ≡ some t → chars t ≤ chars s
unfolding behind_arrow
behind_arrow-le String.[] t h = cc
behind_arrow-le (String.◌∷◌ c String.[]) t h = cc
behind_arrow-le (String.◌∷◌ c (String.◌∷◌ d s)) t h = ground arith

module _ (unicode : Unicode) where
  read_ident-le : (s : String) (pos : ℕ) → chars (read_ident unicode s pos).rest ≤ chars s
  unfolding read_ident
  read_ident-le String.[] pos = omega arith
  read_ident-le (String.◌∷◌ c s) pos =
      elim (Bool-cases
        (unicode.is_letter (code c) || unicode.is_digit (code c) || code c == b'_')) [
          | inl e ↦ rw e (omega (arith, read_ident-le s (pos + 1)))
          | inr e ↦ rw e (omega arith)
        ]

  word_token-Fits :
      (c : Char) (s : String) (start : ℕ) → Fits (word_token unicode c s start) (suc (chars s))
  unfolding word_token ident_token read_ident
  word_token-Fits c s start = ground (arith, read_ident-le s (start + 1))

  dash_token-Fits :
      (c : Char) (s : String) (start : ℕ) (o : Option String)
      → ((t : String) → o ≡ some t → chars t ≤ chars s)
      → Fits (dash_token unicode c s start o) (suc (chars s))
  unfolding dash_token
  dash_token-Fits c s start none h = word_token-Fits c s start
  dash_token-Fits c s start (some t) h = omega (arith, h t refl)

  token_from-Fits : (s : String) (start : ℕ) → Fits (token_from unicode s start) (chars s)
  unfolding token_from
  token_from-Fits String.[] start = omega arith
  token_from-Fits (String.◌∷◌ c s) start = ground (
    arith,
    string_token-Fits start (read_string false s (start + 1)),
    read_string-le false s (start + 1),
    dash_token-Fits c s start (behind_arrow s) (behind_arrow-le s),
    word_token-Fits c s start,
  )

  pub next_token-Fits : (l : Lexer) → Fits (next_token unicode l) (chars l.rest)
  unfolding next_token
  next_token-Fits l =
      let behind = skip_spaces false l.rest l.pos in
      omega (arith, skip_spaces-le false l.rest l.pos, token_from-Fits behind.rest behind.pos)
