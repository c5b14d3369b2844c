-- ===== src/Dcg/Lexer.antt =====
-- internal/dcg/lexer.go: the tokens of a grammar. The lexer keeps the text from its position on.
-- The tables behind `unicode.IsLetter` and `unicode.IsDigit` are given.
pub mod Progress
use Prim.Native.Char.{Char, code}
use Prim.Native.String
use opensearch_query_gateway.Shared.{
  ℕ, zero, suc, ◌+◌, String, Bool, true, false, not, ◌||◌, ◌&&◌, Option, none, some, if◌then◌else◌,
  ◌==◌, is_space,
}

pub record Unicode : Type 0 where
  pub is_letter : ℕ → Bool
  pub is_digit : ℕ → Bool

pub data TokenType : Type 0 where
  eof : TokenType
  ident : TokenType
  string : TokenType
  arrow : TokenType
  dot : TokenType
  comma : TokenType
  bar : TokenType
  lparen : TokenType
  rparen : TokenType
  illegal : TokenType

pub record Token : Type 0 where
  pub type : TokenType
  pub value : String
  pub pos : ℕ

pub record Lexer : Type 0 where
  pub rest : String
  pub pos : ℕ

abbrev pub new_lexer : String → Lexer
new_lexer s = record { rest = s; pos = 0 }

-- `skipSpaces`; the flag says whether a comment is being skipped, which ends with its line.
unfoldable pub skip_spaces : Bool → String → ℕ → Lexer
skip_spaces comment String.[] pos = record { rest = ""; pos = pos }
skip_spaces true (String.◌∷◌ c s) pos = skip_spaces (not (code c == b'\n')) s (pos + 1)
skip_spaces false (String.◌∷◌ c s) pos =
    let later = skip_spaces (code c == b'%') s (pos + 1) in
    if is_space (code c) || code c == b'%'
    then later
    else record { rest = String.◌∷◌ c s; pos = pos }

-- What was written to the builder, what is left, and whether the closing quote was found.
pub record Scan : Type 0 where
  pub value : String
  pub rest : String
  pub pos : ℕ
  pub closed : Bool

abbrev pub write_rune : Char → Scan → Scan
write_rune c scan = record scan { value = String.◌∷◌ c scan.value }

-- The text behind an opening quote; the flag says whether the next character is escaped.
unfoldable pub read_string : Bool → String → ℕ → Scan
read_string escaped String.[] pos = record { value = ""; rest = ""; pos = pos; closed = false }
read_string true (String.◌∷◌ c s) pos = write_rune c (read_string false s (pos + 1))
read_string false (String.◌∷◌ c s) pos =
    let later = read_string (code c == b'\\') s (pos + 1) in
    if code c == b'"'
    then record { value = ""; rest = s; pos = pos + 1; closed = true }
    else if code c == b'\\'
    then later
    else write_rune c later

-- What follows a dash, if that dash begins an arrow.
unfoldable pub behind_arrow : String → Option String
behind_arrow (String.◌∷◌ c (String.◌∷◌ d s)) =
    if code c == b'-' && code d == b'>' then some s else none
behind_arrow _ = none

abbrev pub token : TokenType → String → ℕ → String → ℕ → Token × Lexer
token type value start rest pos =
    (record { type = type; value = value; pos = start }, record { rest = rest; pos = pos })

abbrev pub string_token : ℕ → Scan → Token × Lexer
string_token start scan =
    if scan.closed
    then token string scan.value start scan.rest scan.pos
    else token illegal "unterminated string" start scan.rest scan.pos

module _ (unicode : Unicode) where
  unfoldable pub read_ident : String → ℕ → Scan
  read_ident String.[] pos = record { value = ""; rest = ""; pos = pos; closed = true }
  read_ident (String.◌∷◌ c s) pos =
      let later = read_ident s (pos + 1) in
      if unicode.is_letter (code c) || unicode.is_digit (code c) || code c == b'_'
      then write_rune c later
      else record { value = ""; rest = String.◌∷◌ c s; pos = pos; closed = true }

  unfoldable pub ident_token : ℕ → Scan → Token × Lexer
  ident_token start scan = token ident scan.value start scan.rest scan.pos

  -- A token that is none of the marks.
  unfoldable pub word_token : Char → String → ℕ → Token × Lexer
  word_token c s start =
      if unicode.is_letter (code c) || code c == b'_'
      then ident_token start (read_ident (String.◌∷◌ c s) start)
      else token illegal (String.◌∷◌ c "") start s (start + 1)

  unfoldable pub dash_token : Char → String → ℕ → Option String → Token × Lexer
  dash_token c s start none = word_token c s start
  dash_token c s start (some rest) = token arrow "-->" start rest (start + 3)

  -- `NextToken` behind the white space.
  unfoldable pub token_from : String → ℕ → Token × Lexer
  unfolding read_string behind_arrow read_ident ident_token word_token dash_token
  token_from String.[] start = token eof "" start "" start
  token_from (String.◌∷◌ c s) start =
      if code c == b'.'
      then token dot "." start s (start + 1)
      else if code c == b','
      then token comma "," start s (start + 1)
      else if code c == b'|'
      then token bar "|" start s (start + 1)
      else if code c == b'('
      then token lparen "(" start s (start + 1)
      else if code c == b')'
      then token rparen ")" start s (start + 1)
      else if code c == b'"'
      then string_token start (read_string false s (start + 1))
      else if code c == b'-'
      then dash_token c s start (behind_arrow s)
      else word_token c s start

  unfoldable pub next_token : Lexer → Token × Lexer
  unfolding skip_spaces token_from
  next_token l = let behind = skip_spaces false l.rest l.pos in token_from behind.rest behind.pos
