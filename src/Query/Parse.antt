-- ===== src/Query/Parse.antt =====
-- internal/parser/grammar.go: `Parse`. The grammar is run by a third-party parser, a parameter.
use opensearch_query_gateway.Shared.{String, trim_space, is_empty, if◌then◌else◌}
use opensearch_query_gateway.Query.{Query}

-- `ErrEmptyQuery`, or an error of the third-party parser with its text.
pub data ParseError : Type 0 where
  err_empty_query : ParseError
  syntax_error : String → ParseError

pub data Parsed : Type 0 where
  ok : Query → Parsed
  err : ParseError → Parsed

unfoldable pub parse : (String → Parsed) → String → Parsed
parse parse_string input =
    if is_empty (trim_space input) then err err_empty_query else parse_string input
