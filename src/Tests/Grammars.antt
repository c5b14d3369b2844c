-- ===== src/Tests/Grammars.antt =====
-- A grammar and its clauses, and the rules that an engine loads.
use opensearch_query_gateway.Shared.{
  ℕ, String, List, [], ◌∷◌, ◌≡◌, ◌↔◌, refl, within, ◌||◌, ◌<>◌, str_eq, true, arith, if◌then◌else◌,
  is_space, join,
}
use opensearch_query_gateway.Shared.Int.{pos}
use opensearch_query_gateway.Shared.Fallible.{Fallible, ok, err}
use opensearch_query_gateway.Dcg.{seq, alt, symbol, terminal, empty, nil, cons, Rule}
use opensearch_query_gateway.Dcg.Lexer.{Unicode, eof, Token, next_token}
use opensearch_query_gateway.Dcg.Parser.{Parser, advance, new_parser, parse_rules}
use opensearch_query_gateway.Dcg.Parser
use opensearch_query_gateway.Dcg.Printer.{AreRules, IsNormal, is_plain, AreTables, print_rules}
use opensearch_query_gateway.Dcg.Printer.Normal.{parse_rules_again}
use opensearch_query_gateway.Dcg.Printer.RoundTrip.{parse_rules-print_rules}
use opensearch_query_gateway.Dcg.Parser.Reads.{Ends}
use opensearch_query_gateway.Dcg.Parser.Total.{ReadsAll, parse_rules_reads}
use opensearch_query_gateway.Dcg.Generator.{quote_atom, gen_expr, gen_rule, clauses, compile}
use opensearch_query_gateway.Dcg.Generator.Goals.{
  input, output, goal_of, Env, Program, Holds, Takes, print,
}
use opensearch_query_gateway.Dcg.Generator.Goals.Meaning.{gen_rule_means}
use opensearch_query_gateway.Rules.Loading.{new}
use opensearch_query_gateway.Rules.Loading.Loaded.{InOrder, NewOutcome, new-outcome}

-- The letters and digits of ASCII.
abbrev ascii : Unicode
ascii = record {
  is_letter = λ (c : ℕ). within b'a' b'z' c || within b'A' b'Z' c;
  is_digit = λ (c : ℕ). within b'0' b'9' c;
}

-- The one number that is written here is 1.
abbrev digit : ℕ → String
digit n = "1"

abbrev grammar : String
grammar = "query --> \"find\", field | all."

abbrev clause : String
clause = "query(S0,S) :- (S0 = ['find'|S1], field(S1,S) ; all(S0,S))."

compile_sample : compile digit ascii grammar ≡ clauses clause
unfolding compile parse_rules next_token is_space advance join gen_expr quote_atom
compile_sample = refl

parse_rules_reads_example :
    Ends (ReadsAll ascii (new_parser ascii grammar)) (parse_rules ascii grammar)
parse_rules_reads_example = parse_rules_reads ascii grammar

abbrev query_rule : Rule
query_rule = record {
  head = "query";
  body =
      alt
        (cons (seq (cons (terminal "find") (cons (symbol "field") nil))) (cons (symbol "all") nil));
}

ascii-AreTables : AreTables ascii
unfolding is_space
ascii-AreTables = record { letter_plain = letters; blank_digit = refl }
  where
    letters : (c : ℕ) → ascii.is_letter c ≡ true → is_plain c ≡ true
    letters c h = ground arith

-- The grammar is read to its end.
abbrev end_token : Token
end_token = record { type = eof; value = ""; pos = 30 }

abbrev at_end : Parser
at_end = record { lx = record { rest = ""; pos = 30 }; cur = end_token; peek = end_token }

grammar_read : parse_rules ascii grammar ≡ Parser.ok (query_rule ∷ []) at_end
unfolding parse_rules next_token is_space advance
grammar_read = refl

parse_rules_again_example :
    AreRules ascii (query_rule ∷ [])
    × ((q : Parser) × (parse_rules ascii (print_rules (query_rule ∷ []))
          ≡ Parser.ok (query_rule ∷ []) q))
parse_rules_again_example =
    parse_rules_again ascii grammar (query_rule ∷ []) at_end ascii-AreTables grammar_read

-- Every predicate takes the rest of the tokens.
abbrev takes_rest : Program
takes_rest name xs ys = ys ≡ []

-- A rule with a nested choice, and strings that need an escape.
abbrev nested_rule : Rule
nested_rule = record {
  head = "clause_2";
  body = seq (
      cons (alt (cons (terminal "say \"hi\"") (cons empty nil)))
        (cons (symbol "_rest") (cons (terminal "a\\b") nil)));
}

print_rules_sample :
    print_rules (nested_rule ∷ [])
    ≡ " clause_2 --> ( \"say \\\"hi\\\"\" | ( ) ) , _rest , \"a\\\\b\" ."
unfolding print_rules
print_rules_sample = refl

parse_rules-print_rules_example :
    (p : Parser) × (parse_rules ascii (print_rules (query_rule ∷ nested_rule ∷ []))
      ≡ Parser.ok (query_rule ∷ nested_rule ∷ []) p)
unfolding IsNormal
parse_rules-print_rules_example =
    parse_rules-print_rules ascii (query_rule ∷ nested_rule ∷ []) ascii-AreTables (
      (refl, refl),
      ((((tt, ((refl, refl), tt)), tt), ((refl, refl), tt)), tt),
      ((refl, refl), ((((tt, (tt, tt)), tt), ((refl, refl), (tt, tt))), tt), tt),
    )

gen_rule_means_example :
    ((gen_rule digit query_rule 0).0
      ≡ "query" <> "(S0,S) :- " <> print digit (goal_of query_rule.body input output 0).0 <> ".")
    × (Takes takes_rest query_rule.body ("find" ∷ "title" ∷ []) [] ↔ (
        (env : Env) × (env input ≡ "find" ∷ "title" ∷ [])
        × (env output ≡ [])
        × Holds takes_rest env (goal_of query_rule.body input output 0).0))
gen_rule_means_example = gen_rule_means digit takes_rest query_rule 0 ("find" ∷ "title" ∷ []) []

-- A disk with a grammar and a bootstrap file, and an interpreter that lists its programs.
abbrev disk : String → Fallible String String
disk file =
    if str_eq file "q.dcg"
    then ok grammar
    else if str_eq file "boot.pl"
    then ok "known_field(title)."
    else err "no such file"

abbrev list_program : String → List String → Fallible String (List String)
list_program text programs = ok (text ∷ programs)

new-outcome_example :
    (files : List String) × InOrder "boot.pl" ("q.dcg" ∷ []) files
    × NewOutcome ascii digit disk list_program [] files
        (new ascii digit disk list_program [] "boot.pl" (pos 0) ("q.dcg" ∷ []))
new-outcome_example = new-outcome ascii digit disk list_program [] "boot.pl" (pos 0) ("q.dcg" ∷ [])
