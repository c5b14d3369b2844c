-- ===== src/Lib.antt =====
-- Verification of the OpenSearch query gateway.
--
-- The gateway takes a query in a small language over HTTP, has a Prolog rule base check and
-- normalise its clauses, translates it to the query DSL of OpenSearch and sends it to the cluster.
-- The files, and the code they model (paths from the root of the repository):
--   Query         internal/parser/ast.go: the syntax tree, `WalkClauses`, `Op`, `RawValue` and
--                 `Duration`. The two lists of operands in the tree are data types of their own,
--                 in one mutual block with the rest. `WalkClauses` passes a state along, which
--                 stands for the variables that its callback changes. Query/Parse is
--                 `Parser.Parse` of internal/parser/grammar.go. Query/Meaning is what a query
--                 means, once it is known which clauses hold.
--   Dsl, Builder  internal/dslbuilder/builder.go: the query of a clause, and the bool queries, the
--                 page and the sort criteria around it. Json is the type of a body and of a
--                 mapping; BoolQuery is what OpenSearch's documentation says of `bool` queries,
--                 and the specification against which Builder is proved.
--   Config        internal/config/config.go: `applyEnv`, `applyDefaults`, `Validate`, `Load`,
--                 `IndexAllowed`.
--   Rules         internal/rules/engine.go: `first`, `NormalizeField`, `KnownField`, `Validate`.
--   Api           Errors is `writeErr` of internal/api/server.go; Page and Translate are `page`,
--                 `translate`, `checkClause` and `validate` of internal/api/handler_search.go.
--                 The interface `RuleEngine` is a record of functions.
--                 Handlers is `decode` and the handlers `Search` and `Translate`;
--                 Server is `NewServer`, with the options that cmd/gateway/main.go hands it;
--                 RateLimit is `RateLimiter` of internal/api/middleware.go, and Middleware the
--                 rest of that file, with handlers that take the state of the service and return
--                 it or panic; Schemas is handler_schema.go; Health is `Healthz` and
--                 `Readyz` of server.go; Endpoints is what the handlers write; Router is
--                 internal/api/router.go, and Playground internal/api/playground.go.
--   Schema        internal/schema/models.go and analyzer.go, which says what the fields of an
--                 index can be used for, and prolog_writer.go, which writes this as Prolog facts.
--                 Schema/Atoms/Reading, Schema/Facts/Reading and Facts/Lines are how Prolog reads them.
--                 Schema/Mapper is mapper.go, which reads the fields from a mapping: the walk
--                 over its properties, key by key in their order, and the lookups by path.
--                 Mapper/Same says when two JSON values differ in the order of entries only.
--   Executor      internal/executor/client.go: the client of the cluster.
--   Gateway       the parts that cmd/gateway/main.go makes of a configuration file, and those that
--                 cmd/playground/main.go makes. Gateway/Serving is the HTTP server of the former.
--   SchemaExport  `run` of cmd/schema-export/main.go.
--   Dcg           internal/dcg: the compiler of grammars. Dcg is the syntax tree (ast.go), Lexer
--                 is lexer.go, Parser is parser.go, whose methods take the parser's state and
--                 return it, and Generator is generator.go with the counter passed along.
--                 Printer writes a grammar as text, for the round trip through lexer and parser.
--                 Generator/Goals is what the generated clauses mean: goals over variables that
--                 stand for lists of tokens; Prolog's resolution itself is not modelled.
--   Rules/Bootstrap internal/rules/bootstrap.pl, the shipped rules, as answers to the goals of the
--                 engine from lists of facts.
--   Rules/Loading `New` and `Load` of internal/rules/engine.go, which compile and load the files.
--   Shared        helpers: tests, lists, Go's 64-bit `int`, and the text functions of Go's
--                 standard library that the code calls.
--   Tests         runs on concrete inputs, and each theorem applied at one.
--
-- Parameters stand for code outside of the repository: the participle grammar (a function from a
-- text to a tree or an error), `strconv.ParseFloat` with the value 1 (`Floats`), the test for 0
-- and the rate 5 among floats (`Rates`), the Prolog interpreter (`Interpreter`, from goals to
-- outcomes), the environment (`Lookup`), what the JSON decoder makes of the body of a request
-- (`Body`) or of a mapping (`decode`), the letters and digits of Unicode (`Unicode`), the file
-- system (`read_file`) and the state and `Exec` of the interpreter (`exec`), the cluster
-- (`Backend`), the cluster's client library (`Transport`), the token buckets (`Buckets`), the values
-- that the encoder of JSON does not fail on (`encodes`), random request ids, the multiplexer of
-- net/http (`mux`) and its file server (`serve_file`), and how `fmt` writes a number (`show`).
-- Nothing is assumed of them, except where a theorem says so in a hypothesis.
--
-- Every function is total by structural recursion. Only the parser of grammars takes fuel, five
-- for each character of the text and four more: each token takes a character, and between two
-- tokens the parser makes at most five calls. That this is enough is a theorem. A duration is a
-- number of nanoseconds. Sums of `int` wrap around at 2^63 (`add_int`). A map of the source with
-- string keys is an association list whose `set_prop` replaces the value of a key that is there.
-- The message of an `apiError` is kept as its format and arguments.
--
-- Not modelled: decoding and encoding YAML and JSON, the network, the multiplexer of net/http, the
-- resolution of Prolog, and the flags of the commands, listening and shutting down.
-- Two requests share the interpreter and the maps of the rate limiter, each behind a lock, so a
-- question to the interpreter and a change of the maps is one step. A request's look for its bucket
-- and its question to the bucket, which the source asks behind the lock, are one step as well.
pub mod Shared
pub mod Query
pub mod Json
pub mod BoolQuery
pub mod Dsl
pub mod Builder
pub mod Config
pub mod Rules
pub mod Schema
pub mod Dcg
pub mod Executor
pub mod Api
pub mod SchemaExport
pub mod Gateway
mod Tests
