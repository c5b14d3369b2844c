-- ===== src/Tests/Exports.antt =====
-- The schema of an index over HTTP and on the command line, and a request through the middlewares.
use Prim.Native.String.{len}
use opensearch_query_gateway.Shared.{
  ℕ, ◌≤◌, String, true, false, Option, none, some, [], ◌∷◌, ◌≡◌, ◌↔◌, refl, str_eq, if◌then◌else◌,
  is_empty, arith,
}
use opensearch_query_gateway.Shared.Int.{ℤ, pos}
use opensearch_query_gateway.Shared.Fallible.{Fallible, ok, err}
use opensearch_query_gateway.Json.{Json, str, obj, end, prop}
use opensearch_query_gateway.Config.{OpenSearchConfig}
use opensearch_query_gateway.Schema.{IndexSchema}
use opensearch_query_gateway.Schema.Mapper.{from_json}
use opensearch_query_gateway.Schema.Analysis.{Introspection, analyze}
use opensearch_query_gateway.Schema.Facts.{write}
use opensearch_query_gateway.Executor.{Transport}
use opensearch_query_gateway.SchemaExport.{Tools, Flags, printed, root_of, run}
use opensearch_query_gateway.SchemaExport.Written.{IsSource, IsText, IsOutput, run_iff}
use opensearch_query_gateway.Api.Errors.{Failure, other}
use opensearch_query_gateway.Api.Schemas.{read, SchemaRequest, shown, introspect, prolog_facts}
use opensearch_query_gateway.Api.Schemas.Obtained.{Obtained, schema_shown}
use opensearch_query_gateway.Api.Middleware.{Request, Service, panics, Handler, request_id, stack}
use opensearch_query_gateway.Api.Middleware.Stack.{entered, Answered, stack_answers}
use opensearch_query_gateway.Tests.Samples.{server}

abbrev no_number : ℤ → String
no_number n = ""

abbrev to_int : ℕ → ℤ
to_int n = pos n

-- The one text that decodes is a mapping with a title.
abbrev decode_title : String → Fallible String (Json ℕ)
decode_title raw =
    if str_eq raw "{}"
    then ok
        (obj (prop "properties" (obj (prop "title" (obj (prop "type" (str "text") end)) end)) end))
    else err "invalid"

abbrev no_cluster : String → Fallible Failure String
no_cluster index = err (other "no cluster")

abbrev posted_title : SchemaRequest
posted_title = record { index = "posts"; is_post = true; body = read "{}" }

abbrev title_schema : IndexSchema
title_schema = record {
  name = "posts";
  fields =
      record {
        path = "title";
        type = "text";
        indexed = none;
        doc_values = none;
        fielddata = false;
        analyzer = "";
        format = "";
        ignore_above = none;
        is_object = false;
        is_nested = false;
        parent = "";
      }
      ∷ [];
}

schema_shown_example :
    ((introspect to_int decode_title server no_cluster no_number posted_title
        ≡ shown (analyze no_number title_schema ""))
      ↔ ((sch : IndexSchema) × Obtained to_int decode_title server no_cluster posted_title sch
          × (analyze no_number title_schema ""
              ≡ analyze no_number sch (
                  if str_eq sch.name server.opensearch.index
                  then server.opensearch.purpose
                  else ""))))
    × ((prolog_facts to_int decode_title server no_cluster no_number posted_title
          ≡ shown (write no_number title_schema))
        ↔ ((sch : IndexSchema) × Obtained to_int decode_title server no_cluster posted_title sch
            × (write no_number title_schema ≡ write no_number sch)))
schema_shown_example =
    schema_shown to_int decode_title server no_cluster posted_title no_number
      (analyze no_number title_schema "") (write no_number title_schema)

prolog_facts_sample :
    prolog_facts to_int decode_title server no_cluster no_number posted_title
    ≡ shown (write no_number title_schema)
unfolding prolog_facts from_json
prolog_facts_sample = refl

abbrev flags : Flags
flags = record {
  in_path = "mapping.json";
  out_path = "";
  root = "posts";
  url = "";
  index = "";
  user = "";
  pass = "";
  insecure = false;
  format = "prolog";
  purpose = "";
}

abbrev disk : String → Fallible String String
disk path = if str_eq path "mapping.json" then ok "{}" else err "no such file"

abbrev full_disk : String → String → Option String
full_disk path content = some "no space"

abbrev no_json : Introspection → Fallible String String
no_json a = err "not encoded"

abbrev no_client : OpenSearchConfig → Fallible String (Transport ℕ ℕ ℕ)
no_client cfg = err "no client"

abbrev one : ℕ → String
one n = "1"

abbrev tools : Tools ℕ ℕ ℕ
tools = record {
  show_status = one;
  show = no_number;
  to_int = to_int;
  decode = decode_title;
  read_file = disk;
  write_file = full_disk;
  marshal_indent = no_json;
  open_client = no_client;
}

run_iff_example : (run tools flags ≡ ok (printed (write no_number title_schema))) ↔ (
    (raw : String) × (sch : IndexSchema) × (content : String) × IsSource tools flags raw
    × (from_json to_int decode_title (root_of flags) raw ≡ ok sch)
    × IsText tools flags sch content
    × IsOutput tools flags content (printed (write no_number title_schema)))
run_iff_example = run_iff tools flags (printed (write no_number title_schema))

run_sample : run tools flags ≡ ok (printed (write no_number title_schema))
unfolding run from_json
run_sample = refl

-- A request without an id, and a handler that panics.
abbrev search_request : Request
search_request = record {
  method = "POST";
  path = "/v1/search";
  remote_addr = "10.0.0.1:5000";
  header = λ k. "";
}

abbrev service : Service (Unit {0}) ℕ
service = record {
  headers = λ k. none;
  sent = none;
  body = [];
  recorded = 0;
  log = [];
  shared = tt;
}

abbrev broken : Handler (Unit {0}) ℕ
broken r w = panics "nil map" w

abbrev address : Request → String
address r = r.remote_addr

stack_answers_example :
    let id = request_id "00ff00ff00ff00ff" search_request in
    (is_empty id ≡ false)
    × (len id ≤ 64)
    × Answered address search_request
        (broken search_request (entered id service))
        (stack "00ff00ff00ff00ff" address broken search_request service)
stack_answers_example =
    stack_answers "00ff00ff00ff00ff" address broken search_request service refl (omega arith)
