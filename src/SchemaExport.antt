-- ===== src/SchemaExport.antt =====
-- cmd/schema-export/main.go: `run`, which writes the schema of an index as Prolog facts or as JSON.
-- The files, the client library and the encoder of JSON are parameters; flags are read by the
-- standard library.
pub mod Written
use Prim.Native.Char.{Char, code}
use Prim.Native.String
use opensearch_query_gateway.Shared.{
  ℕ, String, Bool, true, false, not, ◌&&◌, Option, none, some, List, [], ◌∷◌, if◌then◌else◌,
  is_empty, str_eq, ◌<>◌, ◌==◌,
}
use opensearch_query_gateway.Shared.Int.{ℤ, pos}
use opensearch_query_gateway.Shared.Fallible.{Fallible, ok, err, ◌>>=◌}
use opensearch_query_gateway.Json.{Json}
use opensearch_query_gateway.Config.{OpenSearchConfig}
use opensearch_query_gateway.Schema.{IndexSchema}
use opensearch_query_gateway.Schema.Mapper.{from_json}
use opensearch_query_gateway.Schema.Analysis.{Introspection, analyze}
use opensearch_query_gateway.Schema.Facts.{write}
use opensearch_query_gateway.Executor.{Transport, Client, new_client, get_mapping}
use opensearch_query_gateway.Api.Errors.{Failure}

-- The values of the flags.
pub record Flags : Type 0 where
  pub in_path : String
  pub out_path : String
  pub root : String
  pub url : String
  pub index : String
  pub user : String
  pub pass : String
  pub insecure : Bool
  pub format : String
  pub purpose : String

-- What `run` leaves behind: a file, or a text on the standard output.
pub data Output : Type 0 where
  file : (path content : String) → Output
  printed : (content : String) → Output

pub data ExportError : Type 0 where
  usage : (message : String) → ExportError
  failed : (error : String) → ExportError
  cluster : Failure → ExportError
  unknown_format : (format : String) → ExportError

abbrev pub failing : {A : Type 0} → Fallible String A → Fallible ExportError A
failing (ok a) = ok a
failing (err e) = err (failed e)

abbrev pub from_cluster : {A : Type 0} → Fallible Failure A → Fallible ExportError A
from_cluster (ok a) = ok a
from_cluster (err e) = err (cluster e)

abbrev add_char : Char → List String → List String
add_char c [] = String.◌∷◌ c "" ∷ []
add_char c (part ∷ parts) = String.◌∷◌ c part ∷ parts

-- `strings.Split` at a comma.
unfoldable pub split_commas : String → List String
split_commas String.[] = "" ∷ []
split_commas (String.◌∷◌ c s) =
    let parts = split_commas s in if code c == b',' then "" ∷ parts else add_char c parts

-- The configuration of the client.
abbrev pub client_config : Flags → OpenSearchConfig
client_config f = record {
  addresses = split_commas f.url;
  username = f.user;
  password = f.pass;
  index = f.index;
  allowed_indices = [];
  insecure_skip_verify = f.insecure;
  request_timeout = pos 0;
  time_field = "";
  purpose = "";
}

-- The index name of the facts.
abbrev pub root_of : Flags → String
root_of f = if is_empty f.root then (if is_empty f.index then "logs" else f.index) else f.root

-- What the command calls: `fmt` for a status and for another number, `int` of a float,
-- `json.Unmarshal`, `os.ReadFile`, `os.WriteFile` (with its error), `json.MarshalIndent`, and
-- `opensearch.NewClient`.
pub record Tools (F B R : Type 0) : Type 0 where
  pub show_status : ℕ → String
  pub show : ℤ → String
  pub to_int : F → ℤ
  pub decode : String → Fallible String (Json F)
  pub read_file : String → Fallible String String
  pub write_file : String → String → Option String
  pub marshal_indent : Introspection → Fallible String String
  pub open_client : OpenSearchConfig → Fallible String (Transport F B R)

abbrev pub json_text : Fallible String String → Fallible ExportError String
json_text (ok text) = ok (text <> "\n")
json_text (err e) = err (failed e)

abbrev pub written : String → String → Option String → Fallible ExportError Output
written path content none = ok (file path content)
written path content (some e) = err (failed e)

module _ {F B R : Type 0} (tools : Tools F B R) where
  -- The mapping from the cluster.
  from_url : Flags → Fallible ExportError String
  from_url f = do
    client ← failing (new_client tools.open_client (client_config f))
    from_cluster (get_mapping tools.show_status client f.index)

  unfoldable pub raw_mapping : Flags → Fallible ExportError String
  unfolding from_url
  raw_mapping f =
      if not (is_empty f.in_path) && not (is_empty f.url)
      then err (usage "use either -in or -url, not both")
      else if not (is_empty f.in_path)
      then failing (tools.read_file f.in_path)
      else if not (is_empty f.url)
      then (if is_empty f.index then err (usage "-url requires -index") else from_url f)
      else err (usage "missing -in or -url")

  unfoldable pub output_text : Flags → IndexSchema → Fallible ExportError String
  output_text f sch =
      if str_eq f.format "prolog"
      then ok (write tools.show sch)
      else if str_eq f.format "json"
      then json_text (tools.marshal_indent (analyze tools.show sch f.purpose))
      else err (unknown_format f.format)

  unfoldable pub put : Flags → String → Fallible ExportError Output
  put f content =
      if is_empty f.out_path
      then ok (printed content)
      else written f.out_path content (tools.write_file f.out_path content)

  unfoldable pub run : Flags → Fallible ExportError Output
  unfolding raw_mapping output_text put
  run f = do
    raw ← raw_mapping f
    sch ← failing (from_json tools.to_int tools.decode (root_of f) raw)
    content ← output_text f sch
    put f content
