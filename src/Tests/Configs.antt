-- ===== src/Tests/Configs.antt =====
-- Configurations and their environment.
use opensearch_query_gateway.Shared.{
  ℕ, ◌+◌, true, false, not, none, some, [], ◌∷◌, ◌≡◌, ◌⊎◌, refl, str_eq, if◌then◌else◌, ◌==◌,
}
use opensearch_query_gateway.Shared.Int.{pos}
use opensearch_query_gateway.Shared.Fallible.{ok, err}
use opensearch_query_gateway.Config.{Config, Rates, bad_boolean, apply_defaults, validate}
use opensearch_query_gateway.Config.Env.{
  Lookup, apply_env, env_config, load, parse_list, parse_bool,
}
use opensearch_query_gateway.Config.Overrides.{IsBad, IsReadable, Overrides}
use opensearch_query_gateway.Config.Loading.{
  IsReady, load-IsReady, trust_key, insecure_key, apply_env_cases,
}
use opensearch_query_gateway.Tests.Samples.{opensearch, server, floats}
use opensearch_query_gateway.Api.Errors.{other}
use opensearch_query_gateway.Rules.{exhausted}
use opensearch_query_gateway.Rules.Loading.{Engine, new}
use opensearch_query_gateway.Executor.{Transport, new_client}
use opensearch_query_gateway.Gateway.Translating.{Agree, start-Agree}
use opensearch_query_gateway.Gateway.Serving.{Web}
use opensearch_query_gateway.Api.Router.Replies.{Replies}
use opensearch_query_gateway.Executor
use opensearch_query_gateway.Tests.Services.{first_match, no_split, one_token, cluster}
use opensearch_query_gateway.Gateway.{start_playground}
use opensearch_query_gateway.Gateway.{Platform, Gateway, server_of, limits_of, start}
use opensearch_query_gateway.Gateway.Started.{IsStarted, start-IsStarted}

abbrev rates : Rates ℕ
rates = record { is_zero = λ n. n == 0; five = 5 }

-- A file that names an address and an index, and nothing else.
abbrev short_file : Config ℕ
short_file = record {
  server = record { addr = ""; trust_proxy_headers = false; max_body_bytes = pos 0 };
  opensearch = opensearch;
  rules = record { bootstrap_file = ""; schema_files = []; timeout = pos 0 };
  search = record {
    default_size = pos 0;
    max_size = pos 0;
    max_from = pos 0;
    track_total_hits = true;
  };
  rate_limit = record { rps = 0; burst = pos 0; ttl = pos 0 };
}

abbrev lookup : Lookup
lookup key =
    if str_eq key "GATEWAY_OPENSEARCH_INDEX"
    then some "logs"
    else if str_eq key "GATEWAY_TRUST_PROXY_HEADERS"
    then some "true"
    else none

-- The overrides of the environment and the defaults.
abbrev full_config : Config ℕ
full_config = apply_defaults rates (env_config lookup short_file true false)

load_short : load rates lookup short_file ≡ ok full_config
unfolding load apply_env parse_bool validate apply_defaults env_config
load_short = refl

load-IsReady_example : IsReady full_config
load-IsReady_example = load-IsReady rates lookup short_file load_short

apply_env_cases_example :
    (IsBad lookup trust_key × (apply_env lookup short_file ≡ err (bad_boolean trust_key)))
    ⊎ (IsReadable lookup trust_key
        × IsBad lookup insecure_key
        × (apply_env lookup short_file ≡ err (bad_boolean insecure_key)))
    ⊎ (IsReadable lookup trust_key
        × IsReadable lookup insecure_key
        × ((c : Config ℕ) × (apply_env lookup short_file ≡ ok c) × Overrides lookup short_file c))
apply_env_cases_example = apply_env_cases lookup short_file

parse_list_sample : parse_list "a, ,b " ≡ "a" ∷ "b" ∷ []
unfolding parse_list
parse_list_sample = refl

-- Files that hold nothing, an interpreter that counts its programs and knows nothing, and a client.
abbrev no_transport : Transport ℕ ℕ ℕ
no_transport = record {
  do_search = λ t i b. err (other "no cluster");
  do_get_mapping = λ t i. err (other "no cluster");
  do_ping = λ t. err (other "no cluster");
  is_error = λ n. true;
  read_all = λ n b. ("", none);
  marshal = λ j. ok "";
  decode_result = λ b. ok b;
  decode_error = λ s. none;
}

abbrev platform : Platform ℕ ℕ ℕ ℕ
platform = record {
  read_file = λ path. ok "";
  yaml = λ raw. ok short_file;
  lookup = lookup;
  rates = rates;
  is_positive = λ n. not (n == 0);
  floats = floats;
  unicode = record { is_letter = λ c. false; is_digit = λ c. false };
  show = λ n. "";
  blank = 0;
  exec = λ text n. ok (n + 1);
  ask = λ n t goal. exhausted none none;
  not_allowed = λ op. op;
  parse_string = server.parse_string;
  open_client = λ cfg. ok no_transport;
}

-- The prelude and the bootstrap file are loaded.
abbrev engine : Engine ℕ
engine = record { interp = 2; timeout = full_config.rules.timeout }

abbrev gateway : Gateway ℕ ℕ ℕ
gateway = record {
  server = server_of platform full_config engine;
  client = record {
    os = no_transport;
    index = full_config.opensearch.index;
    timeout = full_config.opensearch.request_timeout;
  };
  limits = limits_of platform full_config;
  trust_proxy = full_config.server.trust_proxy_headers;
  addr = full_config.server.addr;
}

started : start platform "" ≡ ok gateway
unfolding start new apply_defaults env_config new_client
started = rw load_short refl

start-IsStarted_example : (cfg : Config ℕ) × (e : Engine ℕ) × IsStarted platform "" gateway cfg e
start-IsStarted_example = start-IsStarted platform "" gateway started

start-Agree_example : Agree (start platform "") (start_playground platform "")
start-Agree_example = start-Agree platform ""

abbrev web : Web ℕ ℕ ℕ
web = record {
  mux = first_match;
  split_host = no_split;
  new_buckets = λ l. one_token;
  body_of = cluster.body_of;
  schema_request_of = cluster.schema_request_of;
  to_int = cluster.to_int;
  decode = cluster.decode;
  encodes = cluster.encodes;
  show = λ n. "1";
  show_int = cluster.show;
}
