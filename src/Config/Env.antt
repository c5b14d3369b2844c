-- ===== src/Config/Env.antt =====
-- internal/config/config.go: `applyEnv` and `Load`. The environment is a function; what Go's
-- `strings.Split` and `strconv.ParseBool` do is written out.
use Prim.Native.Char.{code}
use opensearch_query_gateway.Shared.{
  String, Bool, true, false, ◌||◌, Option, none, some, List, [], ◌∷◌, ◌==◌, str_eq, if◌then◌else◌,
  is_empty, trim_space,
}
use opensearch_query_gateway.Shared.Fallible.{Fallible, ok, err, ◌>>=◌}
use opensearch_query_gateway.Config.{
  Config, Rates, ConfigError, bad_boolean, apply_defaults, validate,
}

abbrev pub Lookup : Type 0
Lookup = String → Option String

-- The first part of a text and the others, split at each comma.
unfoldable pub split_comma : String → String × List String
split_comma String.[] = ("", [])
split_comma (String.◌∷◌ c s) =
    let (part, parts) = split_comma s in
    if code c == b',' then ("", part ∷ parts) else (String.◌∷◌ c part, parts)

unfoldable pub trim_parts : List String → List String
trim_parts [] = []
trim_parts (p ∷ ps) =
    let rest = trim_parts ps in if is_empty (trim_space p) then rest else trim_space p ∷ rest

unfoldable pub parse_list : String → List String
unfolding split_comma trim_parts trim_space
parse_list v = let (part, parts) = split_comma v in trim_parts (part ∷ parts)

unfoldable pub parse_bool : String → Option Bool
parse_bool s =
    if str_eq s "1"
      || str_eq s "t"
      || str_eq s "T"
      || str_eq s "TRUE"
      || str_eq s "true"
      || str_eq s "True"
    then some true
    else if str_eq s "0"
        || str_eq s "f"
        || str_eq s "F"
        || str_eq s "FALSE"
        || str_eq s "false"
        || str_eq s "False"
    then some false
    else none

abbrev override : {A : Type 0} → A → (String → A) → Option String → A
override old f none = old
override old f (some v) = f v

abbrev pub parsed : String → Option Bool → Fallible ConfigError Bool
parsed key none = err (bad_boolean key)
parsed key (some b) = ok b

module _ (lookup : Lookup) where
  abbrev pub env_str : String → String → String
  env_str key old = override old (λ v. v) (lookup key)

  abbrev pub env_list : String → List String → List String
  env_list key old = override old parse_list (lookup key)

  abbrev pub env_boolean : String → Bool → Fallible ConfigError Bool
  env_boolean key old = override (ok old) (λ v. parsed key (parse_bool v)) (lookup key)

  -- The configuration with the overrides, the Boolean ones given.
  unfoldable pub env_config : {F : Type 0} → Config F → Bool → Bool → Config F
  env_config cfg trust insecure = record cfg {
    server = record (cfg.server) {
      addr = env_str "GATEWAY_SERVER_ADDR" cfg.server.addr;
      trust_proxy_headers = trust;
    };
    opensearch = record (cfg.opensearch) {
      addresses = env_list "GATEWAY_OPENSEARCH_ADDRESSES" cfg.opensearch.addresses;
      username = env_str "GATEWAY_OPENSEARCH_USERNAME" cfg.opensearch.username;
      password = env_str "GATEWAY_OPENSEARCH_PASSWORD" cfg.opensearch.password;
      index = env_str "GATEWAY_OPENSEARCH_INDEX" cfg.opensearch.index;
      time_field = env_str "GATEWAY_OPENSEARCH_TIME_FIELD" cfg.opensearch.time_field;
      insecure_skip_verify = insecure;
    };
    rules = record (cfg.rules) {
      bootstrap_file = env_str "GATEWAY_RULES_BOOTSTRAP_FILE" cfg.rules.bootstrap_file;
      schema_files = env_list "GATEWAY_RULES_SCHEMA_FILES" cfg.rules.schema_files;
    };
  }

  unfoldable pub apply_env : {F : Type 0} → Config F → Fallible ConfigError (Config F)
  apply_env cfg = do
    trust ← env_boolean "GATEWAY_TRUST_PROXY_HEADERS" cfg.server.trust_proxy_headers
    insecure ←
        env_boolean "GATEWAY_OPENSEARCH_INSECURE_SKIP_VERIFY" cfg.opensearch.insecure_skip_verify
    ok (env_config cfg trust insecure)

unfoldable pub checked :
    {F : Type 0} → Config F → Option ConfigError → Fallible ConfigError (Config F)
checked cfg none = ok cfg
checked cfg (some e) = err e

-- `Load`, from the decoded file on.
unfoldable pub load : {F : Type 0} → Rates F → Lookup → Config F → Fallible ConfigError (Config F)
unfolding checked
load rates lookup decoded = do
  cfg ← apply_env lookup decoded
  let ready = apply_defaults rates cfg
  checked ready (validate ready)
