-- ===== src/Config/Overrides.antt =====
-- internal/config/config.go: what each variable of the environment overrides.
use opensearch_query_gateway.Shared.{
  String, Bool, none, some, List, ◌≡◌, refl, ◌⊎◌, inl, inr, Option-cases,
}
use opensearch_query_gateway.Shared.Fallible.{ok, err}
use opensearch_query_gateway.Config.{Config, bad_boolean}
use opensearch_query_gateway.Config.Env.{
  env_boolean, env_str, env_list, Lookup, parse_bool, parse_list, env_config,
}

-- The variable is unset, or holds a text that `strconv.ParseBool` accepts.
abbrev pub IsReadable : Lookup → String → Type 0
IsReadable lookup key =
    (lookup key ≡ none)
    ⊎ ((v : String) × (b : Bool) × (lookup key ≡ some v) × (parse_bool v ≡ some b))

abbrev pub IsBad : Lookup → String → Type 0
IsBad lookup key = (v : String) × (lookup key ≡ some v) × (parse_bool v ≡ none)

-- The setting `new` is what the text of the variable is read as, or the old one if it is unset.
abbrev pub Overridden : {A : Type 0} → Lookup → String → (String → A → Type 0) → A → A → Type 0
Overridden lookup key Reads old new =
    ((lookup key ≡ none) × (new ≡ old)) ⊎ ((v : String) × (lookup key ≡ some v) × Reads v new)

-- What is read of the text of a variable.
abbrev pub AsText : String → String → Type 0
AsText v s = s ≡ v

abbrev pub AsList : String → List String → Type 0
AsList v s = s ≡ parse_list v

abbrev pub AsBool : String → Bool → Type 0
AsBool v b = parse_bool v ≡ some b

-- Each variable sets its own setting, and the others stay.
pub record Overrides {F : Type 0} (lookup : Lookup) (old new : Config F) : Type 0 where
  pub addr : Overridden lookup "GATEWAY_SERVER_ADDR" AsText old.server.addr new.server.addr
  pub trust :
      Overridden lookup "GATEWAY_TRUST_PROXY_HEADERS" AsBool old.server.trust_proxy_headers
        new.server.trust_proxy_headers
  pub addresses :
      Overridden lookup "GATEWAY_OPENSEARCH_ADDRESSES" AsList old.opensearch.addresses
        new.opensearch.addresses
  pub username :
      Overridden lookup "GATEWAY_OPENSEARCH_USERNAME" AsText old.opensearch.username
        new.opensearch.username
  pub password :
      Overridden lookup "GATEWAY_OPENSEARCH_PASSWORD" AsText old.opensearch.password
        new.opensearch.password
  pub index :
      Overridden lookup "GATEWAY_OPENSEARCH_INDEX" AsText old.opensearch.index new.opensearch.index
  pub time_field :
      Overridden lookup "GATEWAY_OPENSEARCH_TIME_FIELD" AsText old.opensearch.time_field
        new.opensearch.time_field
  pub insecure :
      Overridden lookup "GATEWAY_OPENSEARCH_INSECURE_SKIP_VERIFY" AsBool
        old.opensearch.insecure_skip_verify new.opensearch.insecure_skip_verify
  pub bootstrap_file :
      Overridden lookup "GATEWAY_RULES_BOOTSTRAP_FILE" AsText old.rules.bootstrap_file
        new.rules.bootstrap_file
  pub schema_files :
      Overridden lookup "GATEWAY_RULES_SCHEMA_FILES" AsList old.rules.schema_files
        new.rules.schema_files
  pub max_body_bytes : new.server.max_body_bytes ≡ old.server.max_body_bytes
  pub allowed_indices : new.opensearch.allowed_indices ≡ old.opensearch.allowed_indices
  pub request_timeout : new.opensearch.request_timeout ≡ old.opensearch.request_timeout
  pub purpose : new.opensearch.purpose ≡ old.opensearch.purpose
  pub rules_timeout : new.rules.timeout ≡ old.rules.timeout
  pub search : new.search ≡ old.search
  pub rate_limit : new.rate_limit ≡ old.rate_limit

env_str-Overridden :
    (lookup : Lookup) (key old : String) → Overridden lookup key AsText old (env_str lookup key old)
env_str-Overridden lookup key old = elim (Option-cases (lookup key)) [
  | inl e ↦ inl (e, rw e refl)
  | inr (v, e) ↦ inr (v, e, rw e refl)
]

env_list-Overridden :
    (lookup : Lookup) (key : String) (old : List String)
    → Overridden lookup key AsList old (env_list lookup key old)
env_list-Overridden lookup key old = elim (Option-cases (lookup key)) [
  | inl e ↦ inl (e, rw e refl)
  | inr (v, e) ↦ inr (v, e, rw e refl)
]

pub env_boolean_cases :
    (lookup : Lookup) (key : String) (old : Bool)
    → (IsReadable lookup key
        × ((b : Bool) × Overridden lookup key AsBool old b × (env_boolean lookup key old ≡ ok b)))
      ⊎ (IsBad lookup key × (env_boolean lookup key old ≡ err (bad_boolean key)))
env_boolean_cases lookup key old = elim (Option-cases (lookup key)) [
  | inl e ↦ inl (inl e, (old, inl (e, refl), rw e))
  | inr (v, e) ↦ elim (Option-cases (parse_bool v)) [
    | inl p ↦ inr ((v, e, p), rw (e, p))
    | inr (b, p) ↦ inl (inr (v, b, e, p), (b, inr (v, e, p), rw (e, p)))
  ]
]

pub env_config-Overrides :
    {F : Type 0} (lookup : Lookup) (cfg : Config F) (t u : Bool)
    → Overridden lookup "GATEWAY_TRUST_PROXY_HEADERS" AsBool cfg.server.trust_proxy_headers t
    → Overridden lookup "GATEWAY_OPENSEARCH_INSECURE_SKIP_VERIFY" AsBool
        cfg.opensearch.insecure_skip_verify u
    → Overrides lookup cfg (env_config lookup cfg t u)
unfolding env_config
env_config-Overrides lookup cfg t u ht hu = record {
  addr = env_str-Overridden lookup "GATEWAY_SERVER_ADDR" cfg.server.addr;
  trust = ht;
  addresses = env_list-Overridden lookup "GATEWAY_OPENSEARCH_ADDRESSES" cfg.opensearch.addresses;
  username = env_str-Overridden lookup "GATEWAY_OPENSEARCH_USERNAME" cfg.opensearch.username;
  password = env_str-Overridden lookup "GATEWAY_OPENSEARCH_PASSWORD" cfg.opensearch.password;
  index = env_str-Overridden lookup "GATEWAY_OPENSEARCH_INDEX" cfg.opensearch.index;
  time_field = env_str-Overridden lookup "GATEWAY_OPENSEARCH_TIME_FIELD" cfg.opensearch.time_field;
  insecure = hu;
  bootstrap_file =
      env_str-Overridden lookup "GATEWAY_RULES_BOOTSTRAP_FILE" cfg.rules.bootstrap_file;
  schema_files = env_list-Overridden lookup "GATEWAY_RULES_SCHEMA_FILES" cfg.rules.schema_files;
  max_body_bytes = refl;
  allowed_indices = refl;
  request_timeout = refl;
  purpose = refl;
  rules_timeout = refl;
  search = refl;
  rate_limit = refl;
}
