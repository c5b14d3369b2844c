-- ===== src/Config.antt =====
-- internal/config/config.go: the configuration, its defaults, its checks and its overrides from
-- the environment. `load` starts from the decoded value; Gateway reads and decodes the file. A duration is a number of nanoseconds. `F` is the type of the 64-bit floats, of
-- which only the test for 0 and the default rate are used.
pub mod Env
pub mod Defaults
pub mod Overrides
pub mod Allowed
pub mod Loading
pub mod Parts
use opensearch_query_gateway.Shared.{
  ℕ, String, Bool, true, false, ◌||◌, Option, none, some, List, [], ◌∷◌, str_eq, if◌then◌else◌,
  is_empty, ◌==◌,
}
use opensearch_query_gateway.Shared.Int.{ℤ, pos, ◌≤ℤ◌, leb_ℤ, ltb_ℤ}

pub record ServerConfig : Type 0 where
  pub addr : String
  pub trust_proxy_headers : Bool
  pub max_body_bytes : ℤ

pub record OpenSearchConfig : Type 0 where
  pub addresses : List String
  pub username : String
  pub password : String
  pub index : String
  pub allowed_indices : List String
  pub insecure_skip_verify : Bool
  pub request_timeout : ℤ
  pub time_field : String
  pub purpose : String

pub record RulesConfig : Type 0 where
  pub bootstrap_file : String
  pub schema_files : List String
  pub timeout : ℤ

pub record SearchConfig : Type 0 where
  pub default_size : ℤ
  pub max_size : ℤ
  pub max_from : ℤ
  pub track_total_hits : Bool

pub record RateLimitConfig (F : Type 0) : Type 0 where
  pub rps : F
  pub burst : ℤ
  pub ttl : ℤ

pub record Config (F : Type 0) : Type 0 where
  pub server : ServerConfig
  pub opensearch : OpenSearchConfig
  pub rules : RulesConfig
  pub search : SearchConfig
  pub rate_limit : RateLimitConfig F

pub record Rates (F : Type 0) : Type 0 where
  pub is_zero : F → Bool
  pub five : F

unfoldable pub contains : String → List String → Bool
contains s [] = false
contains s (x ∷ xs) = str_eq x s || contains s xs

unfoldable pub index_allowed : OpenSearchConfig → String → Bool
unfolding contains
index_allowed c index = if str_eq index c.index then true else contains index c.allowed_indices

abbrev pub or_text : String → String → String
or_text default s = if is_empty s then default else s

-- The default where the number is not positive.
abbrev pub or_positive : ℤ → ℤ → ℤ
or_positive default n = if leb_ℤ n (pos 0) then default else n

abbrev pub is_zero_ℤ : ℤ → Bool
is_zero_ℤ (pos n) = n == 0
is_zero_ℤ _ = false

-- The default where the number is 0.
abbrev pub or_nonzero : ℤ → ℤ → ℤ
or_nonzero default n = if is_zero_ℤ n then default else n

unfoldable pub search_defaults : SearchConfig → SearchConfig
search_defaults c = record c {
  default_size = or_positive (pos 10) c.default_size;
  max_size = or_positive (pos 100) c.max_size;
  max_from = or_positive (pos 10000) c.max_from;
}

-- 200 ms, 10 s and 10 min.
abbrev pub rules_timeout : ℤ
rules_timeout = pos 200000000

abbrev request_timeout_default : ℤ
request_timeout_default = pos 10000000000

abbrev ttl_default : ℤ
ttl_default = pos 600000000000

unfoldable pub apply_defaults : {F : Type 0} → Rates F → Config F → Config F
unfolding search_defaults
apply_defaults rates cfg = record cfg {
  server = record (cfg.server) {
    addr = or_text ":8080" cfg.server.addr;
    max_body_bytes = or_positive (pos 1048576) cfg.server.max_body_bytes;
  };
  rules = record (cfg.rules) { timeout = or_nonzero rules_timeout cfg.rules.timeout };
  opensearch = record (cfg.opensearch) {
    request_timeout = or_nonzero request_timeout_default cfg.opensearch.request_timeout;
    time_field = or_text "@timestamp" cfg.opensearch.time_field;
  };
  search = search_defaults cfg.search;
  rate_limit = record {
    rps = if rates.is_zero cfg.rate_limit.rps then rates.five else cfg.rate_limit.rps;
    burst = or_nonzero (pos 10) cfg.rate_limit.burst;
    ttl = or_nonzero ttl_default cfg.rate_limit.ttl;
  };
}

pub data ConfigError : Type 0 where
  no_addresses : ConfigError
  no_index : ConfigError
  size_too_large : ℤ → ℤ → ConfigError
  bad_boolean : String → ConfigError

abbrev is_nil : List String → Bool
is_nil [] = true
is_nil (_ ∷ _) = false

-- `none` is a configuration that passes.
unfoldable pub validate : {F : Type 0} → Config F → Option ConfigError
validate cfg =
    if is_nil cfg.opensearch.addresses
    then some no_addresses
    else if is_empty cfg.opensearch.index
    then some no_index
    else if ltb_ℤ cfg.search.max_size cfg.search.default_size
    then some (size_too_large cfg.search.default_size cfg.search.max_size)
    else none
