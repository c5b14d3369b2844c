-- ===== src/Config/Loading.antt =====
-- What a configuration that `Load` returns guarantees, and when the environment is refused.
use mathlib.Core.Path.{subst}
use opensearch_query_gateway.Shared.{
  String, Option, none, some, [], ◌≡◌, ◌≢◌, refl, sym, ◌⊎◌, inl, inr, eq_iff, arith, ◌∙◌,
}
use opensearch_query_gateway.Shared.Int.{pos, ◌≤ℤ◌}
use opensearch_query_gateway.Shared.Fallible.{ok, err, >>=-ok_inv, ok-injective}
use opensearch_query_gateway.Config.{
  Config, Rates, ConfigError, bad_boolean, validate, apply_defaults,
}
use opensearch_query_gateway.Config.Defaults.{
  IsPositive, or_positive-IsPositive, or_text-ne-nil, or_nonzero-ne-zero,
}
use opensearch_query_gateway.Config.Env.{Lookup, apply_env, checked, load}
use opensearch_query_gateway.Config.Overrides.{
  IsReadable, IsBad, Overrides, env_boolean_cases, env_config-Overrides,
}

-- What the rest of the program relies on.
pub record IsReady {F : Type 0} (cfg : Config F) : Type 0 where
  pub addresses : cfg.opensearch.addresses ≢ []
  pub index : cfg.opensearch.index ≢ ""
  pub time_field : cfg.opensearch.time_field ≢ ""
  pub addr : cfg.server.addr ≢ ""
  pub max_body_bytes : IsPositive cfg.server.max_body_bytes
  pub default_size : IsPositive cfg.search.default_size
  pub size_limit : cfg.search.default_size ≤ℤ cfg.search.max_size
  pub max_from : IsPositive cfg.search.max_from
  pub rules_timeout : cfg.rules.timeout ≢ pos 0
  pub request_timeout : cfg.opensearch.request_timeout ≢ pos 0
  pub burst : cfg.rate_limit.burst ≢ pos 0
  pub ttl : cfg.rate_limit.ttl ≢ pos 0

module _ {F : Type 0} where
  record Passes (cfg : Config F) : Type 0 where
    addresses : cfg.opensearch.addresses ≢ []
    index : cfg.opensearch.index ≢ ""
    size_limit : cfg.search.default_size ≤ℤ cfg.search.max_size

  validate-Passes : (cfg : Config F) → validate cfg ≡ none → Passes cfg
  unfolding validate
  validate-Passes cfg h = record {
    addresses = ground arith;
    index = ground (arith, eq_iff cfg.opensearch.index "");
    size_limit = ground arith;
  }

  checked-ok :
      (c : Config F) (e : Option ConfigError) {cfg : Config F}
      → checked c e ≡ ok cfg
      → (c ≡ cfg) × (e ≡ none)
  unfolding checked
  checked-ok c none h = (cc, refl)
  checked-ok c (some x) h = cc

  apply_defaults-IsReady :
      (rates : Rates F) (c : Config F)
      → Passes (apply_defaults rates c)
      → IsReady (apply_defaults rates c)
  unfolding apply_defaults
  apply_defaults-IsReady rates c p = record {
    addresses = p.addresses;
    index = p.index;
    time_field = or_text-ne-nil "@timestamp" c.opensearch.time_field refl;
    addr = or_text-ne-nil ":8080" c.server.addr refl;
    max_body_bytes = or_positive-IsPositive 1048576 c.server.max_body_bytes (omega arith);
    default_size = or_positive-IsPositive 10 c.search.default_size (omega arith);
    size_limit = p.size_limit;
    max_from = or_positive-IsPositive 10000 c.search.max_from (omega arith);
    rules_timeout = or_nonzero-ne-zero (pos 200000000) c.rules.timeout (ground arith);
    request_timeout =
        or_nonzero-ne-zero (pos 10000000000) c.opensearch.request_timeout (ground arith);
    burst = or_nonzero-ne-zero (pos 10) c.rate_limit.burst (ground arith);
    ttl = or_nonzero-ne-zero (pos 600000000000) c.rate_limit.ttl (ground arith);
  }

-- A configuration that `Load` returns has an address and an index, a time field, a server address,
-- a positive body limit, 0 < default_size ≤ max_size, a positive max_from, and no timeout, burst
-- or time to live of 0, whatever the file and the environment say.
pub load-IsReady :
    {F : Type 0} (rates : Rates F) (lookup : Lookup) (decoded : Config F) {cfg : Config F}
    → load rates lookup decoded ≡ ok cfg
    → IsReady cfg
unfolding load
load-IsReady {F} rates lookup decoded {cfg} h =
    let (c, read, later) = >>=-ok_inv (apply_env lookup decoded) _ h in
    let (same, passed) =
      checked-ok (apply_defaults rates c) (validate (apply_defaults rates c)) later in
    subst IsReady same
      (apply_defaults-IsReady rates c (validate-Passes (apply_defaults rates c) passed))

abbrev pub trust_key : String
trust_key = "GATEWAY_TRUST_PROXY_HEADERS"

abbrev pub insecure_key : String
insecure_key = "GATEWAY_OPENSEARCH_INSECURE_SKIP_VERIFY"

-- The environment is refused exactly when one of the two Boolean variables is set to a text that
-- is no Boolean, and the error names the first such variable; otherwise each of the ten variables
-- that is set, and no other, replaces its own setting by what is read of its text, and all other
-- settings stay.
pub apply_env_cases :
    {F : Type 0} (lookup : Lookup) (cfg : Config F)
    → (IsBad lookup trust_key × (apply_env lookup cfg ≡ err (bad_boolean trust_key)))
      ⊎ (IsReadable lookup trust_key
          × IsBad lookup insecure_key
          × (apply_env lookup cfg ≡ err (bad_boolean insecure_key)))
      ⊎ (IsReadable lookup trust_key
          × IsReadable lookup insecure_key
          × ((c : Config F) × (apply_env lookup cfg ≡ ok c) × Overrides lookup cfg c))
unfolding apply_env
apply_env_cases lookup cfg =
    elim (env_boolean_cases lookup trust_key cfg.server.trust_proxy_headers) [
      | inr (bad, e) ↦ inl (bad, rw e)
      | inl (fine, (t, ht, e)) ↦
          elim (env_boolean_cases lookup insecure_key cfg.opensearch.insecure_skip_verify) [
            | inr (bad, e') ↦ inr (inl (fine, bad, rw (e, e')))
            | inl (fine', (u, hu, e')) ↦
                inr (
                  inr
                    (fine, fine', (_, rw (e, e') refl, env_config-Overrides lookup cfg t u ht hu)))
          ]
    ]

-- What a configuration that `Load` returns is made of.
pub load-Overrides :
    {F : Type 0} (rates : Rates F) (lookup : Lookup) (decoded cfg : Config F)
    → load rates lookup decoded ≡ ok cfg
    → (c : Config F) × Overrides lookup decoded c × (cfg ≡ apply_defaults rates c)
unfolding load
load-Overrides {F} rates lookup decoded cfg h =
    let (c, read, later) = >>=-ok_inv (apply_env lookup decoded) _ h in
    let (same, passed) =
      checked-ok (apply_defaults rates c) (validate (apply_defaults rates c)) later in
    elim (apply_env_cases lookup decoded) [
      | inl (bad, e) ↦ cc
      | inr (inl (fine, bad, e)) ↦ cc
      | inr (inr (fine, fine', (c', e, o))) ↦ (
        c,
        subst (λ (x : Config F). Overrides lookup decoded x) (ok-injective (sym e ∙ read)) o,
        sym same,
      )
    ]
