-- ===== src/Config/Defaults.antt =====
-- The defaults fill what is missing and change nothing else.
use opensearch_query_gateway.Shared.{
  ℕ, zero, suc, ◌<◌, String, false, ◌≡◌, ◌≢◌, refl, if◌then◌else◌, is_empty, eq_iff, arith,
  Bool-cases, inl, inr,
}
use opensearch_query_gateway.Shared.Int.{ℤ, pos, negsuc, leb_ℤ}
use opensearch_query_gateway.Config.{
  Config, Rates, or_text, or_positive, or_nonzero, is_zero_ℤ, apply_defaults, rules_timeout,
  request_timeout_default, ttl_default,
}

or_text_idem : (d s : String) → is_empty d ≡ false → or_text d (or_text d s) ≡ or_text d s
or_text_idem d s h = ground arith

or_positive_idem :
    (d n : ℤ) → leb_ℤ d (pos 0) ≡ false → or_positive d (or_positive d n) ≡ or_positive d n
or_positive_idem d n h = ground arith

or_nonzero_idem : (d n : ℤ) → is_zero_ℤ d ≡ false → or_nonzero d (or_nonzero d n) ≡ or_nonzero d n
or_nonzero_idem d n h = ground arith

-- A value of an `int` that the defaults leave in place, and the bound that holds of it.
abbrev pub IsPositive : ℤ → Type 0
IsPositive (pos n) = 0 < n
IsPositive (negsuc n) = ⊥

pub or_positive-IsPositive : (d : ℕ) (n : ℤ) → 0 < d → IsPositive (or_positive (pos d) n)
or_positive-IsPositive d (pos zero) h = h
or_positive-IsPositive d (pos (suc n)) h = ground arith
or_positive-IsPositive d (negsuc n) h = ground arith

pub or_text-ne-nil : (d s : String) → is_empty d ≡ false → or_text d s ≢ ""
or_text-ne-nil d s h = ground (arith, eq_iff s "", eq_iff d "")

pub or_nonzero-ne-zero : (d : ℤ) (n : ℤ) → d ≢ pos 0 → or_nonzero d n ≢ pos 0
or_nonzero-ne-zero d n h = ground arith

rps_idem :
    {F : Type 0} (rates : Rates F) (r : F)
    → rates.is_zero rates.five ≡ false
    → (if rates.is_zero (if rates.is_zero r then rates.five else r)
        then rates.five
        else if rates.is_zero r
        then rates.five
        else r)
      ≡ (if rates.is_zero r then rates.five else r)
rps_idem rates r h = elim (Bool-cases (rates.is_zero r)) [ inl e ↦ rw (e, h) | inr e ↦ rw (e, e) ]

-- Applying the defaults a second time changes nothing, if the default rate is not 0.
pub apply_defaults_idem :
    {F : Type 0} (rates : Rates F) (cfg : Config F)
    → rates.is_zero rates.five ≡ false
    → apply_defaults rates (apply_defaults rates cfg) ≡ apply_defaults rates cfg
unfolding apply_defaults
apply_defaults_idem rates cfg h i = record cfg {
  server = record (cfg.server) {
    addr = or_text_idem ":8080" cfg.server.addr refl i;
    max_body_bytes = or_positive_idem (pos 1048576) cfg.server.max_body_bytes refl i;
  };
  rules = record (cfg.rules) { timeout = or_nonzero_idem rules_timeout cfg.rules.timeout refl i };
  opensearch = record (cfg.opensearch) {
    request_timeout = or_nonzero_idem request_timeout_default cfg.opensearch.request_timeout refl i;
    time_field = or_text_idem "@timestamp" cfg.opensearch.time_field refl i;
  };
  search = record (cfg.search) {
    default_size = or_positive_idem (pos 10) cfg.search.default_size refl i;
    max_size = or_positive_idem (pos 100) cfg.search.max_size refl i;
    max_from = or_positive_idem (pos 10000) cfg.search.max_from refl i;
  };
  rate_limit = record {
    rps = rps_idem rates cfg.rate_limit.rps h i;
    burst = or_nonzero_idem (pos 10) cfg.rate_limit.burst refl i;
    ttl = or_nonzero_idem ttl_default cfg.rate_limit.ttl refl i;
  };
}
