-- ===== src/Gateway/Started.antt =====
-- What a service that `main` has made relies on.
use mathlib.Core.Path.{subst}
use opensearch_query_gateway.Shared.{
  String, List, false, Bool-cases, inl, inr, [], ◌∷◌, ◌≡◌, ◌≢◌, ◌⊎◌, refl, is_empty, if◌then◌else◌,
  eq_iff,
}
use opensearch_query_gateway.Shared.Fallible.{Fallible, ok, err, >>=-ok_inv, ok-injective}
use opensearch_query_gateway.Config.{Config, OpenSearchConfig, apply_defaults}
use opensearch_query_gateway.Config.Env.{load}
use opensearch_query_gateway.Config.Overrides.{Overrides}
use opensearch_query_gateway.Config.Loading.{IsReady, load-IsReady, load-Overrides}
use opensearch_query_gateway.Builder
use opensearch_query_gateway.Builder.{with_time_field}
use opensearch_query_gateway.Rules.Loading.{Engine, prelude}
use opensearch_query_gateway.Rules.Loading.Loaded.{InOrder, Loads, NewOutcome, new-outcome}
use opensearch_query_gateway.Executor.{Transport, Client, new_client}
use opensearch_query_gateway.Api.Server.{new_server}
use opensearch_query_gateway.Api.Server.Loaded.{new_server_keeps}
use opensearch_query_gateway.Api.RateLimit.{new_limits}
use opensearch_query_gateway.Api.Page.{engine_with}
use opensearch_query_gateway.Gateway.{
  Platform, StartError, bad_file, bad_config, bad_rules, bad_client, failing, Gateway, load_config,
  load_rules, engine_of, server_of, limits_of, start,
}

failing-ok :
    {E A : Type 0} (wrap : E → StartError) (m : Fallible E A) {a : A}
    → failing wrap m ≡ ok a
    → m ≡ ok a
failing-ok wrap (ok a) h = cc
failing-ok wrap (err e) h = cc

module _ {F S B R : Type 0} (p : Platform F S B R) where
  -- The configuration `cfg` is what `Load` returns for the file at the path, which is
  -- configs/config.yaml if no path is given: the decoded file, with the overrides of the environment
  -- and then the defaults.
  pub record IsLoaded (path : String) (cfg : Config F) : Type 0 where
    pub file : String
    pub path_given : ((path ≡ "") × (file ≡ "configs/config.yaml")) ⊎ ((path ≢ "") × (file ≡ path))
    pub raw : String
    pub was_read : p.read_file file ≡ ok raw
    pub decoded : Config F
    pub was_decoded : p.yaml raw ≡ ok decoded
    pub overridden : Config F
    pub overrides : Overrides p.lookup decoded overridden
    pub defaults : cfg ≡ apply_defaults p.rates overridden
    pub ready : IsReady cfg

  -- The service of a configuration that is loaded from a path, whose rules gave the engine `e`.
  pub record IsStarted (path : String) (g : Gateway F B R) (cfg : Config F) (e : Engine S)
      : Type 0 where
    pub config : IsLoaded path cfg
    pub opensearch : g.server.opensearch ≡ cfg.opensearch
    pub limits : g.server.limits ≡ cfg.search
    pub max_body : g.server.max_body ≡ cfg.server.max_body_bytes
    pub time_field : g.server.builder.time_field ≡ cfg.opensearch.time_field
    pub trust_proxy : g.trust_proxy ≡ cfg.server.trust_proxy_headers
    pub addr : g.addr ≡ cfg.server.addr
    pub rates :
        g.limits
        ≡ new_limits p.is_positive p.rates.five cfg.rate_limit.rps cfg.rate_limit.burst
            cfg.rate_limit.ttl
    pub client : new_client p.open_client cfg.opensearch ≡ ok g.client
    pub index : g.client.index ≡ cfg.opensearch.index
    pub engine : load_rules p cfg ≡ ok e
    pub rules : g.server.rules ≡ engine_with (p.ask e.interp e.timeout) p.not_allowed
    pub files : List String
    pub in_order : InOrder cfg.rules.bootstrap_file cfg.rules.schema_files files
    pub loaded :
        (s : S) × (p.exec prelude p.blank ≡ ok s)
        × Loads p.unicode p.show p.read_file p.exec files s e.interp

  given_time_field :
      (field : String)
      → is_empty field ≡ false
      → (Builder.new (with_time_field field ∷ [])).time_field ≡ field
  unfolding Builder.new with_time_field
  given_time_field field h = rw h refl

  client_index :
      (open_client : OpenSearchConfig → Fallible String (Transport F B R)) (cfg : OpenSearchConfig)
      (c : Client F B R)
      → new_client open_client cfg ≡ ok c
      → c.index ≡ cfg.index
  unfolding new_client
  client_index open_client cfg c h = let (os, opened, made) = >>=-ok_inv (open_client cfg) _ h in cc

  rules_loaded :
      (cfg : Config F) (e : Engine S)
      → load_rules p cfg ≡ ok e
      → (files : List String) × InOrder cfg.rules.bootstrap_file cfg.rules.schema_files files
        × NewOutcome p.unicode p.show p.read_file p.exec p.blank files (ok e)
  rules_loaded cfg e h =
      let (files, order, outcome) =
        new-outcome p.unicode p.show p.read_file p.exec p.blank cfg.rules.bootstrap_file
          cfg.rules.timeout cfg.rules.schema_files in
      (files, order, subst (NewOutcome p.unicode p.show p.read_file p.exec p.blank files) h outcome)

  file_or_default :
      (path : String)
      → let file = if is_empty path then "configs/config.yaml" else path in
        ((path ≡ "") × (file ≡ "configs/config.yaml")) ⊎ ((path ≢ "") × (file ≡ path))
  file_or_default path = elim (Bool-cases (is_empty path)) [
    | inl e ↦ inl ((eq_iff path "").0 e, rw e refl)
    | inr e ↦ inr (λ h. cc (e, (eq_iff path "").1 h), rw e refl)
  ]

  load_config-IsLoaded :
      (path : String) (cfg : Config F)
      → load_config p path ≡ ok cfg
      → IsLoaded path cfg × ((decoded : Config F) × (load p.rates p.lookup decoded ≡ ok cfg))
  unfolding load_config
  load_config-IsLoaded path cfg h =
      let file = if is_empty path then "configs/config.yaml" else path in
      let (raw, was_read, h₁) = >>=-ok_inv (failing bad_file (p.read_file file)) _ h in
      let (decoded, was_decoded, h₂) = >>=-ok_inv (failing bad_file (p.yaml raw)) _ h₁ in
      let loads = failing-ok bad_config (load p.rates p.lookup decoded) h₂ in
      let (overridden, overrides, defaults) = load-Overrides p.rates p.lookup decoded cfg loads in
      (
        record {
          file = file;
          path_given = file_or_default path;
          raw = raw;
          was_read = failing-ok bad_file (p.read_file file) was_read;
          decoded = decoded;
          was_decoded = failing-ok bad_file (p.yaml raw) was_decoded;
          overridden = overridden;
          overrides = overrides;
          defaults = defaults;
          ready = load-IsReady p.rates p.lookup decoded loads;
        },
        (decoded, loads),
      )

  of_parts :
      (path : String) (cfg decoded : Config F) (e : Engine S) (c : Client F B R)
      → IsLoaded path cfg
      → load p.rates p.lookup decoded ≡ ok cfg
      → load_rules p cfg ≡ ok e
      → new_client p.open_client cfg.opensearch ≡ ok c
      → IsStarted path
          (record {
            server = server_of p cfg e;
            client = c;
            limits = limits_of p cfg;
            trust_proxy = cfg.server.trust_proxy_headers;
            addr = cfg.server.addr;
          })
          cfg
          e
  unfolding new_server
  of_parts path cfg decoded e c is loads rules opened =
      let builder = Builder.new (with_time_field cfg.opensearch.time_field ∷ []) in
      let keeps =
        new_server_keeps p.rates p.lookup decoded cfg p.parse_string (engine_of p e) builder
          p.floats loads in
      let (files, order, (s, prelude_ran, loaded, timeout)) = rules_loaded cfg e rules in
      record {
        config = is;
        opensearch = keeps.0;
        limits = keeps.1;
        max_body = keeps.2;
        time_field =
            given_time_field cfg.opensearch.time_field
              (elim (Bool-cases (is_empty cfg.opensearch.time_field)) [
                | inl h ↦ absurd (is.ready.time_field ((eq_iff cfg.opensearch.time_field "").0 h))
                | inr h ↦ h
              ]);
        trust_proxy = refl;
        addr = refl;
        rates = refl;
        client = opened;
        index = client_index p.open_client cfg.opensearch c opened;
        engine = rules;
        rules = refl;
        files = files;
        in_order = order;
        loaded = (s, prelude_ran, loaded);
      }

  -- A service that main makes comes from the configuration that Load makes of the file at the given
  -- path, or else at configs/config.yaml: the decoded file, overridden by the environment and
  -- completed by the defaults, which is ready. Its server has that configuration's indices, limits
  -- on pages and bodies and time field, its limiter that configuration's rates, proxy headers are
  -- trusted exactly if it says so, its client is the one that is opened for it, with its index, and
  -- its rules are asked of the engine that New returns for it, whose interpreter has loaded the
  -- prelude, the bootstrap file, if one is named, and the schema files, in this order.
  pub start-IsStarted :
      (path : String) (g : Gateway F B R)
      → start p path ≡ ok g
      → (cfg : Config F) × (e : Engine S) × IsStarted path g cfg e
  unfolding start
  start-IsStarted path g h =
      let (cfg, loads, h₁) = >>=-ok_inv (load_config p path) _ h in
      let (is, (decoded, loaded)) = load_config-IsLoaded path cfg loads in
      let (e, rules, h₂) = >>=-ok_inv (failing bad_rules (load_rules p cfg)) _ h₁ in
      let (c, opened, made) =
        >>=-ok_inv (failing bad_client (new_client p.open_client cfg.opensearch)) _ h₂ in
      (
        cfg,
        e,
        subst (λ (x : Gateway F B R). IsStarted path x cfg e) (ok-injective made)
            (of_parts path cfg decoded e c is loaded (failing-ok bad_rules (load_rules p cfg) rules)
              (failing-ok bad_client (new_client p.open_client cfg.opensearch) opened)),
      )
