-- ===== src/Gateway/Translating.antt =====
-- The playground of a configuration and the service of it.
use opensearch_query_gateway.Shared.{String, ◌≡◌, refl, if◌then◌else◌, is_empty}
use opensearch_query_gateway.Shared.Fallible.{Fallible, ok, err, ◌>>=◌}
use opensearch_query_gateway.Config.Env.{load}
use opensearch_query_gateway.Executor.{new_client}
use opensearch_query_gateway.Gateway.{
  Platform, StartError, bad_file, bad_config, bad_rules, bad_client, failing, Gateway, Playground,
  load_config, load_rules, start, start_playground,
}

-- The service without its client.
abbrev pub playground_of : {F B R : Type 0} → Gateway F B R → Playground F
playground_of g = record {
  server = g.server;
  limits = g.limits;
  trust_proxy = g.trust_proxy;
  addr = g.addr;
}

-- The two agree: the playground starts where the service starts, or fails to open its client only.
abbrev pub Agree :
    {F B R : Type 0}
    → Fallible StartError (Gateway F B R)
    → Fallible StartError (Playground F)
    → Type 0
Agree (ok g) pg = pg ≡ ok (playground_of g)
Agree {F} (err (bad_client e)) pg = (q : Playground F) × (pg ≡ ok q)
Agree (err e) pg = pg ≡ err e

-- A failure, if there is one, is none of the client.
abbrev IsEarly : {A : Type 0} → Fallible StartError A → Type 0
IsEarly (err (bad_client e)) = ⊥
IsEarly _ = Unit

failing-IsEarly :
    {E A : Type 0} (wrap : E → StartError) (m : Fallible E A)
    → ((e : E) → IsEarly {A = A} (err (wrap e)))
    → IsEarly (failing wrap m)
failing-IsEarly wrap (ok a) h = tt
failing-IsEarly wrap (err e) h = h e

>>=-IsEarly :
    {A A' : Type 0} (m : Fallible StartError A) (k : A → Fallible StartError A')
    → IsEarly m
    → ((a : A) → IsEarly (k a))
    → IsEarly (m >>= k)
>>=-IsEarly (ok a) k h j = j a
>>=-IsEarly (err (bad_file e)) k h j = tt
>>=-IsEarly (err (bad_config e)) k h j = tt
>>=-IsEarly (err (bad_rules e)) k h j = tt
>>=-IsEarly (err (bad_client e)) k h j = absurd h

>>=-Agree :
    {A F B R : Type 0} (m : Fallible StartError A) (k : A → Fallible StartError (Gateway F B R))
    (k' : A → Fallible StartError (Playground F))
    → IsEarly m
    → ((a : A) → Agree (k a) (k' a))
    → Agree (m >>= k) (m >>= k')
>>=-Agree (ok a) k k' h j = j a
>>=-Agree (err (bad_file e)) k k' h j = refl
>>=-Agree (err (bad_config e)) k k' h j = refl
>>=-Agree (err (bad_rules e)) k k' h j = refl
>>=-Agree (err (bad_client e)) k k' h j = absurd h

opened-Agree :
    {A F B R : Type 0} (m : Fallible String A) (k : A → Gateway F B R) (pg : Playground F)
    → ((a : A) → playground_of (k a) ≡ pg)
    → Agree (failing bad_client m >>= λ a. ok (k a)) (ok pg)
opened-Agree (ok a) k pg h = rw (h a) refl
opened-Agree (err e) k pg h = (pg, refl)

module _ {F S B R : Type 0} (p : Platform F S B R) where
  load_config-IsEarly : (path : String) → IsEarly (load_config p path)
  unfolding load_config
  load_config-IsEarly path =
      >>=-IsEarly
        (failing bad_file (p.read_file (if is_empty path then "configs/config.yaml" else path))) _
        (failing-IsEarly bad_file _ (λ e. tt))
        λ raw.
          >>=-IsEarly (failing bad_file (p.yaml raw)) _ (failing-IsEarly bad_file _ (λ e. tt))
            λ decoded. failing-IsEarly bad_config (load p.rates p.lookup decoded) (λ e. tt)

  -- A configuration that the service starts with, the playground starts with too, with the same
  -- server, the same limits and the same trust in a proxy. Where the service fails to open the
  -- client of the cluster, the playground starts, and any other failure is the playground's too.
  pub start-Agree : (path : String) → Agree (start p path) (start_playground p path)
  unfolding start start_playground
  start-Agree path = >>=-Agree (load_config p path) _ _ (load_config-IsEarly path) λ cfg.
      >>=-Agree (failing bad_rules (load_rules p cfg)) _ _
        (failing-IsEarly bad_rules (load_rules p cfg) (λ e. tt))
        λ re. opened-Agree (new_client p.open_client cfg.opensearch) _ _ (λ c. refl)
