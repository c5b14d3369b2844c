-- ===== src/Api/RateLimit.antt =====
-- internal/api/middleware.go: `RateLimiter`. A map is a function from keys to what they hold; a
-- time is a number of nanoseconds, and the clock's readings are arguments. A token bucket of
-- golang.org/x/time/rate is a value of type `B`, with the new bucket and `Allow`, which reads the
-- clock, as parameters. A request takes its bucket and asks it in one step, with one reading of the
-- clock: the bucket is shared with the map, but the source asks it behind the lock, so that a
-- clean-up that deletes the key in between is left out.
pub mod Invariant
pub mod Limited
use opensearch_query_gateway.Shared.{
  String, Bool, true, false, Option, none, some, if◌then◌else◌, str_eq,
}
use opensearch_query_gateway.Shared.Int.{ℤ, pos, leb_ℤ, ltb_ℤ}

pub record Buckets (B : Type 0) : Type 0 where
  pub fresh : B
  pub allow : (now : ℤ) → B → Bool × B

-- `limiters` and `seen`.
pub record Clients (B : Type 0) : Type 0 where
  pub limiters : String → Option B
  pub seen : String → Option ℤ

abbrev pub no_clients : {B : Type 0} → Clients B
no_clients = record { limiters = λ key. none; seen = λ key. none }

-- `m[key] = value`.
abbrev pub set_key : {V : Type 0} → String → V → (String → Option V) → String → Option V
set_key key v m other = if str_eq key other then some v else m other

abbrev pub bucket_or : {B : Type 0} → B → Option B → B
bucket_or fresh none = fresh
bucket_or fresh (some b) = b

module _ {B : Type 0} (buckets : Buckets B) where
  -- `getLimiter` at the time `now`.
  unfoldable pub get_limiter : String → ℤ → Clients B → B × Clients B
  get_limiter key now w =
      let lim = bucket_or buckets.fresh (w.limiters key) in
      (lim, record { limiters = set_key key lim w.limiters; seen = set_key key now w.seen })

  -- `Middleware`, for a request of the client `key`: whether it passes.
  unfoldable pub serve : String → ℤ → Clients B → Bool × Clients B
  unfolding get_limiter
  serve key now w =
      let (lim, w') = get_limiter key now w in
      let (passes, lim') = buckets.allow now lim in
      (passes, record w' { limiters = set_key key lim' w'.limiters })

abbrev pub is_stale : ℤ → Option ℤ → Bool
is_stale cutoff none = false
is_stale cutoff (some last) = ltb_ℤ last cutoff

-- One round of `cleanupLoop`: it deletes the keys that were last seen before `cutoff`.
unfoldable pub cleanup : {B : Type 0} → ℤ → Clients B → Clients B
cleanup cutoff w = record {
  limiters = λ key. if is_stale cutoff (w.seen key) then none else w.limiters key;
  seen = λ key. if is_stale cutoff (w.seen key) then none else w.seen key;
}

-- What happens one at a time.
pub data Step {B : Type 0} (buckets : Buckets B) : Clients B → Clients B → Type 0 where
  request : (key : String) (now : ℤ) (w : Clients B) → Step buckets w (serve buckets key now w).1
  tick : (cutoff : ℤ) (w : Clients B) → Step buckets w (cleanup cutoff w)

-- From the empty maps of `NewRateLimiter`.
pub data Reachable {B : Type 0} (buckets : Buckets B) : Clients B → Type 0 where
  start : Reachable buckets no_clients
  next : {w w' : Clients B} → Reachable buckets w → Step buckets w w' → Reachable buckets w'

-- The parameters of the limiter; `F` is the type of the 64-bit floats, and a duration is a number
-- of nanoseconds.
pub record Limits (F : Type 0) : Type 0 where
  pub rps : F
  pub burst : ℤ
  pub ttl : ℤ

-- `NewRateLimiter`: the defaults. `is_positive` tests a float, and `five` is the rate 5.
unfoldable pub new_limits : {F : Type 0} → (F → Bool) → F → F → ℤ → ℤ → Limits F
new_limits is_positive five rps burst ttl = record {
  rps = if is_positive rps then rps else five;
  burst = if leb_ℤ burst (pos 0) then pos 10 else burst;
  ttl = if leb_ℤ ttl (pos 0) then pos 600000000000 else ttl;
}
