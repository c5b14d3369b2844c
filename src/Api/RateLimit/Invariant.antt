-- ===== src/Api/RateLimit/Invariant.antt =====
-- The two maps of the rate limiter have the same keys, and cleaning up forgets the idle clients only.
use opensearch_query_gateway.Shared.{
  String, true, false, some, ◌≡◌, ◌≢◌, refl, sym, eq_iff, eq_refl, str_eq, is_some, Bool-cases, inl,
  inr,
}
use opensearch_query_gateway.Shared.Int.{ℤ, ltb_ℤ}
use opensearch_query_gateway.Api.RateLimit.{
  Buckets, Clients, bucket_or, serve, is_stale, cleanup, Step, request, tick, Reachable, start,
  next,
}

-- A client has a bucket exactly if it has a time.
abbrev pub HasSameKeys : {B : Type 0} → Clients B → Type 0
HasSameKeys w = (key : String) → is_some (w.limiters key) ≡ is_some (w.seen key)

module _ {B : Type 0} (buckets : Buckets B) where
  serve-HasSameKeys :
      (key : String) (now : ℤ) (w : Clients B)
      → HasSameKeys w
      → HasSameKeys (serve buckets key now w).1
  unfolding serve
  serve-HasSameKeys key now w h other = elim (Bool-cases (str_eq key other)) [
    | inl e ↦ rw e refl
    | inr e ↦ rw e (h other)
  ]

  step-HasSameKeys : {w w' : Clients B} → Step buckets w w' → HasSameKeys w → HasSameKeys w'
  unfolding cleanup
  step-HasSameKeys (request key now w) h other = serve-HasSameKeys key now w h other
  step-HasSameKeys (tick cutoff w) h key = elim (Bool-cases (is_stale cutoff (w.seen key))) [
    | inl e ↦ rw e refl
    | inr e ↦ rw e (h key)
  ]

  -- Whatever requests and rounds of cleaning up happen, in whatever order and at whatever times,
  -- the map of buckets and the map of times have the same keys.
  pub Reachable-HasSameKeys : (w : Clients B) → Reachable buckets w → HasSameKeys w
  Reachable-HasSameKeys w start key = refl
  Reachable-HasSameKeys w (next r step) key = step-HasSameKeys step (Reachable-HasSameKeys _ r) key

  -- A request of one client leaves the buckets of all others as they are, and the bucket that it
  -- leaves for its own client is what `Allow` makes of the one from before, or of a new one. A
  -- round of cleaning up whose cutoff is not after the request keeps this bucket.
  pub serve_buckets :
      (key other : String) (now cutoff : ℤ) (w : Clients B)
      → ltb_ℤ now cutoff ≡ false
      → let w' = (serve buckets key now w).1 in
        (other ≢ key → w'.limiters other ≡ w.limiters other)
        × ((cleanup cutoff w').limiters key
            ≡ some (buckets.allow now (bucket_or buckets.fresh (w.limiters key))).1)
  unfolding serve cleanup
  serve_buckets key other now cutoff w h =
      let different =
        λ (ne : other ≢ key) (e : str_eq key other ≡ true). ne (sym ((eq_iff key other).0 e)) in
      (
        λ ne. elim (Bool-cases (str_eq key other)) [
          | inl e ↦ absurd (different ne e)
          | inr e ↦ rw e
        ],
        rw (eq_refl key, h),
      )
