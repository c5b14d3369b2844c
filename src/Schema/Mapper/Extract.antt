-- ===== src/Schema/Mapper/Extract.antt =====
-- Where the properties of a mapping are found does not depend on the order of the entries.
use opensearch_query_gateway.Shared.{
  String, Bool, true, false, Option, none, some, ◌≡◌, refl, ◌∙◌, if◌then◌else◌,
}
use opensearch_query_gateway.Json.{Json, arr, obj, Props, end, prop}
use opensearch_query_gateway.Schema.Mapper.{direct_properties, extract_properties}
use opensearch_query_gateway.Schema.Mapper.Same.{
  Same, same, arrays, maps, SameProps, ends, entry, swap, through, SameMap, same_map, there-Same,
  or_else-Same, direct_properties-Same,
}

module _ {F : Type 0} where
  SameMap-trans : (a b c : Option (Props F)) → SameMap a b → SameMap b c → SameMap a c
  SameMap-trans none none none p q = tt
  SameMap-trans (some u) (some v) (some w) p q = through p q
  SameMap-trans none (some v) c p q = absurd p
  SameMap-trans (some u) none c p q = absurd p
  SameMap-trans none none (some w) p q = absurd q
  SameMap-trans (some u) (some v) none p q = absurd q

  -- A map is empty or not, in whatever order.
  abbrev has_entries : Props F → Bool
  has_entries end = false
  has_entries (prop k v ps) = true

  has_entries-Same : {ps qs : Props F} → SameProps ps qs → has_entries ps ≡ has_entries qs
  has_entries-Same ends = refl
  has_entries-Same (entry k h p) = refl
  has_entries-Same (swap j k v w ps ne) = refl
  has_entries-Same (through p q) = has_entries-Same p ∙ has_entries-Same q

  extract-two :
      (j k : String) (v w : Json F) (ps : Props F)
      → extract_properties (prop j v (prop k w ps)) ≡ direct_properties (prop j v (prop k w ps))
  unfolding extract_properties
  extract-two j k (obj inner) w ps = refl
  extract-two j k _ w ps = refl

  when-Same :
      (b c : Bool) (x y : Option (Props F))
      → b ≡ c
      → SameMap x y
      → SameMap (if b then x else none) (if c then y else none)
  when-Same true true x y e s = s
  when-Same false false x y e s = tt
  when-Same true false x y e s = cc
  when-Same false true x y e s = cc

  one-Same :
      (k : String) {inner other : Props F}
      → SameProps inner other
      → SameMap (extract_properties inner) (extract_properties other)
      → SameMap
          (extract_properties (prop k (obj inner) end))
          (extract_properties (prop k (obj other) end))
  unfolding extract_properties
  one-Same k p s =
      or_else-Same _ _ _ _ (direct_properties-Same (entry k (maps p) ends))
        (when-Same _ _ _ _ (there-Same "mappings" p) s)

  entry-Same :
      (k : String) (v w : Json F) (ps qs : Props F)
      → Same v w
      → SameProps ps qs
      → SameMap (extract_properties (prop k v end)) (extract_properties (prop k w end))
      → SameMap (extract_properties (prop k v ps)) (extract_properties (prop k w qs))
  entry-Same k v w end end h p s = s
  entry-Same k v w (prop i x ps) (prop j y qs) h p s =
      rw (extract-two k i v x ps, extract-two k j w y qs) (direct_properties-Same (entry k h p))
  entry-Same k v w end (prop j y qs) h p s = (let no = has_entries-Same p in cc)
  entry-Same k v w (prop i x ps) end h p s = (let no = has_entries-Same p in cc)

  pub extract_properties-Same :
      {ps qs : Props F} → SameProps ps qs → SameMap (extract_properties ps) (extract_properties qs)
  extract_properties-Same ends = same_map (extract_properties end)
  extract_properties-Same (swap j k v w ps ne) =
      rw (extract-two j k v w ps, extract-two k j w v ps)
        (direct_properties-Same (swap j k v w ps ne))
  extract_properties-Same (through p q) =
      SameMap-trans _ _ _ (extract_properties-Same p) (extract_properties-Same q)
  extract_properties-Same (entry k (same v) p) =
      entry-Same k v v _ _ (same v) p (same_map (extract_properties (prop k v end)))
  extract_properties-Same (entry k (arrays xs ys) p) =
      entry-Same k (arr xs) (arr ys) _ _ (arrays xs ys) p
        (unfold extract_properties in direct_properties-Same (entry k (arrays xs ys) ends))
  extract_properties-Same (entry k (maps q) p) =
      entry-Same k _ _ _ _ (maps q) p (one-Same k q (extract_properties-Same q))
