-- ===== src/Schema/Mapper/Same.antt =====
-- Values of JSON that differ in the order of the entries of their maps, and what is looked up in them.
use opensearch_query_gateway.Shared.{
  String, Option, none, some, ◌≡◌, ◌≢◌, refl, sym, ◌∙◌, str_eq, Bool-cases, inl, inr, eq_iff,
}
use opensearch_query_gateway.Json.{Json, arr, obj, Elems, Props, end, prop, get_prop}
use opensearch_query_gateway.Schema.Mapper.{
  as_object, as_text, as_bool, as_float, or_else, is_there, entries_or_none, properties_of,
  direct_properties,
}

module _ {F : Type 0} where
  -- Two values that differ at most in the order of the entries of their maps, at every depth, and
  -- in what their arrays hold.
  mutual
    pub data Same : Json F → Json F → Type 0 where
      same : (v : Json F) → Same v v
      arrays : (xs ys : Elems F) → Same (arr xs) (arr ys)
      maps : {ps qs : Props F} → SameProps ps qs → Same (obj ps) (obj qs)

    pub data SameProps : Props F → Props F → Type 0 where
      ends : SameProps end end
      entry :
          (k : String) {v w : Json F} {ps qs : Props F}
          → Same v w
          → SameProps ps qs
          → SameProps (prop k v ps) (prop k w qs)
      swap :
          (j k : String) (v w : Json F) (ps : Props F)
          → j ≢ k
          → SameProps (prop j v (prop k w ps)) (prop k w (prop j v ps))
      through : {ps qs rs : Props F} → SameProps ps qs → SameProps qs rs → SameProps ps rs

  pub same_props : (ps : Props F) → SameProps ps ps
  same_props end = ends
  same_props (prop k v ps) = entry k (same v) (same_props ps)

  Same-trans : {u v w : Json F} → Same u v → Same v w → Same u w
  Same-trans (same v) q = q
  Same-trans (arrays xs ys) (same v) = arrays xs ys
  Same-trans (arrays xs ys) (arrays zs ws) = arrays xs ws
  Same-trans (maps p) (same v) = maps p
  Same-trans (maps p) (maps q) = maps (through p q)

  -- Two answers of a lookup.
  abbrev pub SameAnswer : Option (Json F) → Option (Json F) → Type 0
  SameAnswer none none = Unit
  SameAnswer (some v) (some w) = Same v w
  SameAnswer _ _ = ⊥

  abbrev pub SameMap : Option (Props F) → Option (Props F) → Type 0
  SameMap none none = Unit
  SameMap (some ps) (some qs) = SameProps ps qs
  SameMap _ _ = ⊥

  same_answer : (a : Option (Json F)) → SameAnswer a a
  same_answer none = tt
  same_answer (some v) = same v

  SameAnswer-trans : (a b c : Option (Json F)) → SameAnswer a b → SameAnswer b c → SameAnswer a c
  SameAnswer-trans none none none p q = tt
  SameAnswer-trans (some u) (some v) (some w) p q = Same-trans p q
  SameAnswer-trans none (some v) c p q = absurd p
  SameAnswer-trans (some u) none c p q = absurd p
  SameAnswer-trans none none (some w) p q = absurd q
  SameAnswer-trans (some u) (some v) none p q = absurd q

  pub get_prop-Same :
      (k : String) {ps qs : Props F} → SameProps ps qs → SameAnswer (get_prop k ps) (get_prop k qs)
  unfolding get_prop
  get_prop-Same k ends = tt
  get_prop-Same k (entry j h p) = elim (Bool-cases (str_eq j k)) [
    | inl e ↦ rw e h
    | inr e ↦ rw e (get_prop-Same k p)
  ]
  get_prop-Same k (swap i j v w ps ne) = elim (Bool-cases (str_eq i k)) [
    | inl e ↦ elim (Bool-cases (str_eq j k)) [
      | inl d ↦ absurd (ne ((eq_iff i k).0 e ∙ sym ((eq_iff j k).0 d)))
      | inr d ↦ rw (e, d) (same v)
    ]
    | inr e ↦ elim (Bool-cases (str_eq j k)) [
      | inl d ↦ rw (e, d) (same w)
      | inr d ↦ rw (e, d) (same_answer (get_prop k ps))
    ]
  ]
  get_prop-Same k (through {ps} {qs} {rs} p q) =
      SameAnswer-trans (get_prop k ps) (get_prop k qs) (get_prop k rs) (get_prop-Same k p)
        (get_prop-Same k q)

  -- A reading that looks into no array and no map.
  scalar_at :
      {X : Type 0} (g : Option (Json F) → X)
      → ((xs ys : Elems F) → g (some (arr xs)) ≡ g (some (arr ys)))
      → ((ps qs : Props F) → g (some (obj ps)) ≡ g (some (obj qs)))
      → {v w : Json F} → Same v w
      → g (some v) ≡ g (some w)
  scalar_at g h k (same v) = refl
  scalar_at g h k (arrays xs ys) = h xs ys
  scalar_at g h k (maps p) = k _ _

  scalar :
      {X : Type 0} (g : Option (Json F) → X)
      → ((xs ys : Elems F) → g (some (arr xs)) ≡ g (some (arr ys)))
      → ((ps qs : Props F) → g (some (obj ps)) ≡ g (some (obj qs)))
      → (a b : Option (Json F)) → SameAnswer a b
      → g a ≡ g b
  scalar g h k none none s = refl
  scalar g h k none (some w) s = absurd s
  scalar g h k (some v) none s = absurd s
  scalar g h k (some v) (some w) s = scalar_at g h k s

  module _ (k : String) {ps qs : Props F} (p : SameProps ps qs) where
    pub text-Same : as_text (get_prop k ps) ≡ as_text (get_prop k qs)
    text-Same = scalar as_text (λ xs ys. refl) (λ xs ys. refl) _ _ (get_prop-Same k p)

    pub bool-Same : as_bool (get_prop k ps) ≡ as_bool (get_prop k qs)
    bool-Same = scalar as_bool (λ xs ys. refl) (λ xs ys. refl) _ _ (get_prop-Same k p)

    pub float-Same : as_float (get_prop k ps) ≡ as_float (get_prop k qs)
    float-Same = scalar as_float (λ xs ys. refl) (λ xs ys. refl) _ _ (get_prop-Same k p)

    pub there-Same : is_there (get_prop k ps) ≡ is_there (get_prop k qs)
    there-Same = scalar is_there (λ xs ys. refl) (λ xs ys. refl) _ _ (get_prop-Same k p)

  pub same_map : (a : Option (Props F)) → SameMap a a
  same_map none = tt
  same_map (some ps) = same_props ps

  object_at : {v w : Json F} → Same v w → SameMap (as_object (some v)) (as_object (some w))
  object_at (same v) = same_map (as_object (some v))
  object_at (arrays xs ys) = tt
  object_at (maps p) = p

  pub as_object-Same :
      (a b : Option (Json F)) → SameAnswer a b → SameMap (as_object a) (as_object b)
  as_object-Same none none s = tt
  as_object-Same none (some w) s = absurd s
  as_object-Same (some v) none s = absurd s
  as_object-Same (some v) (some w) s = object_at s

  pub entries_or_none-Same :
      {v w : Json F} → Same v w → SameProps (entries_or_none v) (entries_or_none w)
  entries_or_none-Same (same v) = same_props (entries_or_none v)
  entries_or_none-Same (arrays xs ys) = ends
  entries_or_none-Same (maps p) = p

  properties_of-Same :
      (a b : Option (Props F)) → SameMap a b → SameMap (properties_of a) (properties_of b)
  properties_of-Same none none s = tt
  properties_of-Same none (some w) s = absurd s
  properties_of-Same (some v) none s = absurd s
  properties_of-Same (some v) (some w) s = as_object-Same _ _ (get_prop-Same "properties" s)

  pub or_else-Same :
      (a b c d : Option (Props F)) → SameMap a b → SameMap c d → SameMap (or_else a c) (or_else b d)
  or_else-Same none none c d s t = t
  or_else-Same none (some w) c d s t = absurd s
  or_else-Same (some v) none c d s t = absurd s
  or_else-Same (some v) (some w) c d s t = s

  pub direct_properties-Same :
      {ps qs : Props F} → SameProps ps qs → SameMap (direct_properties ps) (direct_properties qs)
  unfolding direct_properties
  direct_properties-Same p =
      or_else-Same _ _ _ _ (as_object-Same _ _ (get_prop-Same "properties" p))
        (properties_of-Same _ _ (as_object-Same _ _ (get_prop-Same "mappings" p)))
