-- ===== src/Schema/Mapper/Paths.antt =====
-- Which fields the walk appends: one for each place of the mapping that has a type.
use mathlib.Core.List.{Memᴰ}
use mathlib.Core.List.Memᴰ
use opensearch_query_gateway.Shared.{
  String, true, Option, some, List, [], ◌∷◌, ◌++◌, ◌≡◌, refl, str_eq, Bool-cases, inl, inr, codes,
  eq_iff,
}
use opensearch_query_gateway.Shared.Int.{ℤ}
use opensearch_query_gateway.Json.{Json, obj, Props, end, prop, get_prop}
use opensearch_query_gateway.Schema.{Field}
use opensearch_query_gateway.Schema.Analysis.{codes_lt}
use opensearch_query_gateway.Schema.Mapper.{
  insert_key, sort_keys, concat_values, as_text, field_from_mapping, own_fields, below,
  walk_entries, fields_at, child_entries, path_of, walk_props,
}
use opensearch_query_gateway.Schema.Lookup.{has_field}
use opensearch_query_gateway.Schema.Lookup.Found.{has_field-mem}

-- What is in the list of a key is in all of them in the order of the keys.
insert_key-first :
    {f : Field} (k : String) (xs : List Field) (es : List (String × List Field))
    → Memᴰ f xs
    → Memᴰ f (concat_values (insert_key k xs es))
unfolding insert_key
insert_key-first k xs [] m = Memᴰ.append_left [] m
insert_key-first k xs ((j, ys) ∷ es) m = elim (Bool-cases (codes_lt (codes j) (codes k))) [
  | inl e ↦ rw e (Memᴰ.append_right ys (insert_key-first k xs es m))
  | inr e ↦ rw e (Memᴰ.append_left (ys ++ concat_values es) m)
]

insert_key-others :
    {f : Field} (k : String) (xs : List Field) (es : List (String × List Field))
    → Memᴰ f (concat_values es)
    → Memᴰ f (concat_values (insert_key k xs es))
unfolding insert_key
insert_key-others k xs [] m = Memᴰ.append_right xs m
insert_key-others k xs ((j, ys) ∷ es) m = elim (Bool-cases (codes_lt (codes j) (codes k))) [
  | inl e ↦ rw e (elim (Memᴰ.append_cases ys m) [
    | inl h ↦ Memᴰ.append_left (concat_values (insert_key k xs es)) h
    | inr h ↦ Memᴰ.append_right ys (insert_key-others k xs es h)
  ])
  | inr e ↦ rw e (Memᴰ.append_right xs m)
]

module _ {F : Type 0} where
  -- The map `val` stands under the dotted path `path`, reckoned from `before`, in the properties.
  pub data At (path : String) (val : Props F) : String → Props F → Type 0 where
    here :
        (before k : String) (ps : Props F)
        → path ≡ path_of before k
        → get_prop k ps ≡ some (obj val)
        → At path val before ps
    inside :
        (before k : String) (ps outer child : Props F)
        → get_prop k ps ≡ some (obj outer)
        → get_prop "properties" outer ≡ some (obj child)
        → At path val (path_of before k) child
        → At path val before ps

  module _ (to_int : F → ℤ) where
    walk_entries-mem :
        (before k : String) (v : Json F) (f : Field) (ps : Props F)
        → get_prop k ps ≡ some v
        → Memᴰ f (fields_at to_int (path_of before k) v)
        → Memᴰ f (concat_values (sort_keys (walk_entries to_int before ps)))
    unfolding get_prop walk_entries sort_keys
    walk_entries-mem before k v f end h m = cc
    walk_entries-mem before k v f (prop j w ps) h m = elim (Bool-cases (str_eq j k)) [
      | inl e ↦
          (let answer : ◌≡◌ {A = Option (Json F)} (some w) (some v) = rw e at h in
            let same : w ≡ v = cc in
            let there = sort_keys (walk_entries to_int before ps) in
            insert_key-first j (fields_at to_int (path_of before j) w) there
              (rw (same, (eq_iff j k).0 e) m))
      | inr e ↦
          insert_key-others j (fields_at to_int (path_of before j) w)
            (sort_keys (walk_entries to_int before ps))
            (walk_entries-mem before k v f ps (rw e at h) m)
    ]

    child_entries-found :
        (path : String) (child ps : Props F)
        → get_prop "properties" ps ≡ some (obj child)
        → child_entries to_int path ps ≡ some (walk_entries to_int path child)
    unfolding get_prop child_entries
    child_entries-found path child end h = cc
    child_entries-found path child (prop k v ps) h = elim (Bool-cases (str_eq k "properties")) [
      | inl e ↦
          (let answer : ◌≡◌ {A = Option (Json F)} (some v) (some (obj child)) = rw e at h in
            let same : v ≡ obj child = cc in rw (e, same) refl)
      | inr e ↦ rw e (child_entries-found path child ps (rw e at h))
    ]

    own-mem :
        (path t : String) (val : Props F)
        → as_text (get_prop "type" val) ≡ some t
        → Memᴰ (field_from_mapping to_int path t val) (fields_at to_int path (obj val))
    unfolding fields_at own_fields
    own-mem path t val h = rw h (Memᴰ.head refl)

    below-mem :
        (path : String) (f : Field) (t : Option String) (es : List (String × List Field))
        → Memᴰ f (concat_values (sort_keys es))
        → Memᴰ f (below to_int path t (some es))
    below-mem path f t es m = Memᴰ.append_right _ m

    child-mem :
        (path : String) (f : Field) (outer child : Props F)
        → get_prop "properties" outer ≡ some (obj child)
        → Memᴰ f (concat_values (sort_keys (walk_entries to_int path child)))
        → Memᴰ f (fields_at to_int path (obj outer))
    unfolding fields_at
    child-mem path f outer child h m =
        let t = as_text (get_prop "type" outer) in
        rw (child_entries-found path child outer h) (
          Memᴰ.append_right (own_fields to_int path t outer)
            (below-mem path f t (walk_entries to_int path child) m))

    -- Whatever is appended at a place is in the walk from any map above it.
    at-mem :
        (f : Field) (path : String) (val : Props F) (before : String) (ps : Props F)
        → At path val before ps
        → Memᴰ f (fields_at to_int path (obj val))
        → Memᴰ f (concat_values (sort_keys (walk_entries to_int before ps)))
    at-mem f path val before ps (here _ k _ e h) m =
        walk_entries-mem before k (obj val) f ps h (rw e at m)
    at-mem f path val before ps (inside _ k _ outer child h g a) m =
        walk_entries-mem before k (obj outer) f ps h (
          child-mem (path_of before k) f outer child g
            (at-mem f path val (path_of before k) child a m))

    -- Every map of a mapping that has a type gives a field: if the map `val` stands under a dotted
    -- path in the properties and its `type` is the text `t`, then the walk appends the field of
    -- that path and type with the settings of `val`, and HasField finds the path.
    pub walk_props-mem :
        (path t : String) (val ps : Props F)
        → At path val "" ps
        → as_text (get_prop "type" val) ≡ some t
        → Memᴰ (field_from_mapping to_int path t val) (walk_props to_int "" ps)
          × (has_field path (walk_props to_int "" ps) ≡ true)
    unfolding walk_props
    walk_props-mem path t val ps a h =
        let f = field_from_mapping to_int path t val in
        let m = at-mem f path val "" ps a (own-mem path t val h) in
        let p : f.path ≡ path = unfold field_from_mapping in refl in
        (m, has_field-mem path f (walk_props to_int "" ps) m p)
