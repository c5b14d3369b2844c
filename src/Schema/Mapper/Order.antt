-- ===== src/Schema/Mapper/Order.antt =====
-- The fields do not depend on the order of the entries of the maps.
use opensearch_query_gateway.Shared.{
  String, Option, none, some, List, [], ◌∷◌, ◌<>◌, is_empty, ◌≡◌, refl, sym, ap, ◌∙◌, str_eq,
  if◌then◌else◌, Bool-cases, inl, inr, eq_iff,
}
use opensearch_query_gateway.Shared.Int.{ℤ}
use opensearch_query_gateway.Json.{Json, obj, Props, get_prop}
use opensearch_query_gateway.Schema.{Field}
use opensearch_query_gateway.Schema.Mapper.{
  sort_keys, concat_values, as_text, or_empty, pairs_of, field_from_mapping, sub_field, sub_entries,
  sub_fields, own_fields, below, walk_entries, fields_at, child_entries, object_entries, path_of,
  walk_props, schema_with, from_value,
}
use opensearch_query_gateway.Schema.Mapper.Sorting.{insert_key_comm}
use opensearch_query_gateway.Schema.Mapper.Same.{
  Same, same, arrays, maps, SameProps, ends, entry, swap, through, SameMap, get_prop-Same,
  text-Same, bool-Same, float-Same, as_object-Same, entries_or_none-Same,
}
use opensearch_query_gateway.Schema.Mapper.Extract.{extract_properties-Same}

module _ {F : Type 0} (to_int : F → ℤ) where
  field_from_mapping-Same :
      (path t : String) {ps qs : Props F}
      → SameProps ps qs
      → field_from_mapping to_int path t ps ≡ field_from_mapping to_int path t qs
  unfolding field_from_mapping
  field_from_mapping-Same path t p =
      rw
        (
          bool-Same "index" p,
          bool-Same "doc_values" p,
          bool-Same "fielddata" p,
          text-Same "analyzer" p,
          text-Same "format" p,
          float-Same "ignore_above" p,
        )
        refl

  sub_field-Same :
      (path sk : String) {ps qs : Props F}
      → SameProps ps qs
      → sub_field to_int path sk ps ≡ sub_field to_int path sk qs
  unfolding sub_field
  sub_field-Same path sk {ps} {qs} p =
      let t = or_empty (as_text (get_prop "type" qs)) in
      rw (text-Same "type" p) (
        ap (λ (f : Field). if is_empty t then [] else record f { parent = path } ∷ [])
          (field_from_mapping-Same (path <> "." <> sk) t p))

  sub_entries-Same :
      (path : String) {ps qs : Props F}
      → SameProps ps qs
      → sort_keys (sub_entries to_int path (pairs_of ps))
        ≡ sort_keys (sub_entries to_int path (pairs_of qs))
  unfolding sort_keys
  sub_entries-Same path ends = refl
  sub_entries-Same path (entry k h p) =
      rw (sub_field-Same path k (entries_or_none-Same h), sub_entries-Same path p) refl
  sub_entries-Same path (swap j k v w ps ne) =
      sym (insert_key_comm j k _ _ (sort_keys (sub_entries to_int path (pairs_of ps))) ne)
  sub_entries-Same path (through p q) = sub_entries-Same path p ∙ sub_entries-Same path q

  sub_fields-Same :
      (path : String) (a b : Option (Props F))
      → SameMap a b
      → sub_fields to_int path a ≡ sub_fields to_int path b
  sub_fields-Same path none none s = refl
  sub_fields-Same path none (some w) s = absurd s
  sub_fields-Same path (some v) none s = absurd s
  sub_fields-Same path (some v) (some w) s = ap concat_values (sub_entries-Same path s)

  own_fields-Same :
      (path : String) (t : Option String) {ps qs : Props F}
      → SameProps ps qs
      → own_fields to_int path t ps ≡ own_fields to_int path t qs
  unfolding own_fields
  own_fields-Same path none p = refl
  own_fields-Same path (some t) p =
      rw
        (
          field_from_mapping-Same path t p,
          sub_fields-Same path _ _ (as_object-Same _ _ (get_prop-Same "fields" p)),
        )
        refl

  abbrev Entries : Type 0
  Entries = List (String × List Field)

  abbrev SameEntries : Option Entries → Option Entries → Type 0
  SameEntries none none = Unit
  SameEntries (some es) (some fs) = sort_keys es ≡ sort_keys fs
  SameEntries _ _ = ⊥

  same_entries : (a : Option Entries) → SameEntries a a
  same_entries none = tt
  same_entries (some es) = refl

  SameEntries-trans : (a b c : Option Entries) → SameEntries a b → SameEntries b c → SameEntries a c
  SameEntries-trans none none none p q = tt
  SameEntries-trans (some u) (some v) (some w) p q = p ∙ q
  SameEntries-trans none (some v) c p q = absurd p
  SameEntries-trans (some u) none c p q = absurd p
  SameEntries-trans none none (some w) p q = absurd q
  SameEntries-trans (some u) (some v) none p q = absurd q

  below-Same :
      (path : String) (t : Option String) (a b : Option Entries)
      → SameEntries a b
      → below to_int path t a ≡ below to_int path t b
  below-Same path t none none s = refl
  below-Same path t none (some w) s = absurd s
  below-Same path t (some v) none s = absurd s
  below-Same path t (some v) (some w) s = rw s refl

  at_object :
      (path : String) {ps qs : Props F}
      → SameProps ps qs
      → SameEntries (child_entries to_int path ps) (child_entries to_int path qs)
      → fields_at to_int path (obj ps) ≡ fields_at to_int path (obj qs)
  unfolding fields_at
  at_object path {ps} {qs} p s =
      let t = as_text (get_prop "type" qs) in
      rw
        (
          text-Same "type" p,
          own_fields-Same path t p,
          below-Same path t (child_entries to_int path ps) (child_entries to_int path qs) s,
        )
        refl

  mutual
    unfolding walk_entries sort_keys

    walk_entries-Same :
        (before : String) {ps qs : Props F}
        → SameProps ps qs
        → sort_keys (walk_entries to_int before ps) ≡ sort_keys (walk_entries to_int before qs)
    walk_entries-Same before ends = refl
    walk_entries-Same before (entry k h p) =
        rw (fields_at-Same (path_of before k) h, walk_entries-Same before p) refl
    walk_entries-Same before (swap j k v w ps ne) =
        sym (insert_key_comm j k _ _ (sort_keys (walk_entries to_int before ps)) ne)
    walk_entries-Same before (through p q) = walk_entries-Same before p ∙ walk_entries-Same before q

    fields_at-Same :
        (path : String) {v w : Json F}
        → Same v w
        → fields_at to_int path v ≡ fields_at to_int path w
    fields_at-Same path (same v) = refl
    fields_at-Same path (arrays xs ys) = refl
    fields_at-Same path (maps p) = at_object path p (child_entries-Same path p)

    child_entries-Same :
        (path : String) {ps qs : Props F}
        → SameProps ps qs
        → SameEntries (child_entries to_int path ps) (child_entries to_int path qs)
    child_entries-Same path ends = tt
    child_entries-Same path (entry k h p) = elim (Bool-cases (str_eq k "properties")) [
      | inl e ↦ rw e (object_entries-Same path h)
      | inr e ↦ rw e (child_entries-Same path p)
    ]
    child_entries-Same path (swap i j v w ps ne) = elim (Bool-cases (str_eq i "properties")) [
      | inl e ↦ elim (Bool-cases (str_eq j "properties")) [
        | inl d ↦ absurd (ne ((eq_iff i "properties").0 e ∙ sym ((eq_iff j "properties").0 d)))
        | inr d ↦ rw (e, d) (same_entries (object_entries to_int path v))
      ]
      | inr e ↦ elim (Bool-cases (str_eq j "properties")) [
        | inl d ↦ rw (e, d) (same_entries (object_entries to_int path w))
        | inr d ↦ rw (e, d) (same_entries (child_entries to_int path ps))
      ]
    ]
    child_entries-Same path (through p q) =
        SameEntries-trans _ _ _ (child_entries-Same path p) (child_entries-Same path q)

    object_entries-Same :
        (path : String) {v w : Json F}
        → Same v w
        → SameEntries (object_entries to_int path v) (object_entries to_int path w)
    object_entries-Same path (same v) = same_entries (object_entries to_int path v)
    object_entries-Same path (arrays xs ys) = tt
    object_entries-Same path (maps p) = walk_entries-Same path p

  schema_with-Same :
      (name : String) (a b : Option (Props F))
      → SameMap a b
      → schema_with to_int name a ≡ schema_with to_int name b
  unfolding walk_props
  schema_with-Same name none none s = refl
  schema_with-Same name none (some w) s = absurd s
  schema_with-Same name (some v) none s = absurd s
  schema_with-Same name (some v) (some w) s = rw (walk_entries-Same "" s) refl

-- Go goes through the entries of a map in any order. Two values that differ only in the order of
-- the entries of their maps, at any depth, and in what their arrays hold, give the same schema, its
-- fields in the same order, or the same error.
pub from_value-Same :
    {F : Type 0} (to_int : F → ℤ) (name : String) {v w : Json F}
    → Same v w
    → from_value to_int name v ≡ from_value to_int name w
unfolding from_value
from_value-Same to_int name (same v) = refl
from_value-Same to_int name (arrays xs ys) = refl
from_value-Same to_int name (maps p) = schema_with-Same to_int name _ _ (extract_properties-Same p)
