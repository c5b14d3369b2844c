-- ===== src/Schema/Mapper/Shapes.antt =====
-- The three shapes of input that `extractProperties` takes.
use opensearch_query_gateway.Shared.{
  String, true, Option, none, some, ◌≡◌, ◌≢◌, refl, str_eq, Bool-cases, inl, inr, eq_iff,
}
use opensearch_query_gateway.Shared.Int.{ℤ}
use opensearch_query_gateway.Shared.Fallible.{Fallible, ok}
use opensearch_query_gateway.Json.{Json, obj, Props, end, prop, get_prop}
use opensearch_query_gateway.Schema.{IndexSchema}
use opensearch_query_gateway.Schema.Mapper.{
  as_object, is_there, direct_properties, extract_properties, walk_props, from_value,
}

module _ {F : Type 0} where
  -- What is found at once is the answer.
  extract-direct :
      (ps qs : Props F) → direct_properties ps ≡ some qs → extract_properties ps ≡ some qs
  unfolding extract_properties
  extract-direct (prop k (obj inner) end) qs h = rw h refl
  extract-direct (prop k v ps) qs h = h
  extract-direct end qs h = h

  of_itself :
      (ps qs : Props F)
      → as_object (get_prop "properties" ps) ≡ some qs
      → direct_properties ps ≡ some qs
  unfolding direct_properties
  of_itself ps qs e = rw e refl

  of_mappings :
      (ps ms qs : Props F)
      → as_object (get_prop "properties" ps) ≡ none
      → as_object (get_prop "mappings" ps) ≡ some ms
      → as_object (get_prop "properties" ms) ≡ some qs
      → direct_properties ps ≡ some qs
  unfolding direct_properties
  of_mappings ps ms qs h k e = rw (h, k) e

  there : (a : Option (Json F)) {ps : Props F} → as_object a ≡ some ps → is_there a ≡ true
  there none h = cc
  there (some v) h = refl

  -- An index whose name is not `properties`, and nothing else, with no answer at once.
  of_response :
      (index : String) (inner ms qs : Props F)
      → index ≢ "properties"
      → as_object (get_prop "properties" inner) ≡ none
      → as_object (get_prop "mappings" inner) ≡ some ms
      → as_object (get_prop "properties" ms) ≡ some qs
      → extract_properties (prop index (obj inner) end) ≡ some qs
  unfolding extract_properties direct_properties get_prop
  of_response index inner ms qs ne h k e =
      let found = extract-direct inner qs (of_mappings inner ms qs h k e) in
      let here = there (get_prop "mappings" inner) k in
      elim (Bool-cases (str_eq index "properties")) [
        | inl d ↦ absurd (ne ((eq_iff index "properties").0 d))
        | inr d ↦ elim (Bool-cases (str_eq index "mappings")) [
          | inl g ↦ rw (d, g, h, here, found) refl
          | inr g ↦ rw (d, g, here, found) refl
        ]
      ]

-- A mapping with its `properties`, the body of a create request with that mapping under `mappings`
-- and no map under `properties`, and the response for one index with such a body under the name of
-- the index, all give the schema with the fields of those properties, provided that the index is
-- not called `properties`.
pub from_value-shapes :
    {F : Type 0} (to_int : F → ℤ) (name index : String) (ps mapping body : Props F)
    → index ≢ "properties"
    → as_object (get_prop "properties" mapping) ≡ some ps
    → as_object (get_prop "mappings" body) ≡ some mapping
    → as_object (get_prop "properties" body) ≡ none
    → let s : Fallible String IndexSchema =
        ok (record { name = name; fields = walk_props to_int "" ps }) in
      (from_value to_int name (obj mapping) ≡ s)
      × (from_value to_int name (obj body) ≡ s)
      × (from_value to_int name (obj (prop index (obj body) end)) ≡ s)
unfolding from_value
from_value-shapes to_int name index ps mapping body ne p m none_there = (
  rw (extract-direct mapping ps (of_itself mapping ps p)) refl,
  rw (extract-direct body ps (of_mappings body mapping ps none_there m p)) refl,
  rw (of_response index body mapping ps ne none_there m p) refl,
)
