-- ===== src/Dsl/Bounds.antt =====
-- The bounds of a range query.
use opensearch_query_gateway.Shared.{String, Option, none, some, ◌≡◌, refl, if◌then◌else◌, arith}
use opensearch_query_gateway.Json.{Json, Props, float, str, obj, single, get_prop}
use opensearch_query_gateway.Query.{Range}
use opensearch_query_gateway.Dsl.{is_open, range_clause}

module _ {F : Type 0} where
  abbrev float_entry : Option F → Option (Json F)
  float_entry none = none
  float_entry (some f) = some (float f)

  -- `field:[min TO max]` is a range over the field with `gte` and `lte` exactly for the bounds
  -- that are neither `*` nor empty, with the boost exactly if there is one, and with no strict
  -- bound: both ends belong to the range.
  pub range_clause_bounds :
      (field : String) (r : Range) (boost : Option F)
      → (ps : Props F) × (range_clause field r boost ≡ single "range" (single field (obj ps)))
        × (get_prop "gte" ps ≡ (if is_open r.min then none else some (str r.min)))
        × (get_prop "lte" ps ≡ (if is_open r.max then none else some (str r.max)))
        × (get_prop "boost" ps ≡ float_entry boost)
        × (get_prop "gt" ps ≡ none)
        × (get_prop "lt" ps ≡ none)
  unfolding range_clause get_prop
  range_clause_bounds field r none =
      (_, refl, ground arith, ground arith, ground arith, ground arith, ground arith)
  range_clause_bounds field r (some f) =
      (_, refl, ground arith, ground arith, ground arith, ground arith, ground arith)
