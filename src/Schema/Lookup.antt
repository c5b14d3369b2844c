-- ===== src/Schema/Lookup.antt =====
-- internal/schema/mapper.go: the lookups in the fields of a schema.
pub mod Found
use opensearch_query_gateway.Shared.{
  String, Bool, true, false, Option, none, some, List, [], ◌∷◌, str_eq, if◌then◌else◌,
}
use opensearch_query_gateway.Schema.{Field, searchable}

unfoldable pub has_field : String → List Field → Bool
has_field path [] = false
has_field path (f ∷ fs) =
    let later = has_field path fs in if str_eq f.path path then true else later

unfoldable pub field_by_path : String → List Field → Option Field
field_by_path path [] = none
field_by_path path (f ∷ fs) =
    let later = field_by_path path fs in if str_eq f.path path then some f else later

unfoldable pub searchable_fields : List Field → List String
unfolding searchable
searchable_fields [] = []
searchable_fields (f ∷ fs) =
    let later = searchable_fields fs in if searchable f then f.path ∷ later else later
