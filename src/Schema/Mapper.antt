-- ===== src/Schema/Mapper.antt =====
-- internal/schema/mapper.go: the fields of an index from the JSON text of its mapping. A map of Go
-- is the list of its entries, in any order. `json.Unmarshal` is `decode`, which makes a float of
-- each number, and the conversion of a
-- float to an `int` is `to_int`.
pub mod Sorting
pub mod Same
pub mod Extract
pub mod Order
pub mod Each
pub mod Fields
pub mod Paths
pub mod Shapes
use opensearch_query_gateway.Shared.{
  String, Bool, true, false, Option, none, some, List, [], ◌∷◌, ◌++◌, str_eq, if◌then◌else◌, ◌<>◌,
  is_empty, codes,
}
use opensearch_query_gateway.Shared.Int.{ℤ}
use opensearch_query_gateway.Shared.Fallible.{Fallible, ok, err, ◌>>=◌}
use opensearch_query_gateway.Json.{
  Json, null, bool, int, float, str, arr, obj, Props, end, prop, get_prop,
}
use opensearch_query_gateway.Schema.{Field, IndexSchema, searchable}
use opensearch_query_gateway.Schema.Analysis.{codes_lt}

-- `sort.Strings` on the keys of a map, with what belongs to each key.
module _ {A : Type 0} where
  unfoldable pub insert_key : String → A → List (String × A) → List (String × A)
  unfolding codes_lt
  insert_key k a [] = (k, a) ∷ []
  insert_key k a ((j, b) ∷ rest) =
      let later = insert_key k a rest in
      if codes_lt (codes j) (codes k) then (j, b) ∷ later else (k, a) ∷ (j, b) ∷ rest

  unfoldable pub sort_keys : List (String × A) → List (String × A)
  unfolding insert_key
  sort_keys [] = []
  sort_keys ((k, a) ∷ rest) = insert_key k a (sort_keys rest)

-- What a loop over the sorted keys appends, one key after the other.
abbrev pub concat_values : {A : Type 0} → List (String × List A) → List A
concat_values [] = []
concat_values ((k, xs) ∷ rest) = xs ++ concat_values rest

abbrev pub or_else : {A : Type 0} → Option A → Option A → Option A
or_else none next = next
or_else (some a) next = some a

abbrev pub or_empty : Option String → String
or_empty none = ""
or_empty (some s) = s

abbrev pub or_false : Option Bool → Bool
or_false none = false
or_false (some b) = b

-- `prefix + "." + k`.
unfoldable pub path_of : String → String → String
path_of before k = if is_empty before then k else before <> "." <> k

abbrev pub object_field : String → Field
object_field path = record {
  path = path;
  type = "object";
  indexed = none;
  doc_values = none;
  fielddata = false;
  analyzer = "";
  format = "";
  ignore_above = none;
  is_object = true;
  is_nested = false;
  parent = "";
}

module _ {F : Type 0} where
  -- The entry of a key, where it has the wanted type.
  abbrev pub as_object : Option (Json F) → Option (Props F)
  as_object (some (obj ps)) = some ps
  as_object _ = none

  abbrev pub as_text : Option (Json F) → Option String
  as_text (some (str s)) = some s
  as_text _ = none

  abbrev pub as_bool : Option (Json F) → Option Bool
  as_bool (some (bool b)) = some b
  as_bool _ = none

  abbrev pub as_float : Option (Json F) → Option F
  as_float (some (float x)) = some x
  as_float _ = none

  abbrev pub is_there : Option (Json F) → Bool
  is_there none = false
  is_there (some _) = true

  -- The value of a key, or no entries where it is no map.
  abbrev pub entries_or_none : Json F → Props F
  entries_or_none (obj ps) = ps
  entries_or_none _ = end

  -- The entry `properties` of a map, where there is such a map.
  abbrev pub properties_of : Option (Props F) → Option (Props F)
  properties_of none = none
  properties_of (some ps) = as_object (get_prop "properties" ps)

  -- The first two shapes of `extractProperties`.
  unfoldable pub direct_properties : Props F → Option (Props F)
  unfolding get_prop
  direct_properties ps =
      or_else (as_object (get_prop "properties" ps))
        (properties_of (as_object (get_prop "mappings" ps)))

  unfoldable pub extract_properties : Props F → Option (Props F)
  unfolding direct_properties get_prop
  extract_properties (prop k (obj inner) end) =
      let inside = extract_properties inner in
      or_else (direct_properties (prop k (obj inner) end))
        (if is_there (get_prop "mappings" inner) then inside else none)
  extract_properties ps = direct_properties ps

  abbrev pub pairs_of : Props F → List (String × Json F)
  pairs_of end = []
  pairs_of (prop k v ps) = (k, v) ∷ pairs_of ps

  module _ (to_int : F → ℤ) where
    abbrev pub int_of : Option F → Option ℤ
    int_of none = none
    int_of (some x) = some (to_int x)

    unfoldable pub field_from_mapping : String → String → Props F → Field
    unfolding get_prop
    field_from_mapping path t val = record {
      path = path;
      type = t;
      indexed = as_bool (get_prop "index" val);
      doc_values = as_bool (get_prop "doc_values" val);
      fielddata = or_false (as_bool (get_prop "fielddata" val));
      analyzer = or_empty (as_text (get_prop "analyzer" val));
      format = or_empty (as_text (get_prop "format" val));
      ignore_above = int_of (as_float (get_prop "ignore_above" val));
      is_object = str_eq t "object";
      is_nested = str_eq t "nested";
      parent = "";
    }

    -- The round for the entry `sk` of a field's `fields`.
    unfoldable pub sub_field : String → String → Props F → List Field
    unfolding field_from_mapping
    sub_field path sk sv =
        let st = or_empty (as_text (get_prop "type" sv)) in
        if is_empty st
        then []
        else record (field_from_mapping (path <> "." <> sk) st sv) { parent = path } ∷ []

    abbrev pub sub_entries : String → List (String × Json F) → List (String × List Field)
    sub_entries path [] = []
    sub_entries path ((sk, v) ∷ rest) =
        (sk, sub_field path sk (entries_or_none v)) ∷ sub_entries path rest

    abbrev pub sub_fields : String → Option (Props F) → List Field
    sub_fields path none = []
    sub_fields path (some sub) = concat_values (sort_keys (sub_entries path (pairs_of sub)))

    -- The field itself with its multi-fields, where it has a type.
    unfoldable pub own_fields : String → Option String → Props F → List Field
    unfolding field_from_mapping sort_keys sub_field
    own_fields path none val = []
    own_fields path (some t) val =
        field_from_mapping path t val ∷ sub_fields path (as_object (get_prop "fields" val))

    -- The fields below `path`, from what the walk over its `properties` appends for each key.
    abbrev pub below : String → Option String → Option (List (String × List Field)) → List Field
    below path t none = []
    below path t (some entries) =
        (if is_empty (or_empty t) then object_field path ∷ [] else [])
        ++ concat_values (sort_keys entries)

    -- What `walkProps` appends for each key of a map; it goes through the keys in their order.
    unfoldable mutual
      unfolding get_prop path_of sort_keys own_fields

      pub walk_entries : String → Props F → List (String × List Field)
      walk_entries before end = []
      walk_entries before (prop k v ps) =
          (k, fields_at (path_of before k) v) ∷ walk_entries before ps

      pub fields_at : String → Json F → List Field
      fields_at path (obj val) =
          let t = as_text (get_prop "type" val) in
          own_fields path t val ++ below path t (child_entries path val)
      fields_at path _ = []

      -- The walk over the entry `properties`, where that is a map.
      pub child_entries : String → Props F → Option (List (String × List Field))
      child_entries path end = none
      child_entries path (prop k v ps) =
          let child = object_entries path v in
          let later = child_entries path ps in if str_eq k "properties" then child else later

      pub object_entries : String → Json F → Option (List (String × List Field))
      object_entries path (obj child) = some (walk_entries path child)
      object_entries path _ = none

    unfoldable pub walk_props : String → Props F → List Field
    unfolding walk_entries sort_keys
    walk_props before ps = concat_values (sort_keys (walk_entries before ps))

    abbrev pub schema_with : String → Option (Props F) → Fallible String IndexSchema
    schema_with name none = err "no properties or mappings.properties found"
    schema_with name (some ps) = ok (record { name = name; fields = walk_props "" ps })

    -- `FromJSON` behind the decoder.
    unfoldable pub from_value : String → Json F → Fallible String IndexSchema
    unfolding extract_properties walk_props
    from_value name (obj ps) = schema_with name (extract_properties ps)
    from_value name _ = err "top-level JSON must be an object"

    unfoldable pub from_json :
        (String → Fallible String (Json F)) → String → String → Fallible String IndexSchema
    unfolding from_value
    from_json decode name raw = decode raw >>= from_value name
