-- ===== src/Schema/Mapper/Fields.antt =====
-- What holds of every field that the walk appends.
use mathlib.Core.List.{Memᴰ}
use mathlib.Core.List.Memᴰ
use opensearch_query_gateway.Shared.{
  String, Option, none, some, List, [], ◌∷◌, ◌++◌, ◌<>◌, is_empty, ◌≡◌, ◌⊎◌, inl, inr, refl, sym,
  str_eq, Bool-cases, All, All-append,
}
use opensearch_query_gateway.Shared.Int.{ℤ}
use opensearch_query_gateway.Shared.Fallible.{ok, ok-injective}
use opensearch_query_gateway.Json.{Json, null, obj, Props, end, prop, get_prop}
use opensearch_query_gateway.Schema.{Field, IndexSchema}
use opensearch_query_gateway.Schema.Mapper.{
  sort_keys, concat_values, as_object, as_text, or_empty, entries_or_none, pairs_of,
  extract_properties, field_from_mapping, sub_field, sub_entries, sub_fields, own_fields,
  object_field, below, walk_entries, fields_at, child_entries, object_entries, path_of, walk_props,
  schema_with, from_value,
}
use opensearch_query_gateway.Schema.Mapper.Each.{Each, sorted-Each}

-- A multi-field of a field that is in the list and that is none itself.
abbrev pub IsSubField : List Field → Field → Type 0
IsSubField fs f =
    (g : Field) × Memᴰ g fs
    × (g.path ≡ f.parent)
    × (g.parent ≡ "")
    × ((key : String) × (f.path ≡ g.path <> "." <> key))

-- The flags say what the type says, and a parent is a field of the list.
pub record IsField (fs : List Field) (f : Field) : Type 0 where
  pub object_by_type : f.is_object ≡ str_eq f.type "object"
  pub nested_by_type : f.is_nested ≡ str_eq f.type "nested"
  pub parent_there : (f.parent ≡ "") ⊎ IsSubField fs f

abbrev pub AreFields : List Field → Type 0
AreFields fs = All (IsField fs) fs

-- More fields do no harm.
IsField-more :
    (fs gs : List Field) (f : Field)
    → ((g : Field) → Memᴰ g fs → Memᴰ g gs)
    → IsField fs f
    → IsField gs f
IsField-more fs gs f h i = record {
  object_by_type = i.object_by_type;
  nested_by_type = i.nested_by_type;
  parent_there = more i.parent_there;
}
  where
    more : (f.parent ≡ "") ⊎ IsSubField fs f → (f.parent ≡ "") ⊎ IsSubField gs f
    more (inl e) = inl e
    more (inr (g, m, p, q, k)) = inr (g, h g m, p, q, k)

All-more :
    (xs fs gs : List Field)
    → ((g : Field) → Memᴰ g fs → Memᴰ g gs)
    → All (IsField fs) xs
    → All (IsField gs) xs
All-more [] fs gs h a = tt
All-more (x ∷ xs) fs gs h a = (IsField-more fs gs x h a.0, All-more xs fs gs h a.1)

AreFields-append : (fs gs : List Field) → AreFields fs → AreFields gs → AreFields (fs ++ gs)
AreFields-append fs gs h k =
    All-append (IsField (fs ++ gs)) fs gs
      (All-more fs fs (fs ++ gs) (λ g m. Memᴰ.append_left gs m) h)
      (All-more gs gs (fs ++ gs) (λ g m. Memᴰ.append_right fs m) k)

module _ {F : Type 0} (to_int : F → ℤ) where
  field_from_mapping-IsField :
      (path t : String) (val : Props F) (fs : List Field)
      → IsField fs (field_from_mapping to_int path t val)
  unfolding field_from_mapping
  field_from_mapping-IsField path t val fs = record {
    object_by_type = refl;
    nested_by_type = refl;
    parent_there = inl refl;
  }

  -- The multi-fields of a field, next to that field.
  module _ (f : Field) (plain : f.parent ≡ "") (fs : List Field) (m : Memᴰ f fs) where
    sub_field-IsField :
        (sk : String) (sv : Props F) → All (IsField fs) (sub_field to_int f.path sk sv)
    unfolding sub_field field_from_mapping
    sub_field-IsField sk sv =
        elim (Bool-cases (is_empty (or_empty (as_text (get_prop "type" sv))))) [
          | inl e ↦ rw e tt
          | inr e ↦ rw e (
            record {
              object_by_type = refl;
              nested_by_type = refl;
              parent_there = inr (f, m, refl, plain, (sk, refl));
            },
            tt,
          )
        ]

    sub_entries-Each :
        (ps : Props F) → Each (All (IsField fs)) (sub_entries to_int f.path (pairs_of ps))
    sub_entries-Each end = tt
    sub_entries-Each (prop k v ps) = (sub_field-IsField k (entries_or_none v), sub_entries-Each ps)

    sub_fields-IsField : (sub : Option (Props F)) → All (IsField fs) (sub_fields to_int f.path sub)
    sub_fields-IsField none = tt
    sub_fields-IsField (some sub) =
        sorted-Each (All (IsField fs)) tt (All-append (IsField fs))
          (sub_entries to_int f.path (pairs_of sub)) (sub_entries-Each sub)

  own_fields-AreFields :
      (path : String) (t : Option String) (val : Props F) → AreFields (own_fields to_int path t val)
  unfolding own_fields field_from_mapping
  own_fields-AreFields path none val = tt
  own_fields-AreFields path (some t) val =
      let f = field_from_mapping to_int path t val in
      let sub = as_object (get_prop "fields" val) in
      let fs = f ∷ sub_fields to_int path sub in
      (field_from_mapping-IsField path t val fs, sub_fields-IsField f refl fs (Memᴰ.head refl) sub)

  abbrev EachOf : Option (List (String × List Field)) → Type 0
  EachOf none = Unit
  EachOf (some es) = Each AreFields es

  object_field-AreFields : (path : String) → AreFields (object_field path ∷ [])
  object_field-AreFields path =
      (record { object_by_type = refl; nested_by_type = refl; parent_there = inl refl }, tt)

  below-AreFields :
      (path : String) (t : Option String) (es : Option (List (String × List Field)))
      → EachOf es
      → AreFields (below to_int path t es)
  below-AreFields path t none a = tt
  below-AreFields path t (some es) a =
      let later = sorted-Each AreFields tt AreFields-append es a in
      elim (Bool-cases (is_empty (or_empty t))) [
        | inl e ↦ rw e (
            AreFields-append (object_field path ∷ []) (concat_values (sort_keys es))
              (object_field-AreFields path) later)
        | inr e ↦ rw e later
      ]

  mutual
    unfolding walk_entries

    walk_entries-Each :
        (before : String) (ps : Props F) → Each AreFields (walk_entries to_int before ps)
    walk_entries-Each before end = tt
    walk_entries-Each before (prop k v ps) =
        (fields_at-AreFields (path_of before k) v, walk_entries-Each before ps)

    fields_at-AreFields : (path : String) (v : Json F) → AreFields (fields_at to_int path v)
    fields_at-AreFields path (obj val) =
        let t = as_text (get_prop "type" val) in
        let es = child_entries to_int path val in
        AreFields-append (own_fields to_int path t val) (below to_int path t es)
          (own_fields-AreFields path t val)
          (below-AreFields path t es (child_entries-Each path val))
    fields_at-AreFields path null = tt
    fields_at-AreFields path _ = tt

    child_entries-Each : (path : String) (ps : Props F) → EachOf (child_entries to_int path ps)
    child_entries-Each path end = tt
    child_entries-Each path (prop k v ps) = elim (Bool-cases (str_eq k "properties")) [
      | inl e ↦ rw e (object_entries-Each path v)
      | inr e ↦ rw e (child_entries-Each path ps)
    ]

    object_entries-Each : (path : String) (v : Json F) → EachOf (object_entries to_int path v)
    object_entries-Each path (obj child) = walk_entries-Each path child
    object_entries-Each path null = tt
    object_entries-Each path _ = tt

  -- A schema that FromJSON reads has the given name, and each of its fields is marked as an object
  -- or as nested exactly if that is its type; a field with a parent is a multi-field, which means
  -- that the schema has a field with that path, which has no parent itself, and that the path of
  -- the multi-field is that path, a dot and a key.
  pub from_value-AreFields :
      (name : String) (v : Json F) (s : IndexSchema)
      → from_value to_int name v ≡ ok s
      → (s.name ≡ name) × AreFields s.fields
  unfolding from_value walk_props
  from_value-AreFields name (obj ps) s h = schema_with-AreFields (extract_properties ps) h
    where
      schema_with-AreFields :
          (found : Option (Props F))
          → schema_with to_int name found ≡ ok s
          → (s.name ≡ name) × AreFields s.fields
      schema_with-AreFields none h = cc
      schema_with-AreFields (some ps) h =
          let e = ok-injective h in
          rw (sym e) (
            refl,
            sorted-Each AreFields tt AreFields-append (walk_entries to_int "" ps)
                (walk_entries-Each "" ps),
          )
  from_value-AreFields name null s h = cc
  from_value-AreFields name _ s h = cc
