-- ===== src/Tests/Schemas.antt =====
-- The fields of an index.
use mathlib.Core.List.{Perm}
use opensearch_query_gateway.Shared.{String, false, none, [], ◌∷◌, ◌≡◌, refl, map}
use opensearch_query_gateway.Shared.Int.{ℤ}
use opensearch_query_gateway.Schema.{Field, IndexSchema, searchable, aggregatable}
use opensearch_query_gateway.Schema.Analysis.{field_summary, analyze, sort_stable, insert}
use opensearch_query_gateway.Schema.Analysis.Counts.{IsSorted, count_if, analyze_lists}
use opensearch_query_gateway.Schema.Atoms.{atom}
use opensearch_query_gateway.Schema.Facts.{write}

abbrev plain : String → String → Field
plain path type = record {
  path = path;
  type = type;
  indexed = none;
  doc_values = none;
  fielddata = false;
  analyzer = "";
  format = "";
  ignore_above = none;
  is_object = false;
  is_nested = false;
  parent = "";
}

abbrev title : Field
title = plain "title" "text"

-- An index with a text and a date.
abbrev posts : IndexSchema
posts = record { name = "posts"; fields = title ∷ plain "created_at" "date" ∷ [] }

-- No number is written for this schema.
abbrev no_number : ℤ → String
no_number n = ""

analyze_lists_example :
    let a = analyze no_number posts "blog" in
    Perm a.fields (map (field_summary no_number) posts.fields)
    × IsSorted a.fields
    × (a.summary.fields_total ≡ 2)
    × (a.summary.searchable ≡ count_if searchable posts.fields)
    × (a.summary.aggregatable ≡ count_if aggregatable posts.fields)
    × (a.summary.object_fields ≡ count_if (λ f. f.is_object) posts.fields)
    × (a.summary.nested_fields ≡ count_if (λ f. f.is_nested) posts.fields)
analyze_lists_example = analyze_lists no_number posts "blog"

atom_sample : atom "it's" ≡ "'it\\'s'"
unfolding atom
atom_sample = refl

write_sample :
    write no_number (record { name = "a"; fields = title ∷ [] })
    ≡ "% Generated by schema-export for index a. Do not edit by hand.\nindex(a).\n\n% field/2\nfield(a, title).\n\n% field_type/3\nfield_type(a, title, text).\n"
unfolding write atom sort_stable insert
write_sample = refl
