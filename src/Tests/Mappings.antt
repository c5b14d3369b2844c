-- ===== src/Tests/Mappings.antt =====
-- A mapping and the fields that are read from it.
use mathlib.Core.List.{Memᴰ}
use opensearch_query_gateway.Shared.{ℕ, String, true, [], ◌∷◌, ◌≡◌, refl, map}
use opensearch_query_gateway.Shared.Int.{ℤ, pos}
use opensearch_query_gateway.Shared.Fallible.{Fallible, ok}
use opensearch_query_gateway.Json.{str, obj, Props, end, prop, get_prop}
use opensearch_query_gateway.Schema.{Field, IndexSchema}
use opensearch_query_gateway.Schema.Lookup.{has_field}
use opensearch_query_gateway.Schema.Mapper.{from_value, path_of, walk_props, field_from_mapping}
use opensearch_query_gateway.Schema.Mapper.Same.{maps, swap, entry, ends}
use opensearch_query_gateway.Schema.Mapper.Order.{from_value-Same}
use opensearch_query_gateway.Schema.Mapper.Shapes.{from_value-shapes}
use opensearch_query_gateway.Schema.Mapper.Fields.{AreFields, from_value-AreFields}
use opensearch_query_gateway.Schema.Mapper.Paths.{here, inside, walk_props-mem}

-- Floats are numbers here.
abbrev to_int : ℕ → ℤ
to_int n = pos n

abbrev typed : String → Props ℕ
typed t = prop "type" (str t) end

-- A title with a keyword under it.
abbrev title_map : Props ℕ
title_map =
    prop "type" (str "text") (prop "fields" (obj (prop "keyword" (obj (typed "keyword")) end)) end)

abbrev author_map : Props ℕ
author_map = prop "properties" (obj (prop "name" (obj (typed "keyword")) end)) end

abbrev book : Props ℕ
book = prop "title" (obj title_map) (prop "author" (obj author_map) end)

abbrev book_turned : Props ℕ
book_turned = prop "author" (obj author_map) (prop "title" (obj title_map) end)

abbrev mapping : Props ℕ
mapping = prop "properties" (obj book) end

abbrev turned : Props ℕ
turned = prop "properties" (obj book_turned) end

abbrev body : Props ℕ
body = prop "mappings" (obj mapping) end

abbrev book_schema : IndexSchema
book_schema = record { name = "books"; fields = walk_props to_int "" book }

-- The fields come in the order of their keys, a multi-field behind its field.
walk_props_sample :
    map (λ (f : Field). f.path) (walk_props to_int "" book)
    ≡ "author" ∷ "author.name" ∷ "title" ∷ "title.keyword" ∷ []
unfolding walk_props field_from_mapping
walk_props_sample = refl

from_value-Same_example :
    from_value to_int "books" (obj mapping) ≡ from_value to_int "books" (obj turned)
from_value-Same_example = from_value-Same to_int "books" (
    maps (
      entry "properties"
        (maps (swap "title" "author" (obj title_map) (obj author_map) end (λ h. cc))) ends))

from_value-shapes_example :
    let s : Fallible String IndexSchema = ok book_schema in
    (from_value to_int "books" (obj mapping) ≡ s)
    × (from_value to_int "books" (obj body) ≡ s)
    × (from_value to_int "books" (obj (prop "books" (obj body) end)) ≡ s)
unfolding get_prop
from_value-shapes_example =
    from_value-shapes to_int "books" "books" book mapping body (λ h. cc) refl refl refl

read_books : from_value to_int "books" (obj mapping) ≡ ok book_schema
unfolding from_value
read_books = refl

from_value-AreFields_example : (book_schema.name ≡ "books") × AreFields book_schema.fields
from_value-AreFields_example =
    from_value-AreFields to_int "books" (obj mapping) book_schema read_books

walk_props-mem_example :
    Memᴰ
      (field_from_mapping to_int "author.name" "keyword" (typed "keyword"))
      (walk_props to_int "" book)
    × (has_field "author.name" (walk_props to_int "" book) ≡ true)
unfolding get_prop path_of
walk_props-mem_example =
    walk_props-mem to_int "author.name" "keyword" (typed "keyword") book
      (inside "" "author" book author_map (prop "name" (obj (typed "keyword")) end) refl refl
        (here "author" "name" (prop "name" (obj (typed "keyword")) end) refl refl))
      refl

-- An index called `properties` is taken for a mapping with a field `mappings`.
properties_sample :
    from_value to_int "properties" (obj (prop "properties" (obj body) end))
    ≡ ok (record { name = "properties"; fields = walk_props to_int "" body })
unfolding from_value
properties_sample = refl
