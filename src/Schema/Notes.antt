-- ===== src/Schema/Notes.antt =====
-- internal/schema/analyzer.go: `notes`. `fmt.Sprintf` writes a number with `show`.
use opensearch_query_gateway.Shared.{
  ℕ, String, Bool, ◌||◌, Option, none, some, List, [], ◌∷◌, ◌++◌, str_eq, if◌then◌else◌, codes,
  codes_eq, ◌<>◌, is_empty, join,
}
use opensearch_query_gateway.Shared.Int.{ℤ}
use opensearch_query_gateway.Schema.{Field, is_numeric, is_date, is_off}

-- `strings.HasSuffix` on the code points.
unfoldable pub has_suffix : String → List ℕ → Bool
has_suffix suffix [] = is_empty suffix
has_suffix suffix (c ∷ cs) =
    let later = has_suffix suffix cs in codes_eq (c ∷ cs) (codes suffix) || later

abbrev if_text : String → List String → List String
if_text s xs = if is_empty s then [] else xs

module _ (show : ℤ → String) where
  date_notes : Field → List String
  date_notes f =
      (if str_eq f.path "@timestamp" || has_suffix "timestamp" (codes f.path)
        then "Primary time filter"
        else "Date — use ranges or last:<duration>")
      ∷ if_text f.format (("format " <> f.format) ∷ [])

  text_notes : Field → List String
  text_notes f = "Full-text (analyzed)" ∷ if_text f.analyzer (("analyzer " <> f.analyzer) ∷ [])

  length_note : Option ℤ → List String
  length_note none = []
  length_note (some n) = ("values longer than " <> show n <> " chars are not indexed") ∷ []

  keyword_notes : Field → List String
  keyword_notes f =
      (if is_empty f.parent
        then "Exact match, ideal for filters and grouping"
        else "Exact-match variant of " <> f.parent
          <> " — use for filters, sorting and aggregations")
      ∷ length_note f.ignore_above

  type_notes : Field → List String
  type_notes f =
      if is_date f.type
      then date_notes f
      else if str_eq f.type "text"
      then text_notes f
      else if str_eq f.type "keyword"
      then keyword_notes f
      else if f.is_nested
      then "Nested — inner fields require nested queries" ∷ []
      else if f.is_object
      then "Object — query its sub-fields" ∷ []
      else if is_numeric f.type
      then "Numeric — supports ranges and comparisons" ∷ []
      else []

  unfoldable pub notes : Field → String
  unfolding date_notes text_notes keyword_notes length_note type_notes
  notes f =
      join "; "
        (type_notes f ++ (if is_off f.indexed then "not indexed (stored only)" ∷ [] else []))
