-- ===== src/Schema/Analysis.antt =====
-- internal/schema/analyzer.go: `Analyze` and the sentences that it writes. `sort.SliceStable`
-- is an insertion that keeps the order of fields with one path; paths are compared by code points,
-- which is the order of Go's strings. `fmt` writes a number with `show`.
pub mod Counts
use opensearch_query_gateway.Shared.{
  ℕ, zero, suc, ◌+◌, ◌-◌, String, Bool, true, false, not, ◌||◌, ◌&&◌, Option, none, some, List, [],
  ◌∷◌, ◌++◌, str_eq, if◌then◌else◌, ◌==◌, ltb, codes, ◌<>◌, is_empty, join, length,
}
use opensearch_query_gateway.Shared.Int.{ℤ, pos}
use opensearch_query_gateway.Schema.Notes.{notes}
use opensearch_query_gateway.Schema.{
  Field, IndexSchema, is_numeric, is_date, is_off, searchable, aggregatable, operators,
}

pub record Summary : Type 0 where
  pub fields_total : ℕ
  pub searchable : ℕ
  pub aggregatable : ℕ
  pub object_fields : ℕ
  pub nested_fields : ℕ

pub record FieldSummary : Type 0 where
  pub path : String
  pub type : String
  pub searchable : Bool
  pub aggregatable : Bool
  pub operators : List String
  pub notes : String

pub record Introspection : Type 0 where
  pub index : String
  pub purpose : String
  pub summary : Summary
  pub highlights : List String
  pub fields : List FieldSummary

-- `s < t` on the code points.
unfoldable pub codes_lt : List ℕ → List ℕ → Bool
codes_lt [] [] = false
codes_lt [] (_ ∷ _) = true
codes_lt (_ ∷ _) [] = false
codes_lt (x ∷ xs) (y ∷ ys) = ltb x y || (x == y && codes_lt xs ys)

abbrev pub path_lt : Field → Field → Bool
path_lt f g = codes_lt (codes f.path) (codes g.path)

unfoldable pub insert : Field → List Field → List Field
insert f [] = f ∷ []
insert f (g ∷ gs) = let rest = insert f gs in if path_lt g f then g ∷ rest else f ∷ g ∷ gs

unfoldable pub sort_stable : List Field → List Field
sort_stable [] = []
sort_stable (f ∷ fs) = insert f (sort_stable fs)

module _ (show : ℤ → String) where
  unfoldable pub field_summary : Field → FieldSummary
  field_summary f = record {
    path = f.path;
    type = f.type;
    searchable = searchable f;
    aggregatable = aggregatable f;
    operators = operators f;
    notes = notes show f;
  }

abbrev pub one_if : Bool → ℕ
one_if b = if b then 1 else 0

abbrev add_if : Bool → String → List String → List String
add_if b s xs = if b then xs ++ s ∷ [] else xs

-- What the loop of `Analyze` changes.
pub record Found : Type 0 where
  pub summary : Summary
  pub dates : List String
  pub full_text : List String
  pub filters : List String
  pub nested : List String
  pub fields : List FieldSummary

abbrev pub nothing_found : Found
nothing_found = record {
  summary = record {
    fields_total = 0;
    searchable = 0;
    aggregatable = 0;
    object_fields = 0;
    nested_fields = 0;
  };
  dates = [];
  full_text = [];
  filters = [];
  nested = [];
  fields = [];
}

abbrev pub is_date_filter : Field → Bool
is_date_filter f = is_date f.type && searchable f

abbrev pub is_full_text : Field → Bool
is_full_text f = str_eq f.type "text" && searchable f

abbrev is_filter : Field → Bool
is_filter f = str_eq f.type "keyword" && aggregatable f && is_empty f.parent

unfoldable pub count_field : Field → Summary → Summary
count_field f s = record {
  fields_total = s.fields_total + 1;
  searchable = s.searchable + one_if (searchable f);
  aggregatable = s.aggregatable + one_if (aggregatable f);
  object_fields = s.object_fields + one_if f.is_object;
  nested_fields = s.nested_fields + one_if f.is_nested;
}

-- The loop's body, less the entry for the field in `Fields`.
unfoldable pub classify : Field → Found → Found
classify f w =
    let nested = add_if f.is_nested f.path w.nested in
    let summary = count_field f w.summary in
    if is_date_filter f
    then record w { summary = summary; nested = nested; dates = w.dates ++ f.path ∷ [] }
    else if is_full_text f
    then record w { summary = summary; nested = nested; full_text = w.full_text ++ f.path ∷ [] }
    else record w {
      summary = summary;
      nested = nested;
      filters = add_if (is_filter f) f.path w.filters;
    }

unfoldable pub plural : ℕ → String → String → String
plural n one many = if n == 1 then one else many

abbrev take : ℕ → List String → List String
take zero xs = []
take (suc n) [] = []
take (suc n) (x ∷ xs) = x ∷ take n xs

abbrev last_or : String → List String → String
last_or s [] = s
last_or s (x ∷ xs) = last_or x xs

module _ (show : ℤ → String) where
  unfoldable pub join_human : List String → String
  unfolding join
  join_human [] = ""
  join_human (x ∷ []) = x
  join_human (x ∷ y ∷ ys) =
      let items = x ∷ y ∷ ys in
      if ltb 5 (length items)
      then join ", " (take 5 items) <> " and " <> show (pos (length items - 5)) <> " more"
      else join ", " (take (length items - 1) items) <> " and " <> last_or "" items

  abbrev sentence : List String → String → List String
  sentence [] s = []
  sentence (_ ∷ _) s = s ∷ []

  unfoldable pub highlights : Found → List String
  unfolding join_human join plural
  highlights w =
      sentence w.dates ("Time-based filtering is supported (" <> join ", " w.dates <> ").")
      ++ sentence w.filters (
          join_human w.filters
          <> " "
          <> plural (length w.filters) "is" "are"
          <> " ideal for filters and grouping.")
      ++ sentence w.full_text (
          join_human w.full_text
          <> " "
          <> plural (length w.full_text) "supports" "support"
          <> " full-text search.")
      ++ sentence w.nested ("Nested structures (" <> join ", " w.nested <> ") need nested queries.")

  unfoldable pub visit_fields : List Field → Found → Found
  visit_fields [] w = w
  visit_fields (f ∷ fs) w =
      let found = classify f w in
      visit_fields fs (record found { fields = found.fields ++ field_summary show f ∷ [] })

  unfoldable pub analyze : IndexSchema → String → Introspection
  unfolding visit_fields sort_stable
  analyze s purpose =
      let w = visit_fields (sort_stable s.fields) nothing_found in
      record {
        index = s.name;
        purpose = purpose;
        summary = w.summary;
        highlights = highlights w;
        fields = w.fields;
      }
