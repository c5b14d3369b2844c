-- ===== src/Tests/Queries.antt =====
-- The syntax tree, the builder and the DSL.
use mathlib.Core.List.{Perm}
use opensearch_query_gateway.Shared.{
  ℕ, String, Option, Bool, true, false, some, [], ◌∷◌, ◌≡◌, ◌≢◌, refl, ◌↔◌, str_eq, map,
  if◌then◌else◌, ◌+◌,
}
use opensearch_query_gateway.Shared.Int.{pos, ◌≤ℤ◌}
use opensearch_query_gateway.Json.{Json, obj, arr, int, str, bool, float, end, prop, cons, nil}
use opensearch_query_gateway.BoolQuery.{matches}
use opensearch_query_gateway.Query.{Clause, walk_clauses, duration, Range}
use opensearch_query_gateway.Query.Walk.{
  walk_clauses_visits, walk_list, clauses_expression, skeleton_expression,
}
use opensearch_query_gateway.Query.Duration.{duration_iff, IsWindow}
use opensearch_query_gateway.Query.Meaning.{holds_expression}
use opensearch_query_gateway.Builder.{Page, build_search, build_clause, build_expression}
use opensearch_query_gateway.Builder.Search.{build_search_means, build_search_entries, entry}
use opensearch_query_gateway.Builder.Typed.{IsQuery, build_expression-IsQuery}
use opensearch_query_gateway.Builder.Leaves.{build_expression-leaves, leaves}
use opensearch_query_gateway.Builder.Clauses.{HasShape}
use opensearch_query_gateway.Builder.Kinds.{Asks, Boosted, build_clause_shape}
use opensearch_query_gateway.Tests.Samples.{
  sample, tag_go, archived, recent, popular, floats, builder, first_page, build_run,
}

-- The body that the gateway sends for the sample query.
abbrev sample_dsl : Json ℕ
sample_dsl = obj (
    prop "query"
      (obj (
        prop "bool"
          (obj (
            prop "must"
              (arr (
                cons
                  (obj (
                    prop "bool"
                      (obj (
                        prop "should"
                          (arr (
                            cons (obj (prop "match" (obj (prop "tag" (str "go") end)) end)) (
                              cons
                                (obj (
                                  prop "range"
                                    (obj (
                                      prop "views"
                                        (obj (prop "gte" (str "100") (prop "boost" (float 2) end)))
                                        end))
                                    end))
                                nil)))
                          (prop "minimum_should_match" (int (pos 1)) end)))
                      end))
                  (cons
                    (obj (
                      prop "range"
                        (obj (prop "@timestamp" (obj (prop "gte" (str "now-15m") end)) end)) end))
                    nil)))
              (prop "must_not"
                (arr (
                  cons
                    (obj (
                      prop "wildcard"
                        (obj (
                          prop "status"
                            (obj (
                              prop "value" (str "arch*") (prop "case_insensitive" (bool true) end)))
                            end))
                        end))
                    nil))
                end)))
          end))
      (prop "size" (int (pos 10)) (prop "track_total_hits" (bool true) end)))

build_sample : build_search floats builder sample first_page ≡ sample_dsl
unfolding build_run
build_sample = refl

-- A document that the wildcard query alone does not match.
abbrev leaf_sample : Json ℕ → Bool
leaf_sample (obj (prop k v ps)) = if str_eq k "wildcard" then false else true
leaf_sample _ = true

sample_matches :
    holds_expression (λ c. leaf_sample (build_clause floats builder c)) sample.root ≡ true
unfolding build_run holds_expression
sample_matches = refl

build_search_means_example :
    (j : Json ℕ) × (entry "query" (build_search floats builder sample first_page) ≡ some j)
    × (matches leaf_sample j
        ≡ holds_expression (λ c. leaf_sample (build_clause floats builder c)) sample.root)
build_search_means_example = build_search_means floats builder sample first_page leaf_sample

-- The latest and then the most viewed.
abbrev sorted_page : Page
sorted_page = record first_page {
  from = pos 20;
  sort = record { field = "created"; desc = true } ∷ record { field = "views"; desc = false } ∷ [];
}

abbrev sorting : Json ℕ
sorting = arr (
    cons (obj (prop "created" (obj (prop "order" (str "desc") end)) end))
      (cons (obj (prop "views" (obj (prop "order" (str "asc") end)) end)) nil))

build_search_entries_example :
    let body = build_search floats builder sample sorted_page in
    (entry "query" body ≡ some (build_expression floats builder sample.root))
    × ((entry "size" body ≡ some sorting) ↔ ((pos 0 ≤ℤ pos 10) × (sorting ≡ int (pos 10))))
    × ((entry "from" body ≡ some sorting) ↔ ((pos 1 ≤ℤ pos 20) × (sorting ≡ int (pos 20))))
    × ((entry "sort" body ≡ some sorting) ↔ ((sorted_page.sort ≢ []) × (sorting ≡ sorting)))
    × ((entry "track_total_hits" body ≡ some sorting) ↔ ((true ≡ true) × (sorting ≡ bool true)))
build_search_entries_example = build_search_entries floats builder sample sorted_page sorting

build_expression-leaves_example :
    Perm
      (leaves (build_expression floats builder sample.root))
      (map (build_clause floats builder) (tag_go ∷ popular ∷ archived ∷ recent ∷ []))
build_expression-leaves_example = build_expression-leaves floats builder sample.root

build_expression-IsQuery_example : IsQuery (build_expression floats builder sample.root)
build_expression-IsQuery_example = build_expression-IsQuery floats builder sample.root

build_clause_shape_example :
    (k f : String) × (boost : Option ℕ) × Asks builder popular k f
    × Boosted floats popular.value.boost boost
    × HasShape k f boost (build_clause floats builder popular)
build_clause_shape_example = build_clause_shape floats builder popular

-- Renames every clause and counts them.
abbrev rename : Clause → ℕ → Clause × ℕ
rename c n = (record c { field = "x" }, n + 1)

walk_clauses_visits_example :
    (clauses_expression (walk_clauses rename sample 0).0.root
      ≡ (walk_list rename (clauses_expression sample.root) 0).0)
    × ((walk_clauses rename sample 0).1 ≡ 4)
    × (skeleton_expression (walk_clauses rename sample 0).0.root ≡ skeleton_expression sample.root)
walk_clauses_visits_example = walk_clauses_visits rename sample 0

duration_iff_example :
    (((duration recent).1 ≡ true) ↔ IsWindow recent)
    × ((w : IsWindow recent) → (duration recent).0 ≡ w.text)
duration_iff_example = duration_iff recent

abbrev half_open : Range
half_open = record { min = "100"; max = "*" }
