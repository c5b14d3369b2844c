-- ===== src/Builder/Search.antt =====
-- The body of a search: the query, its meaning, and the keys that the page adds.
use mathlib.Core.Path.{subst}
use opensearch_query_gateway.Shared.{
  Bool, true, false, Option, none, some, List, [], ◌∷◌, ◌≡◌, ◌≢◌, ◌↔◌, refl, sym, ◌∙◌,
  if◌then◌else◌, map, arith, String, Bool-cases, inl, inr,
}
use opensearch_query_gateway.Shared.Int.{ℤ, pos, ◌≤ℤ◌, leb_ℤ, ltb_ℤ}
use opensearch_query_gateway.Json.{Json, int, bool, str, arr, obj, prop, end, of_list, get_prop}
use opensearch_query_gateway.BoolQuery.{matches}
use opensearch_query_gateway.Query.{Query}
use opensearch_query_gateway.Query.Meaning.{holds_expression}
use opensearch_query_gateway.Dsl.{Floats}
use opensearch_query_gateway.Builder.Meaning.{build_expression_means}
use opensearch_query_gateway.Builder.{
  Builder, Page, SortField, build_clause, build_expression, sort_query, build_search,
}

-- The entry of an object, if it is one.
abbrev pub entry : {F : Type 0} → String → Json F → Option (Json F)
entry k (obj ps) = get_prop k ps
entry k _ = none

abbrev pub order_of : (desc : Bool) → String
order_of true = "desc"
order_of false = "asc"

-- An object for each criterion: the field, with its order.
abbrev pub criteria : {F : Type 0} → List SortField → List (Json F)
criteria [] = []
criteria (s ∷ ss) =
    obj (prop s.field (obj (prop "order" (str (order_of s.desc)) end)) end) ∷ criteria ss

sort_query-criteria : {F : Type 0} (ss : List SortField) → map (sort_query {F = F}) ss ≡ criteria ss
unfolding sort_query
sort_query-criteria [] = refl
sort_query-criteria {F} (s ∷ ss) = elim (Bool-cases s.desc) [
  | inl e ↦ rw (e, sort_query-criteria {F = F} ss) refl
  | inr e ↦ rw (e, sort_query-criteria {F = F} ss) refl
]

if_iff :
    {A : Type 0} (b : Bool) (x y : A)
    → ((if b then some x else none) ≡ some y) ↔ ((b ≡ true) × (y ≡ x))
if_iff true x y = (λ h. (refl, cc), λ h. cc)
if_iff false x y = (λ h. cc, λ h. cc)

leb_iff : (n : ℤ) → (leb_ℤ (pos 0) n ≡ true) ↔ (pos 0 ≤ℤ n)
leb_iff n = (λ h. ground arith, λ h. ground arith)

ltb_iff : (n : ℤ) → (ltb_ℤ (pos 0) n ≡ true) ↔ (pos 1 ≤ℤ n)
ltb_iff n = (λ h. ground arith, λ h. ground arith)

guarded :
    {A : Type 0} {P : Type 0} (b : Bool) (o : Option A) (x y : A)
    → o ≡ (if b then some x else none)
    → (b ≡ true) ↔ P
    → (o ≡ some y) ↔ (P × (y ≡ x))
guarded b o x y e iff = (
  λ h. let both = (if_iff b x y).0 (sym e ∙ h) in (iff.0 both.0, both.1),
  λ h. e ∙ (if_iff b x y).1 (iff.1 h.0, h.1),
)

abbrev sort_entry : {F : Type 0} → List (Json F) → Option (Json F)
sort_entry [] = none
sort_entry (j ∷ js) = some (arr (of_list (j ∷ js)))

sort_entry_iff :
    {F : Type 0} (ss : List SortField) (j : Json F)
    → (sort_entry (map sort_query ss) ≡ some j) ↔ ((ss ≢ []) × (j ≡ arr (of_list (criteria ss))))
sort_entry_iff [] j = (λ h. cc, λ h. absurd (h.0 refl))
sort_entry_iff {F} (s ∷ ss) j =
    subst
      (λ (l : List (Json F)).
        (sort_entry l ≡ some j) ↔ (((s ∷ ss) ≢ []) × (j ≡ arr (of_list (criteria (s ∷ ss))))))
      (sym (sort_query-criteria {F = F} (s ∷ ss))) (λ h. ((λ e. cc), cc), λ h. cc)

module _ {F : Type 0} (fp : Floats F) (b : Builder) (q : Query) where
  build_search_keys :
      (p : Page)
      → let body = build_search fp b q p in
        (entry "query" body ≡ some (build_expression fp b q.root))
        × (entry "size" body ≡ (if leb_ℤ (pos 0) p.size then some (int p.size) else none))
        × (entry "from" body ≡ (if ltb_ℤ (pos 0) p.from then some (int p.from) else none))
        × (entry "sort" body ≡ sort_entry (map sort_query p.sort))
        × (entry "track_total_hits" body ≡ (if p.track then some (bool true) else none))
  unfolding build_search get_prop
  build_search_keys p = (ground arith, ground arith, ground arith, ground arith, ground arith)

  pub build_search-query :
      (p : Page) → entry "query" (build_search fp b q p) ≡ some (build_expression fp b q.root)
  build_search-query p = (build_search_keys p).0

  -- The body of a search holds the query built from the tree; the size exactly if it is not
  -- negative; the offset exactly if it is positive; the sort criteria, each its field with the order
  -- "desc" or "asc", in their order, exactly if there are any; and `track_total_hits` exactly if the
  -- page asks for it.
  pub build_search_entries :
      (p : Page) (j : Json F)
      → let body = build_search fp b q p in
        (entry "query" body ≡ some (build_expression fp b q.root))
        × ((entry "size" body ≡ some j) ↔ ((pos 0 ≤ℤ p.size) × (j ≡ int p.size)))
        × ((entry "from" body ≡ some j) ↔ ((pos 1 ≤ℤ p.from) × (j ≡ int p.from)))
        × ((entry "sort" body ≡ some j) ↔ ((p.sort ≢ []) × (j ≡ arr (of_list (criteria p.sort)))))
        × ((entry "track_total_hits" body ≡ some j) ↔ ((p.track ≡ true) × (j ≡ bool true)))
  build_search_entries p j =
      let body = build_search fp b q p in
      let (query, size, from, sort, track) = build_search_keys p in
      (
        query,
        guarded (leb_ℤ (pos 0) p.size) (entry "size" body) (int p.size) j size (leb_iff p.size),
        guarded (ltb_ℤ (pos 0) p.from) (entry "from" body) (int p.from) j from (ltb_iff p.from),
        (
          λ h. (sort_entry_iff p.sort j).0 (sym sort ∙ h),
          λ h. sort ∙ (sort_entry_iff p.sort j).1 h,
        ),
        guarded p.track (entry "track_total_hits" body) (bool true) j track (λ h. h, λ h. h),
      )

  -- The query in the body of a search, read as OpenSearch reads `bool` queries, matches a document
  -- exactly when the query of the language holds of it: OR of ANDs of possibly negated clauses,
  -- where a clause holds if the query built for it matches. `leaf` says which queries other than
  -- `bool` match the document.
  pub build_search_means :
      (p : Page) (leaf : Json F → Bool)
      → (j : Json F) × (entry "query" (build_search fp b q p) ≡ some j)
        × (matches leaf j ≡ holds_expression (λ c. leaf (build_clause fp b c)) q.root)
  build_search_means p leaf =
      (build_expression fp b q.root, build_search-query p, build_expression_means leaf fp b q.root)
