-- ===== src/BoolQuery.antt =====
-- What a `bool` query of the OpenSearch DSL means, as its documentation says: every query under
-- `must` matches, none under `must_not` does, and at least `minimum_should_match` of those under
-- `should` do (by default 1 without a `must`, and 0 with one). This is the specification that the
-- builder is held to. Any other query is a leaf, and `leaf` says whether it matches the document.
use opensearch_query_gateway.Shared.{
  ℕ, ◌+◌, Bool, true, false, not, ◌&&◌, none, some, str_eq, leb, if◌then◌else◌, Option,
}
use opensearch_query_gateway.Shared.Int.{pos}
use opensearch_query_gateway.Json.{
  Json, Elems, Props, int, arr, obj, nil, cons, end, prop, get_prop,
}

module _ {F : Type 0} where
  required : Option (Json F) → Option (Json F) → ℕ
  required (some (int (pos n))) must = n
  required (some _) must = 1
  required none none = 1
  required none (some _) = 0

  minimum_should_match : Props F → ℕ
  minimum_should_match ps = required (get_prop "minimum_should_match" ps) (get_prop "must" ps)

  module _ (leaf : Json F → Bool) where
    unfoldable mutual
      unfolding minimum_should_match required get_prop

      pub matches : Json F → Bool
      matches (obj (prop k v ps)) =
          let inner = matches_bool v in if str_eq k "bool" then inner else leaf (obj (prop k v ps))
      matches j = leaf j

      pub matches_bool : Json F → Bool
      matches_bool (obj ps) = matches_props (minimum_should_match ps) ps
      matches_bool _ = false

      pub matches_props : ℕ → Props F → Bool
      matches_props least end = true
      matches_props least (prop k v ps) =
          let more = matches_props least ps in
          let must = matches_all v in
          let must_not = matches_none v in
          let should = leb least (count_matching v) in
          (if str_eq k "must"
            then must
            else if str_eq k "must_not"
            then must_not
            else if str_eq k "should"
            then should
            else true)
          && more

      pub matches_all : Json F → Bool
      matches_all (arr xs) = matches_elems xs
      matches_all _ = false

      pub matches_elems : Elems F → Bool
      matches_elems nil = true
      matches_elems (cons x xs) = matches x && matches_elems xs

      pub matches_none : Json F → Bool
      matches_none (arr xs) = misses_elems xs
      matches_none _ = false

      pub misses_elems : Elems F → Bool
      misses_elems nil = true
      misses_elems (cons x xs) = not (matches x) && misses_elems xs

      pub count_matching : Json F → ℕ
      count_matching (arr xs) = count_elems xs
      count_matching _ = 0

      pub count_elems : Elems F → ℕ
      count_elems nil = 0
      count_elems (cons x xs) = (if matches x then 1 else 0) + count_elems xs
