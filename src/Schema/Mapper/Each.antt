-- ===== src/Schema/Mapper/Each.antt =====
-- What holds of the fields of each key of a map holds of those that the loop over the sorted keys
-- appends.
use opensearch_query_gateway.Shared.{String, List, [], ◌∷◌, ◌++◌, inl, inr, Bool-cases, codes}
use opensearch_query_gateway.Schema.{Field}
use opensearch_query_gateway.Schema.Analysis.{codes_lt}
use opensearch_query_gateway.Schema.Mapper.{insert_key, sort_keys, concat_values}

-- What holds of the list of each key holds of all of them in the order of the keys.
module _ (Q : List Field → Type 0) where
  abbrev pub Each : List (String × List Field) → Type 0
  Each [] = Unit
  Each ((k, fs) ∷ es) = Q fs × Each es

  insert_key-Each :
      (k : String) (fs : List Field) (es : List (String × List Field))
      → Q fs
      → Each es
      → Each (insert_key k fs es)
  unfolding insert_key
  insert_key-Each k fs [] h a = (h, tt)
  insert_key-Each k fs ((j, gs) ∷ es) h a = elim (Bool-cases (codes_lt (codes j) (codes k))) [
    | inl e ↦ rw e (a.0, insert_key-Each k fs es h a.1)
    | inr e ↦ rw e (h, a)
  ]

  sort_keys-Each : (es : List (String × List Field)) → Each es → Each (sort_keys es)
  unfolding sort_keys
  sort_keys-Each [] a = tt
  sort_keys-Each ((k, fs) ∷ es) a = insert_key-Each k fs (sort_keys es) a.0 (sort_keys-Each es a.1)

  module _ (empty : Q []) (append : (fs gs : List Field) → Q fs → Q gs → Q (fs ++ gs)) where
    concat_values-Each : (es : List (String × List Field)) → Each es → Q (concat_values es)
    concat_values-Each [] a = empty
    concat_values-Each ((k, fs) ∷ es) a =
        append fs (concat_values es) a.0 (concat_values-Each es a.1)

    pub sorted-Each : (es : List (String × List Field)) → Each es → Q (concat_values (sort_keys es))
    sorted-Each es a = concat_values-Each (sort_keys es) (sort_keys-Each es a)
