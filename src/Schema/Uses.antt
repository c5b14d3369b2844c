-- ===== src/Schema/Uses.antt =====
-- Which operators of the query language a field offers.
use opensearch_query_gateway.Shared.{
  String, true, [], ◌≡◌, ◌≢◌, refl, ◌↔◌, arith, Bool-cases, inl, inr,
}
use opensearch_query_gateway.Schema.{
  Field, searchable, searchable_type, operators, operators_of_type,
}

type-HasOperators : (t : String) → searchable_type t ≡ true → operators_of_type t ≢ []
unfolding operators_of_type
type-HasOperators t h = ground arith

type_of_searchable : (f : Field) → searchable f ≡ true → searchable_type f.type ≡ true
unfolding searchable
type_of_searchable f h = ground arith

-- A field offers some operator of the query language exactly when it is searchable.
pub operators_iff : (f : Field) → (operators f ≢ []) ↔ (searchable f ≡ true)
unfolding operators
operators_iff f = elim (Bool-cases (searchable f)) [
  | inl e ↦ rw e (λ h. refl, λ h. type-HasOperators f.type (type_of_searchable f e))
  | inr e ↦ rw e (λ h. absurd (h refl), λ h. cc)
]
