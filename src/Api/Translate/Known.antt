-- ===== src/Api/Translate/Known.antt =====
-- The fields that the generated DSL searches, under the rules that are shipped.
use mathlib.Core.Logic.{∥∥₁_map}
use mathlib.Core.List.{Mem}
use mathlib.Core.Path.{subst}
use opensearch_query_gateway.Shared.{
  String, Bool, true, false, not, ◌||◌, some, ◌≡◌, refl, sym, ◌∙◌, ap, if◌then◌else◌, str_eq,
  both_true, Bool-cases, inl, inr,
}
use opensearch_query_gateway.Shared.Fallible.{ok, ok-injective}
use opensearch_query_gateway.Json.{Json, single}
use opensearch_query_gateway.Query.{Value, Clause, is_relative_time}
use opensearch_query_gateway.Builder.Leaves.{leaves}
use opensearch_query_gateway.Builder.Search.{entry}
use opensearch_query_gateway.Rules
use opensearch_query_gateway.Rules.{Interpreter, RejectionError, accepted, rejected}
use opensearch_query_gateway.Rules.Bootstrap.{Facts, is_known, is_range_field}
use opensearch_query_gateway.Rules.Bootstrap.Verdicts.{Follows, canonical_of, computed_verdicts}
use opensearch_query_gateway.Api.Page.{RuleEngine, engine_with, SearchRequest}
use opensearch_query_gateway.Api.Translate.{Translation, Server, translate}
use opensearch_query_gateway.Api.Translate.Fields.{KeepsLast, IsAccepted, translate-leaves}

-- A query of one kind on one field, which is known, and which has ranges if the query is one.
pub record IsKnown {F : Type 0} (facts : Facts) (j : Json F) : Type 0 where
  pub kind : String
  pub field : String
  pub inner : Json F
  pub shape : j ≡ single kind (single field inner)
  pub known : is_known facts field ≡ true
  pub ranged : not (str_eq kind "range") || is_range_field facts field ≡ true

aliased :
    (c : Clause) (value : Value)
    → is_relative_time c ≡ false
    → is_relative_time (record { field = canonical_of c.field; value = value }) ≡ false
unfolding is_relative_time
aliased c value r = elim (Bool-cases (str_eq c.field "author")) [
  | inl a ↦ rw a refl
  | inr a ↦ elim (Bool-cases (str_eq c.field "tag")) [
    | inl b ↦ rw (a, b) refl
    | inr b ↦ elim (Bool-cases (str_eq c.field "ts")) [
      | inl d ↦ rw (a, b, d) refl
      | inr d ↦ rw (a, b, d) r
    ]
  ]
]

accepted_if :
    (b : Bool) (e : RejectionError) → (if b then accepted else rejected e) ≡ accepted → b ≡ true
accepted_if true e h = refl
accepted_if false e h = cc

module _ (interp : Interpreter) (facts : Facts) (not_allowed : String → String)
    (follows : Follows interp facts) where
  keeps_last : KeepsLast (engine_with interp not_allowed)
  keeps_last c field value r h =
      let same : canonical_of c.field ≡ field =
        ok-injective (sym (computed_verdicts facts not_allowed interp c.field "" follows).0 ∙ h) in
      subst (λ (f : String). is_relative_time (record { field = f; value = value }) ≡ false) same
        (aliased c value r)

  accepted-IsKnown :
      {F : Type 0} {j : Json F} → IsAccepted (engine_with interp not_allowed) j → IsKnown facts j
  accepted-IsKnown {F} {j} a =
      let (normal, known, searched, ranged) =
        computed_verdicts facts not_allowed interp a.field a.value follows in
      elim (Bool-cases (str_eq a.kind "range")) [
        | inl k ↦
            let asked : Rules.validate interp not_allowed a.field "range" a.value ≡ accepted =
              ap
                (λ (b : Bool).
                  Rules.validate interp not_allowed a.field (if b then "range" else "eq") a.value)
                (sym k)
              ∙ a.accepts in
            let (here, has) =
              both_true (is_known facts a.field) (is_range_field facts a.field)
                (accepted_if _ _ (sym ranged ∙ asked)) in
            record {
              kind = a.kind;
              field = a.field;
              inner = a.inner;
              shape = a.shape;
              known = here;
              ranged = rw (k, has) refl;
            }
        | inr k ↦
            let asked : Rules.validate interp not_allowed a.field "eq" a.value ≡ accepted =
              ap
                (λ (b : Bool).
                  Rules.validate interp not_allowed a.field (if b then "range" else "eq") a.value)
                (sym k)
              ∙ a.accepts in
            record {
              kind = a.kind;
              field = a.field;
              inner = a.inner;
              shape = a.shape;
              known = accepted_if _ _ (sym searched ∙ asked);
              ranged = rw k refl;
            }
      ]

-- Under the shipped rules, with the facts of any loaded schemas, every query in the DSL of a
-- successful translation that is not a `bool` query searches one field alone, and this field is one
-- that the rules list or that a schema has outside of nested fields and other than an object; if the
-- query is a range, the field is a number, a date, an address or a keyword. The interpreter is
-- assumed to answer as the rules and the facts say.
pub leaves-IsKnown :
    {F : Type 0} (s : Server F) (interp : Interpreter) (facts : Facts)
    (not_allowed : String → String) (req : SearchRequest) (tr : Translation F) (q j : Json F)
    → s.rules ≡ engine_with interp not_allowed
    → Follows interp facts
    → translate s req ≡ ok tr
    → entry "query" tr.dsl ≡ some q
    → Mem j (leaves q)
    → ∥ IsKnown facts j ∥₁
leaves-IsKnown s interp facts not_allowed req tr q j engine follows h e m =
    let keeps = subst KeepsLast (sym engine) (keeps_last interp facts not_allowed follows) in
    ∥∥₁_map (translate-leaves s req tr q j keeps h e m) λ a.
      accepted-IsKnown interp facts not_allowed follows
        (subst (λ (r : RuleEngine). IsAccepted r j) engine a)
