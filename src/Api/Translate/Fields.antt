-- ===== src/Api/Translate/Fields.antt =====
-- Every field that the generated DSL searches was accepted by the rule engine.
use mathlib.Core.Path.{subst}
use mathlib.Core.Logic.{∥∥₁_elim, ∥∥₁_map, ∥∥₁_prop}
use mathlib.Core.List.{Mem, Memᴰ, mem-map}
use mathlib.Core.List.Perm
use opensearch_query_gateway.Shared.{
  String, Bool, true, false, ◌||◌, Option, none, some, if◌then◌else◌, str_eq, refl, Bool-cases, inl,
  inr, List, [], ◌∷◌, ◌≡◌, sym, ap, ◌∙◌,
}
use opensearch_query_gateway.Shared.Fallible.{ok}
use opensearch_query_gateway.Json.{Json, single}
use opensearch_query_gateway.Query.{
  Clause, Value, Query, Operand, Fuzzy, range, compare, phrase, word, is_ranged, is_relative_time,
  duration, op, raw_value,
}
use opensearch_query_gateway.Query.Walk.{clauses_expression}
use opensearch_query_gateway.Rules.{accepted}
use opensearch_query_gateway.Dsl.{contains_wildcard}
use opensearch_query_gateway.Builder.{build_clause, build_expression}
use opensearch_query_gateway.Builder.Leaves.{leaves, build_expression-leaves}
use opensearch_query_gateway.Builder.Clauses.{operand_kind, kind, target, build_clause-HasShape}
use opensearch_query_gateway.Builder.Search.{entry, build_search-query}
use opensearch_query_gateway.Api.Page.{RuleEngine, SearchRequest}
use opensearch_query_gateway.Api.Translate.{Translation, Server, translate}
use opensearch_query_gateway.Api.Translate.Passed.{Passed, relative, canonical, AllPassed}
use opensearch_query_gateway.Api.Translate.Checked.{translate-IsSound}

-- The rules map no field to a name of the relative time pseudo-field `last`, unless it is one
-- already, for which they are not asked.
abbrev pub KeepsLast : RuleEngine → Type 0
KeepsLast rules =
    (c : Clause) (field : String) (value : Value)
    → is_relative_time c ≡ false
    → rules.normalize_field c.field ≡ ok field
    → is_relative_time (record { field = field; value = value }) ≡ false

-- The operation under which the rules see a query of some kind.
abbrev pub op_of : String → String
op_of kind = if str_eq kind "range" then "range" else "eq"

op_of_kind :
    (b : Bool) (o : Operand) (f : Option Fuzzy)
    → (if is_ranged o || b then "range" else "eq") ≡ op_of (if b then "range" else operand_kind o f)
unfolding is_ranged
op_of_kind true (range r) f = refl
op_of_kind true (compare c) f = refl
op_of_kind true (phrase w) f = refl
op_of_kind true (word w) f = refl
op_of_kind false (range r) f = refl
op_of_kind false (compare c) f = refl
op_of_kind false (phrase w) f = refl
op_of_kind false (word w) none = elim (Bool-cases (contains_wildcard w)) [
  | inl e ↦ rw e refl
  | inr e ↦ rw e refl
]
op_of_kind false (word w) (some f) = elim (Bool-cases (contains_wildcard w)) [
  | inl e ↦ rw e refl
  | inr e ↦ rw e refl
]

op-kind : (c : Clause) → op c ≡ op_of (kind c)
unfolding op
op-kind c = op_of_kind (is_relative_time c) c.value.operand c.value.fuzzy

-- A query of one kind on one field, which the rules accept for the operation of this kind and some
-- value.
pub record IsAccepted {F : Type 0} (rules : RuleEngine) (j : Json F) : Type 0 where
  pub kind : String
  pub field : String
  pub inner : Json F
  pub shape : j ≡ single kind (single field inner)
  pub value : String
  pub accepts : rules.validate field (op_of kind) value ≡ accepted

module _ {F : Type 0} (s : Server F) (keeps : KeepsLast s.rules) where
  abbrev time_field : String
  time_field = s.builder.time_field

  target_accepted :
      (c c' : Clause)
      → Passed s.rules time_field c c'
      → (v : String) × (s.rules.validate (target s.builder c') (op_of (kind c')) v ≡ accepted)
  target_accepted c c' (relative r d a e) = ((duration c).0, rw (e, r) a)
  target_accepted c c' (canonical r n v a) =
      (raw_value c', rw (sym (op-kind c'), keeps c c'.field c'.value r n) a)

  clause-IsAccepted :
      (c c' : Clause)
      → Passed s.rules time_field c c'
      → IsAccepted s.rules (build_clause s.floats s.builder c')
  clause-IsAccepted c c' p =
      let (v, shape, boost) = build_clause-HasShape s.floats s.builder c' in
      let (w, a) = target_accepted c c' p in
      record {
        kind = kind c';
        field = target s.builder c';
        inner = v;
        shape = shape;
        value = w;
        accepts = a;
      }

  passed_of_mem :
      (cs cs' : List Clause) {c' : Clause}
      → AllPassed s.rules time_field cs cs'
      → Memᴰ c' cs'
      → (c : Clause) × Passed s.rules time_field c c'
  passed_of_mem [] [] p m = elim m [ ]
  passed_of_mem (c ∷ cs) [] p m = absurd p
  passed_of_mem [] (c ∷ cs) p m = absurd p
  passed_of_mem (c ∷ cs) (d ∷ ds) p (Memᴰ.head e) =
      (c, subst (Passed s.rules time_field c) (sym e) p.0)
  passed_of_mem (c ∷ cs) (d ∷ ds) p (Memᴰ.tail m) = passed_of_mem cs ds p.1 m

  query-IsAccepted :
      (cs : List Clause) (q : Query) (j : Json F)
      → AllPassed s.rules time_field cs (clauses_expression q.root)
      → Mem j (leaves (build_expression s.floats s.builder q.root))
      → ∥ IsAccepted s.rules j ∥₁
  query-IsAccepted cs q j p m =
      let found =
        mem-map.0 ((Perm.mem_iff (build_expression-leaves s.floats s.builder q.root)).0 m) in
      ∥∥₁_elim found ∥∥₁_prop λ (c', listed, e). ∥∥₁_map listed λ d.
        let (c, passed) = passed_of_mem cs (clauses_expression q.root) p d in
        subst (IsAccepted s.rules) e (clause-IsAccepted c c' passed)

-- If the rules map no other field to `last`, every query in the DSL of a successful translation that is
-- not a `bool` query searches one field alone, and the rule engine has accepted that field with
-- some value for a range, if the query is one, and for a search otherwise.
pub translate-leaves :
    {F : Type 0} (s : Server F) (req : SearchRequest) (tr : Translation F) (q j : Json F)
    → KeepsLast s.rules
    → translate s req ≡ ok tr
    → entry "query" tr.dsl ≡ some q
    → Mem j (leaves q)
    → ∥ IsAccepted s.rules j ∥₁
translate-leaves s req tr q j keeps h e m =
    let t = translate-IsSound s req tr h in
    let built : some (build_expression s.floats s.builder t.checked.root) ≡ some q =
      sym (build_search-query s.floats s.builder t.checked t.page_of)
      ∙ ap (entry "query") (sym t.dsl)
      ∙ e in
    let same : build_expression s.floats s.builder t.checked.root ≡ q = cc in
    query-IsAccepted s keeps (clauses_expression t.ast.root) t.checked j t.passed
      (subst (λ x. Mem j (leaves x)) (sym same) m)
