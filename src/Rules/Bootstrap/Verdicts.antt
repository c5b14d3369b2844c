-- ===== src/Rules/Bootstrap/Verdicts.antt =====
-- What the engine says of fields and clauses by the rules that are shipped.
use mathlib.Core.Path.{subst, fun_ext}
use opensearch_query_gateway.Shared.{
  sym, String, Bool, true, false, ◌&&◌, ◌≡◌, ◌≢◌, ◌↔◌, refl, eq_iff, if◌then◌else◌, str_eq,
  Bool-cases, inl, inr,
}
use opensearch_query_gateway.Shared.Fallible.{ok}
use opensearch_query_gateway.Rules.{
  Goal, Interpreter, Verdict, accepted, rejected, normalize_field, is_known_field, validate,
}
use opensearch_query_gateway.Rules.Bootstrap.Fields.{
  IsNested, Known, Ranged, in_nested_iff, is_known_iff, is_range_field_iff,
}
use opensearch_query_gateway.Rules.Bootstrap.{
  Facts, in_nested, is_known, is_range_field, is_valid, reason_of, nested_reason, range_reason,
  bootstrap,
}

-- The interpreter answers every goal, as the rules and the facts say.
abbrev pub Follows : Interpreter → Facts → Type 0
Follows interp facts = (g : Goal) → interp g ≡ bootstrap facts g

-- What a name stands for.
pub data Alias : String → String → Type 0 where
  author : Alias "author" "created_by"
  tag : Alias "tag" "tags"
  ts : Alias "ts" "@timestamp"
  itself : (f : String) → f ≢ "author" → f ≢ "tag" → f ≢ "ts" → Alias f f

abbrev pub reject : String → String → String → String → Verdict
reject field op value reason =
    rejected (record { field = field; op = op; value = value; reason = reason })

-- The verdict on a clause that searches for a value.
pub data Searched (facts : Facts) (field value : String) : Verdict → Type 0 where
  may_search : Known facts field → Searched facts field value accepted
  in_nested_field :
      (¬ Known facts field)
      → IsNested facts field
      → Searched facts field value
          (reject field "eq" value "fields inside nested objects are not supported yet")
  not_known :
      (¬ Known facts field)
      → (¬ IsNested facts field)
      → Searched facts field value (reject field "eq" value "unknown field")

-- The verdict on a clause that gives a range.
pub data Bounded (facts : Facts) (field value : String) : Verdict → Type 0 where
  may_range : Known facts field → Ranged facts field → Bounded facts field value accepted
  in_nested_range :
      (¬ (Known facts field × Ranged facts field))
      → IsNested facts field
      → Bounded facts field value
          (reject field "range" value "fields inside nested objects are not supported yet")
  not_known_range :
      (¬ Known facts field)
      → (¬ IsNested facts field)
      → Bounded facts field value (reject field "range" value "unknown field")
  no_range :
      Known facts field
      → (¬ Ranged facts field)
      → (¬ IsNested facts field)
      → Bounded facts field value
          (reject field "range" value "range queries require a numeric or date field")

abbrev pub canonical_of : String → String
canonical_of raw =
    if str_eq raw "author"
    then "created_by"
    else if str_eq raw "tag"
    then "tags"
    else if str_eq raw "ts"
    then "@timestamp"
    else raw

other : (s t : String) → str_eq s t ≡ false → s ≢ t
other s t h e = cc (h, (eq_iff s t).1 e)

canonical_of-Alias : (raw : String) → Alias raw (canonical_of raw)
canonical_of-Alias raw = elim (Bool-cases (str_eq raw "author")) [
  | inl a ↦ rw (a, (eq_iff raw "author").0 a) author
  | inr a ↦ elim (Bool-cases (str_eq raw "tag")) [
    | inl b ↦ rw (a, b, (eq_iff raw "tag").0 b) tag
    | inr b ↦ elim (Bool-cases (str_eq raw "ts")) [
      | inl c ↦ rw (a, b, c, (eq_iff raw "ts").0 c) ts
      | inr c ↦
          rw (a, b, c) (itself raw (other raw "author" a) (other raw "tag" b) (other raw "ts" c))
    ]
  ]
]

abbrev pub search_verdict : Facts → String → String → Verdict
search_verdict facts field value =
    if is_known facts field
    then accepted
    else reject field "eq" value (if in_nested facts field then nested_reason else "unknown field")

abbrev pub range_verdict : Facts → String → String → Verdict
range_verdict facts field value =
    if is_known facts field && is_range_field facts field
    then accepted
    else reject field "range" value (
        if in_nested facts field
        then nested_reason
        else if is_known facts field
        then range_reason
        else "unknown field")

refuted : {P : Type 0} {b : Bool} → (b ≡ true) ↔ P → b ≡ false → ¬ P
refuted iff h p = cc (h, iff.1 p)

module _ (facts : Facts) (not_allowed : String → String) where
  normalized : (field : String) → normalize_field (bootstrap facts) field ≡ ok (canonical_of field)
  unfolding normalize_field bootstrap
  normalized field = elim (Bool-cases (str_eq field "author")) [
    | inl a ↦ rw a refl
    | inr a ↦ elim (Bool-cases (str_eq field "tag")) [
      | inl b ↦ rw (a, b) refl
      | inr b ↦ elim (Bool-cases (str_eq field "ts")) [
        | inl c ↦ rw (a, b, c) refl
        | inr c ↦ rw (a, b, c) refl
      ]
    ]
  ]

  known : (field : String) → is_known_field (bootstrap facts) field ≡ ok (is_known facts field)
  unfolding is_known_field bootstrap
  known field = elim (Bool-cases (is_known facts field)) [ inl k ↦ rw k refl | inr k ↦ rw k refl ]

  searched :
      (field value : String)
      → validate (bootstrap facts) not_allowed field "eq" value ≡ search_verdict facts field value
  unfolding validate bootstrap is_valid reason_of
  searched field value = elim (Bool-cases (is_known facts field)) [
    | inl k ↦ rw k refl
    | inr k ↦ elim (Bool-cases (in_nested facts field)) [
      | inl n ↦ rw (k, n) refl
      | inr n ↦ rw (k, n, k) refl
    ]
  ]

  ranged :
      (field value : String)
      → validate (bootstrap facts) not_allowed field "range" value ≡ range_verdict facts field value
  unfolding validate bootstrap is_valid reason_of
  ranged field value = elim (Bool-cases (is_known facts field)) [
    | inl k ↦ elim (Bool-cases (is_range_field facts field)) [
      | inl r ↦ rw (k, r) refl
      | inr r ↦ elim (Bool-cases (in_nested facts field)) [
        | inl n ↦ rw (k, r, n) refl
        | inr n ↦ rw (k, r, n, k, r) refl
      ]
    ]
    | inr k ↦ elim (Bool-cases (in_nested facts field)) [
      | inl n ↦ rw (k, n) refl
      | inr n ↦ rw (k, n, k) refl
    ]
  ]

  pub computed_verdicts :
      (interp : Interpreter) (field value : String)
      → Follows interp facts
      → (normalize_field interp field ≡ ok (canonical_of field))
        × (is_known_field interp field ≡ ok (is_known facts field))
        × (validate interp not_allowed field "eq" value ≡ search_verdict facts field value)
        × (validate interp not_allowed field "range" value ≡ range_verdict facts field value)
  computed_verdicts interp field value h =
      subst
        (λ (i : Interpreter).
          (normalize_field i field ≡ ok (canonical_of field))
          × (is_known_field i field ≡ ok (is_known facts field))
          × (validate i not_allowed field "eq" value ≡ search_verdict facts field value)
          × (validate i not_allowed field "range" value ≡ range_verdict facts field value))
        (sym (fun_ext h)) (normalized field, known field, searched field value, ranged field value)

  search_verdict-Searched :
      (field value : String) → Searched facts field value (search_verdict facts field value)
  search_verdict-Searched field value =
      let known = is_known_iff facts field in
      let nested = in_nested_iff facts field in
      elim (Bool-cases (is_known facts field)) [
        | inl k ↦ rw k (may_search (known.0 k))
        | inr k ↦ elim (Bool-cases (in_nested facts field)) [
          | inl n ↦ rw (k, n) (in_nested_field (refuted known k) (nested.0 n))
          | inr n ↦ rw (k, n) (not_known (refuted known k) (refuted nested n))
        ]
      ]

  range_verdict-Bounded :
      (field value : String) → Bounded facts field value (range_verdict facts field value)
  range_verdict-Bounded field value =
      let known = is_known_iff facts field in
      let nested = in_nested_iff facts field in
      let ranged = is_range_field_iff facts field in
      elim (Bool-cases (is_known facts field)) [
        | inl k ↦ elim (Bool-cases (is_range_field facts field)) [
          | inl r ↦ rw (k, r) (may_range (known.0 k) (ranged.0 r))
          | inr r ↦ elim (Bool-cases (in_nested facts field)) [
            | inl n ↦ rw (k, r, n) (in_nested_range (λ h. refuted ranged r h.1) (nested.0 n))
            | inr n ↦ rw (k, r, n) (no_range (known.0 k) (refuted ranged r) (refuted nested n))
          ]
        ]
        | inr k ↦ elim (Bool-cases (in_nested facts field)) [
          | inl n ↦ rw (k, n) (in_nested_range (λ h. refuted known k h.0) (nested.0 n))
          | inr n ↦ rw (k, n) (not_known_range (refuted known k) (refuted nested n))
        ]
      ]

  -- If the interpreter answers as the shipped rules and the loaded facts say, author, tag and ts are
  -- taken for other fields, and no other name is; a field is known exactly if the rules list it, or
  -- a schema has it and it is neither an object nor nested nor below a nested field; a search is
  -- accepted on the known fields, and a range on those of them that the rules list for ranges or
  -- that have a type of numbers, dates, addresses or keywords. A rejection says, in this order, that
  -- the field is nested, that it is unknown, or that it has no ranges.
  pub bootstrap_verdicts :
      (interp : Interpreter) (field value : String)
      → Follows interp facts
      → ((canonical : String) × (normalize_field interp field ≡ ok canonical)
          × Alias field canonical)
        × ((b : Bool) × (is_known_field interp field ≡ ok b) × ((b ≡ true) ↔ Known facts field))
        × Searched facts field value (validate interp not_allowed field "eq" value)
        × Bounded facts field value (validate interp not_allowed field "range" value)
  bootstrap_verdicts interp field value h =
      let (normalizes, knows, searches, bounds) = computed_verdicts interp field value h in
      (
        (canonical_of field, normalizes, canonical_of-Alias field),
        (is_known facts field, knows, is_known_iff facts field),
        rw searches (search_verdict-Searched field value),
        rw bounds (range_verdict-Bounded field value),
      )
