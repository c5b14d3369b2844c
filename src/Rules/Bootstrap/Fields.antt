-- ===== src/Rules/Bootstrap/Fields.antt =====
-- internal/rules/bootstrap.pl: which fields the shipped rules know, and which they give ranges, as
-- propositions on the facts.
use mathlib.Core.Path.{subst}
use mathlib.Core.List.{Memᴰ}
use opensearch_query_gateway.Shared.{
  ℕ, String, Bool, true, false, not, ◌||◌, ◌&&◌, List, [], ◌∷◌, ◌++◌, ◌≡◌, refl, sym, ap, ◌⊎◌, inl,
  inr, ◌↔◌, eq_iff, str_eq, ◌==◌, ◌<>◌, codes, arith, both_true,
}
use opensearch_query_gateway.Config.Allowed.{contains-Memᴰ, Memᴰ-contains}
use opensearch_query_gateway.Config.{contains}
use opensearch_query_gateway.Rules.Bootstrap.{
  Facts, starts_with, inside_one, has_type, in_nested, is_known, is_range_field,
}

-- The field is a nested one, or below one.
abbrev pub IsNested : Facts → String → Type 0
IsNested facts f =
    Memᴰ f facts.nested
    ⊎ ((p : String) × Memᴰ p facts.nested
        × ((rest : List ℕ) × (codes f ≡ codes (p <> ".") ++ rest)))

-- The rules list the field, or a schema has it and it is no object and not nested.
abbrev pub IsListed : String → Type 0
IsListed f =
    Memᴰ f
      ("created_by" ∷ "tags" ∷ "title" ∷ "status" ∷ "published_at" ∷ "views" ∷ "@timestamp" ∷ [])

abbrev pub Known : Facts → String → Type 0
Known facts f = IsListed f ⊎ (Memᴰ f facts.fields × (¬ Memᴰ f facts.objects) × (¬ IsNested facts f))

-- A type of numbers, dates, addresses or keywords.
abbrev pub IsOrdered : String → Type 0
IsOrdered t = Memᴰ t (
    "date" ∷ "date_nanos" ∷ "ip" ∷ "keyword" ∷ "long" ∷ "integer" ∷ "short" ∷ "byte" ∷ "double"
    ∷ "float" ∷ "half_float" ∷ "scaled_float" ∷ "unsigned_long" ∷ [])

-- The rules list the field for ranges, or a schema gives it such a type.
abbrev pub Ranged : Facts → String → Type 0
Ranged facts f =
    Memᴰ f ("views" ∷ "published_at" ∷ "@timestamp" ∷ [])
    ⊎ ((t : String) × Memᴰ (f, t) facts.types × IsOrdered t)

either_true : (a b : Bool) → (a || b) ≡ true → (a ≡ true) ⊎ (b ≡ true)
either_true true b h = inl refl
either_true false b h = inr h

or_left : (a b : Bool) → a ≡ true → (a || b) ≡ true
or_left true b h = refl
or_left false b h = cc

or_right : (a b : Bool) → b ≡ true → (a || b) ≡ true
or_right true b h = refl
or_right false b h = h

not_iff : {P : Type 0} (b : Bool) → (b ≡ true) ↔ P → (not b ≡ true) ↔ (¬ P)
not_iff true iff = (λ h. cc, λ h. absurd (h (iff.0 refl)))
not_iff false iff = ((λ h p. cc (iff.1 p)), λ h. refl)

or_iff : {P Q : Type 0} (a b : Bool) → (a ≡ true) ↔ P → (b ≡ true) ↔ Q → ((a || b) ≡ true) ↔ (P ⊎ Q)
or_iff true b p q = (λ h. inl (p.0 refl), λ h. refl)
or_iff {P} {Q} false b p q = (λ h. inr (q.0 h), from)
  where
    from : P ⊎ Q → b ≡ true
    from (inl x) = cc (p.1 x)
    from (inr y) = q.1 y

and_iff :
    {P Q : Type 0} (a b : Bool) → (a ≡ true) ↔ P → (b ≡ true) ↔ Q → ((a && b) ≡ true) ↔ (P × Q)
and_iff true b p q = (λ h. (p.0 refl, q.0 h), λ h. q.1 h.1)
and_iff false b p q = (λ h. cc, λ h. cc (p.1 h.0))

contains_iff : (s : String) (xs : List String) → (contains s xs ≡ true) ↔ Memᴰ s xs
contains_iff s xs = (contains-Memᴰ s xs, Memᴰ-contains s xs)

abbrev Prefixed : List ℕ → List ℕ → Type 0
Prefixed ps cs = (rest : List ℕ) × (cs ≡ ps ++ rest)

starts_with_iff : (ps cs : List ℕ) → (starts_with ps cs ≡ true) ↔ Prefixed ps cs
unfolding starts_with
starts_with_iff [] cs = (λ h. (cs, refl), λ h. refl)
starts_with_iff (p ∷ ps) [] = (λ h. cc, λ h. cc (h.1))
starts_with_iff (p ∷ ps) (c ∷ cs) = let next = starts_with_iff ps cs in (to next, from next)
  where
    to :
        (starts_with ps cs ≡ true) ↔ Prefixed ps cs
        → starts_with (p ∷ ps) (c ∷ cs) ≡ true
        → Prefixed (p ∷ ps) (c ∷ cs)
    to next h =
        let both = both_true (p == c) (starts_with ps cs) h in
        let (rest, e) = next.0 both.1 in
        let same : p ≡ c = ground arith in (rest, rw (same, e) refl)

    from :
        (starts_with ps cs ≡ true) ↔ Prefixed ps cs
        → Prefixed (p ∷ ps) (c ∷ cs)
        → starts_with (p ∷ ps) (c ∷ cs) ≡ true
    from next (rest, e) =
        let tail : cs ≡ ps ++ rest = cc in
        let head : p ≡ c = cc in let later = next.1 (rest, tail) in ground arith

abbrev Below : String → List String → Type 0
Below f ps = (p : String) × Memᴰ p ps × Prefixed (codes (p <> ".")) (codes f)

inside_one_iff : (f : String) (ps : List String) → (inside_one f ps ≡ true) ↔ Below f ps
unfolding inside_one
inside_one_iff f [] = (λ h. cc, λ h. elim h.1 [ ])
inside_one_iff f (p ∷ ps) = let next = inside_one_iff f ps in (to next, from next)
  where
    to : (inside_one f ps ≡ true) ↔ Below f ps → inside_one f (p ∷ ps) ≡ true → Below f (p ∷ ps)
    to next h = elim (either_true (starts_with (codes (p <> ".")) (codes f)) (inside_one f ps) h) [
      | inl e ↦ (p, Memᴰ.head refl, (starts_with_iff (codes (p <> ".")) (codes f)).0 e)
      | inr e ↦ let (q, m, r) = next.0 e in (q, Memᴰ.tail m, r)
    ]

    from : (inside_one f ps ≡ true) ↔ Below f ps → Below f (p ∷ ps) → inside_one f (p ∷ ps) ≡ true
    from next (q, Memᴰ.head e, r) =
        or_left (starts_with (codes (p <> ".")) (codes f)) (inside_one f ps) (
          (starts_with_iff (codes (p <> ".")) (codes f)).1
            (subst (λ (x : String). Prefixed (codes (x <> ".")) (codes f)) e r))
    from next (q, Memᴰ.tail m, r) =
        or_right (starts_with (codes (p <> ".")) (codes f)) (inside_one f ps) (next.1 (q, m, r))

abbrev Typed : String → List String → List (String × String) → Type 0
Typed f ts rows = (t : String) × Memᴰ (f, t) rows × Memᴰ t ts

has_type_iff :
    (f : String) (ts : List String) (rows : List (String × String))
    → (has_type f ts rows ≡ true) ↔ Typed f ts rows
unfolding has_type
has_type_iff f ts [] = (λ h. cc, λ h. elim h.1 [ ])
has_type_iff f ts ((g, t) ∷ rows) = let next = has_type_iff f ts rows in (to next, from next)
  where
    to :
        (has_type f ts rows ≡ true) ↔ Typed f ts rows
        → has_type f ts ((g, t) ∷ rows) ≡ true
        → Typed f ts ((g, t) ∷ rows)
    to next h = elim (either_true (str_eq g f && contains t ts) (has_type f ts rows) h) [
      | inl e ↦
          let both = both_true (str_eq g f) (contains t ts) e in
          (
            t,
            Memᴰ.head (ap (λ (x : String). (x, t)) (sym ((eq_iff g f).0 both.0))),
            contains-Memᴰ t ts both.1,
          )
      | inr e ↦ let (u, m, i) = next.0 e in (u, Memᴰ.tail m, i)
    ]

    from :
        (has_type f ts rows ≡ true) ↔ Typed f ts rows
        → Typed f ts ((g, t) ∷ rows)
        → has_type f ts ((g, t) ∷ rows) ≡ true
    from next (u, Memᴰ.head e, i) =
        let same : g ≡ f = sym (ap (λ (x : String × String). x.0) e) in
        let type : u ≡ t = ap (λ (x : String × String). x.1) e in
        or_left (str_eq g f && contains t ts) (has_type f ts rows) (
          (and_iff (str_eq g f) (contains t ts) (eq_iff g f) (contains_iff t ts)).1
            (same, subst (λ (x : String). Memᴰ x ts) type i))
    from next (u, Memᴰ.tail m, i) =
        or_right (str_eq g f && contains t ts) (has_type f ts rows) (next.1 (u, m, i))

module _ (facts : Facts) (f : String) where
  pub in_nested_iff : (in_nested facts f ≡ true) ↔ IsNested facts f
  in_nested_iff =
      or_iff (contains f facts.nested) (inside_one f facts.nested) (contains_iff f facts.nested)
        (inside_one_iff f facts.nested)

  pub is_known_iff : (is_known facts f ≡ true) ↔ Known facts f
  unfolding is_known
  is_known_iff =
      let mapped =
        and_iff (contains f facts.fields && not (contains f facts.objects)) _
          (and_iff (contains f facts.fields) _ (contains_iff f facts.fields)
            (not_iff (contains f facts.objects) (contains_iff f facts.objects)))
          (not_iff (in_nested facts f) in_nested_iff) in
      or_iff _ _ (contains_iff f _)
        ((λ h. let ((p, q), r) = mapped.0 h in (p, q, r)), (λ (p, q, r). mapped.1 ((p, q), r)))

  pub is_range_field_iff : (is_range_field facts f ≡ true) ↔ Ranged facts f
  unfolding is_range_field
  is_range_field_iff = or_iff _ _ (contains_iff f _) (has_type_iff f _ facts.types)
