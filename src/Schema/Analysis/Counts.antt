-- ===== src/Schema/Analysis/Counts.antt =====
-- The fields and the counts of an analysis.
use mathlib.Core.List.{Perm}
use mathlib.Core.List.Perm
use opensearch_query_gateway.Shared.{
  ℕ, ◌+◌, String, Bool, true, false, List, [], ◌∷◌, ◌++◌, ◌≡◌, refl, sym, codes, length, map, arith,
  Bool-cases, inl, inr, append-nil, append_assoc,
}
use opensearch_query_gateway.Shared.Int.{ℤ}
use opensearch_query_gateway.Schema.{Field, IndexSchema, searchable, aggregatable}
use opensearch_query_gateway.Schema.Analysis.{
  Summary, FieldSummary, codes_lt, path_lt, insert, sort_stable, field_summary, one_if, Found,
  nothing_found, count_field, is_date_filter, is_full_text, classify, visit_fields, analyze,
}

-- No field has a smaller path than the one before it.
abbrev pub IsSorted : List FieldSummary → Type 0
IsSorted [] = Unit
IsSorted (f ∷ []) = Unit
IsSorted (f ∷ g ∷ gs) = (codes_lt (codes g.path) (codes f.path) ≡ false) × IsSorted (g ∷ gs)

abbrev pub count_if : (Field → Bool) → List Field → ℕ
count_if p [] = 0
count_if p (f ∷ fs) = one_if (p f) + count_if p fs

pub codes_lt-asymm : (xs ys : List ℕ) → codes_lt xs ys ≡ true → codes_lt ys xs ≡ false
unfolding codes_lt
codes_lt-asymm [] [] h = refl
codes_lt-asymm [] (y ∷ ys) h = refl
codes_lt-asymm (x ∷ xs) [] h = cc
codes_lt-asymm (x ∷ xs) (y ∷ ys) h = ground (arith, codes_lt-asymm xs ys)

count_if-insert :
    (p : Field → Bool) (f : Field) (fs : List Field)
    → count_if p (insert f fs) ≡ one_if (p f) + count_if p fs
unfolding insert
count_if-insert p f [] = refl
count_if-insert p f (g ∷ gs) = elim (Bool-cases (path_lt g f)) [
  | inl e ↦ rw e (omega (arith, count_if-insert p f gs))
  | inr e ↦ rw e refl
]

count_if-sort_stable :
    (p : Field → Bool) (fs : List Field) → count_if p (sort_stable fs) ≡ count_if p fs
unfolding sort_stable
count_if-sort_stable p [] = refl
count_if-sort_stable p (f ∷ fs) =
    rw (count_if-insert p f (sort_stable fs), count_if-sort_stable p fs)

length-insert : (f : Field) (fs : List Field) → length (insert f fs) ≡ length fs + 1
unfolding insert
length-insert f [] = refl
length-insert f (g ∷ gs) = elim (Bool-cases (path_lt g f)) [
  | inl e ↦ rw e (omega (arith, length-insert f gs))
  | inr e ↦ rw e (omega arith)
]

length-sort_stable : (fs : List Field) → length (sort_stable fs) ≡ length fs
unfolding sort_stable
length-sort_stable [] = refl
length-sort_stable (f ∷ fs) = omega (arith, length-insert f (sort_stable fs), length-sort_stable fs)

insert-perm : (f : Field) (fs : List Field) → Perm (insert f fs) (f ∷ fs)
unfolding insert
insert-perm f [] = Perm.refl (f ∷ [])
insert-perm f (g ∷ gs) = elim (Bool-cases (path_lt g f)) [
  | inl e ↦ rw e (Perm.trans (Perm.cons g (insert-perm f gs)) (Perm.swap f g gs))
  | inr e ↦ rw e (Perm.refl (f ∷ g ∷ gs))
]

sort_stable-perm : (fs : List Field) → Perm (sort_stable fs) fs
unfolding sort_stable
sort_stable-perm [] = Perm.refl []
sort_stable-perm (f ∷ fs) =
    Perm.trans (insert-perm f (sort_stable fs)) (Perm.cons f (sort_stable-perm fs))

-- The counts of `w` with those of the fields `fs` added.
abbrev counted : List Field → Summary → Summary
counted [] s = s
counted (f ∷ fs) s = counted fs (count_field f s)

record Counted (fs : List Field) (s t : Summary) : Type 0 where
  fields_total : t.fields_total ≡ s.fields_total + length fs
  searchable : t.searchable ≡ s.searchable + count_if searchable fs
  aggregatable : t.aggregatable ≡ s.aggregatable + count_if aggregatable fs
  object_fields : t.object_fields ≡ s.object_fields + count_if (λ f. f.is_object) fs
  nested_fields : t.nested_fields ≡ s.nested_fields + count_if (λ f. f.is_nested) fs

counted-Counted : (fs : List Field) (s : Summary) → Counted fs s (counted fs s)
unfolding count_field
counted-Counted [] s = record {
  fields_total = omega arith;
  searchable = omega arith;
  aggregatable = omega arith;
  object_fields = omega arith;
  nested_fields = omega arith;
}
counted-Counted (f ∷ fs) s =
    let later = counted-Counted fs (count_field f s) in
    record {
      fields_total = omega (arith, later.fields_total);
      searchable = omega (arith, later.searchable);
      aggregatable = omega (arith, later.aggregatable);
      object_fields = omega (arith, later.object_fields);
      nested_fields = omega (arith, later.nested_fields);
    }

classify-summary : (f : Field) (w : Found) → (classify f w).summary ≡ count_field f w.summary
unfolding classify
classify-summary f w = elim (Bool-cases (is_date_filter f)) [
  | inl e ↦ rw e refl
  | inr e ↦ elim (Bool-cases (is_full_text f)) [ inl k ↦ rw (e, k) refl | inr k ↦ rw (e, k) refl ]
]

classify-fields : (f : Field) (w : Found) → (classify f w).fields ≡ w.fields
unfolding classify
classify-fields f w = elim (Bool-cases (is_date_filter f)) [
  | inl e ↦ rw e refl
  | inr e ↦ elim (Bool-cases (is_full_text f)) [ inl k ↦ rw (e, k) refl | inr k ↦ rw (e, k) refl ]
]

module _ (show : ℤ → String) where
  visit_fields-summary :
      (fs : List Field) (w : Found) → (visit_fields show fs w).summary ≡ counted fs w.summary
  unfolding visit_fields
  visit_fields-summary [] w = refl
  visit_fields-summary (f ∷ fs) w = rw (visit_fields-summary fs, classify-summary f w)

  visit_fields-fields :
      (fs : List Field) (w : Found)
      → (visit_fields show fs w).fields ≡ w.fields ++ map (field_summary show) fs
  unfolding visit_fields
  visit_fields-fields [] w = sym (append-nil w.fields)
  visit_fields-fields (f ∷ fs) w =
      rw (visit_fields-fields fs, classify-fields f w)
        (append_assoc w.fields (field_summary show f ∷ []) (map (field_summary show) fs))

  insert-IsSorted :
      (f : Field) (fs : List Field)
      → IsSorted (map (field_summary show) fs)
      → IsSorted (map (field_summary show) (insert f fs))
  unfolding insert field_summary
  insert-IsSorted f [] h = tt
  insert-IsSorted f (g ∷ []) h = elim (Bool-cases (path_lt g f)) [
    | inl e ↦ rw e (codes_lt-asymm (codes g.path) (codes f.path) e, tt)
    | inr e ↦ rw e (e, tt)
  ]
  insert-IsSorted f (g ∷ k ∷ ks) h = elim (Bool-cases (path_lt g f)) [
    | inr e ↦ rw e (e, h)
    | inl e ↦ elim (Bool-cases (path_lt k f)) [
      | inl d ↦ rw (e, d) (h.0, rw d at (insert-IsSorted f (k ∷ ks) h.1))
      | inr d ↦ rw (e, d) (codes_lt-asymm (codes g.path) (codes f.path) e, (d, h.1))
    ]
  ]

  sort_stable-IsSorted : (fs : List Field) → IsSorted (map (field_summary show) (sort_stable fs))
  unfolding sort_stable
  sort_stable-IsSorted [] = tt
  sort_stable-IsSorted (f ∷ fs) = insert-IsSorted f (sort_stable fs) (sort_stable-IsSorted fs)

  -- An analysis lists every field of the schema once, in the order of their paths, and its summary
  -- counts the fields of the schema: all of them, the searchable, the aggregatable, the objects
  -- and the nested ones.
  pub analyze_lists :
      (s : IndexSchema) (purpose : String)
      → let a = analyze show s purpose in
        Perm a.fields (map (field_summary show) s.fields)
        × IsSorted a.fields
        × (a.summary.fields_total ≡ length s.fields)
        × (a.summary.searchable ≡ count_if searchable s.fields)
        × (a.summary.aggregatable ≡ count_if aggregatable s.fields)
        × (a.summary.object_fields ≡ count_if (λ f. f.is_object) s.fields)
        × (a.summary.nested_fields ≡ count_if (λ f. f.is_nested) s.fields)
  unfolding analyze
  analyze_lists s purpose =
      let sorted = sort_stable s.fields in
      let c = counted-Counted sorted nothing_found.summary in
      let count = λ (p : Field → Bool). count_if-sort_stable p s.fields in
      rw (visit_fields-fields sorted nothing_found, visit_fields-summary sorted nothing_found)
        (
          Perm.map (field_summary show) (sort_stable-perm s.fields),
          sort_stable-IsSorted s.fields,
          omega (arith, c.fields_total, length-sort_stable s.fields),
          omega (arith, c.searchable, count searchable),
          omega (arith, c.aggregatable, count aggregatable),
          omega (arith, c.object_fields, count (λ f. f.is_object)),
          omega (arith, c.nested_fields, count (λ f. f.is_nested)),
        )
