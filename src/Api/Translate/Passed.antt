-- ===== src/Api/Translate/Passed.antt =====
-- What the walk of `translate` over the clauses has checked of each when it ends without an error.
use opensearch_query_gateway.Shared.{
  String, Bool, true, false, Option, none, some, List, [], ◌∷◌, ◌++◌, ◌≡◌, refl, sym, ap, ◌∙◌,
  str_eq, eq_iff, eq_refl, if◌then◌else◌, Bool-cases, inl, inr, append-nil, append_assoc,
}
use opensearch_query_gateway.Shared.Fallible.{Fallible, ok, err}
use opensearch_query_gateway.Query.{Clause, is_relative_time, duration, op, raw_value}
use opensearch_query_gateway.Query.Walk.{walk_list}
use opensearch_query_gateway.Rules.{Verdict, accepted, rejected, failed}
use opensearch_query_gateway.Api.Errors.{ApiError}
use opensearch_query_gateway.Api.Page.{RuleEngine}
use opensearch_query_gateway.Api.Translate.{
  Normalization, Walk, verdict_error, check_relative, check_field, check_clause, visit,
}

module _ (rules : RuleEngine) (time_field : String) where
  -- Clause `c` was let through as `c'`: a relative clause unchanged, after its duration was
  -- accepted as a range over the time field; any other with the field that the rules give for
  -- its own, after that field, the operation and the value were accepted.
  pub data Passed (c c' : Clause) : Type 0 where
    relative :
        is_relative_time c ≡ true
        → (duration c).1 ≡ true
        → rules.validate time_field "range" (duration c).0 ≡ accepted
        → c' ≡ c
        → Passed c c'
    canonical :
        is_relative_time c ≡ false
        → rules.normalize_field c.field ≡ ok c'.field
        → c'.value ≡ c.value
        → rules.validate c'.field (op c') (raw_value c') ≡ accepted
        → Passed c c'

  abbrev pub AllPassed : List Clause → List Clause → Type 0
  AllPassed [] [] = Unit
  AllPassed (c ∷ cs) (c' ∷ cs') = Passed c c' × AllPassed cs cs'
  AllPassed _ _ = ⊥

  -- The entry that a clause adds to `normalized_fields`.
  abbrev pub renaming : Clause → Clause → List Normalization
  renaming c c' =
      if str_eq c'.field c.field then [] else record { from = c.field; to = c'.field } ∷ []

  abbrev pub renamings : List Clause → List Clause → List Normalization
  renamings (c ∷ cs) (c' ∷ cs') = renaming c c' ++ renamings cs cs'
  renamings _ _ = []

  verdict_error-none : (v : Verdict) → verdict_error v ≡ none → v ≡ accepted
  unfolding verdict_error
  verdict_error-none accepted h = refl
  verdict_error-none (rejected e) h = cc
  verdict_error-none (failed e) h = cc

  -- A step of the walk that ends without an error.
  abbrev Good : Clause → List Normalization → Clause × Walk → Type 0
  Good c n (c', w) = w.error ≡ none → Passed c c' × (w.normalized ≡ n ++ renaming c c')

  check_relative-Good :
      (c : Clause) (p : String × Bool) (n : List Normalization)
      → is_relative_time c ≡ true
      → duration c ≡ p
      → Good c n (check_relative rules time_field c p n)
  unfolding check_relative
  check_relative-Good c (d, true) n r e h = (
    relative r (ap (λ (p : String × Bool). p.1) e)
        (rw e (verdict_error-none (rules.validate time_field "range" d) h)) refl,
    rw (eq_refl c.field) (sym (append-nil n)),
  )
  check_relative-Good c (d, false) n r e h = cc

  check_field-Good :
      (c : Clause) (f : Fallible String String) (n : List Normalization)
      → is_relative_time c ≡ false
      → rules.normalize_field c.field ≡ f
      → Good c n (check_field rules time_field c f n)
  unfolding check_field
  check_field-Good c (err e) n r p = λ h. cc
  check_field-Good c (ok f) n r p = elim (Bool-cases (str_eq f c.field)) [
    | inl e ↦ rw e (λ h. (
      canonical r (p ∙ ap ok ((eq_iff f c.field).0 e)) refl (verdict_error-none _ h),
      rw (eq_refl c.field) (sym (append-nil n)),
    ))
    | inr e ↦ rw e (λ h. (canonical r p refl (verdict_error-none _ h), rw e))
  ]

  check_clause-Good :
      (c : Clause) (n : List Normalization) → Good c n (check_clause rules time_field c n)
  unfolding check_clause
  check_clause-Good c n = elim (Bool-cases (is_relative_time c)) [
    | inl e ↦ rw e (check_relative-Good c (duration c) n e refl)
    | inr e ↦ rw e (check_field-Good c (rules.normalize_field c.field) n e refl)
  ]

  visit-Good :
      (c : Clause) (w : Walk)
      → (visit rules time_field c w).1.error ≡ none
      → (w.error ≡ none)
        × (Passed c (visit rules time_field c w).0
            × ((visit rules time_field c w).1.normalized
                ≡ w.normalized ++ renaming c (visit rules time_field c w).0))
  unfolding visit check_clause
  visit-Good c w = from w.error refl
    where
      from :
          (e : Option ApiError)
          → w.error ≡ e
          → (visit rules time_field c w).1.error ≡ none
          → (w.error ≡ none)
            × (Passed c (visit rules time_field c w).0
                × ((visit rules time_field c w).1.normalized
                    ≡ w.normalized ++ renaming c (visit rules time_field c w).0))
      from none p = rw (p, visit) (λ h. (refl, check_clause-Good c w.normalized h))
      from (some e) p = rw (p, visit) (λ h. cc)

  pub walk_list-Good :
      (cs : List Clause) (w : Walk)
      → (walk_list (visit rules time_field) cs w).1.error ≡ none
      → (w.error ≡ none)
        × (AllPassed cs (walk_list (visit rules time_field) cs w).0
            × ((walk_list (visit rules time_field) cs w).1.normalized
                ≡ w.normalized ++ renamings cs (walk_list (visit rules time_field) cs w).0))
  walk_list-Good [] w h = (h, (tt, sym (append-nil w.normalized)))
  walk_list-Good (c ∷ cs) w h =
      let later = walk_list-Good cs (visit rules time_field c w).1 h in
      let first = visit-Good c w later.0 in
      (
        first.0,
        (
          (first.1.0, later.1.0),
          later.1.1
              ∙ rw first.1.1
                  (append_assoc w.normalized (renaming c (visit rules time_field c w).0) _),
        ),
      )
