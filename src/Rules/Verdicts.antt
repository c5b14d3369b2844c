-- ===== src/Rules/Verdicts.antt =====
-- When a clause is accepted, rejected, or not decided.
use mathlib.Core.Path.{subst}
use opensearch_query_gateway.Shared.{
  String, Bool, true, false, Option, none, some, ◌≡◌, ◌≢◌, refl, ◌↔◌,
}
use opensearch_query_gateway.Shared.Fallible.{Fallible, ok, err}
use opensearch_query_gateway.Rules.{
  valid_clause, rejection_reason, Outcome, refused, solution, unscannable, exhausted, Interpreter,
  RejectionError, Verdict, accepted, rejected, failed, is_known_field, validate, first, no_solution,
  after_check, reject_with, reject_known, stated_reason,
}

-- The interpreter found a solution.
abbrev pub Holds : Outcome → Type 0
Holds (solution s) = Unit
Holds (unscannable e) = Unit
Holds _ = ⊥

-- The interpreter searched to the end and found none.
abbrev pub Fails : Outcome → Type 0
Fails (exhausted none none) = Unit
Fails _ = ⊥

module _ (interp : Interpreter) (not_allowed : String → String) (field op value : String) where
  -- A rejection names the clause.
  abbrev Names : Verdict → Type 0
  Names accepted = ⊥
  Names (rejected e) = (e.field ≡ field) × (e.op ≡ op) × (e.value ≡ value)
  Names (failed e) = Unit

  reject_known-Names :
      (r : Fallible String Bool) → Names (reject_known field op value not_allowed r)
  unfolding reject_known
  reject_known-Names (err e) = tt
  reject_known-Names (ok b) = (refl, refl, refl)

  reject_with-Names : (o : Option String) → Names (reject_with interp field op value not_allowed o)
  unfolding reject_with
  reject_with-Names (some reason) = (refl, refl, refl)
  reject_with-Names none = reject_known-Names (is_known_field interp field)

  Names-ne-accepted : (v : Verdict) → Names v → v ≢ accepted
  Names-ne-accepted accepted h = absurd h
  Names-ne-accepted _ h = cc

  Names-rejected :
      (v : Verdict) (e : RejectionError)
      → Names v
      → v ≡ rejected e
      → (e.field ≡ field) × (e.op ≡ op) × (e.value ≡ value)
  Names-rejected (rejected d) e h p = subst (λ v. Names v) p h
  Names-rejected _ e h p = cc

  check_verdict :
      (o : Outcome)
      → ((after_check interp field op value not_allowed (first false o) ≡ accepted) ↔ Holds o)
        × ((e : RejectionError)
            → after_check interp field op value not_allowed (first false o) ≡ rejected e
            → Fails o × ((e.field ≡ field) × (e.op ≡ op) × (e.value ≡ value)))
  unfolding first after_check no_solution
  check_verdict (refused x) = ((λ h. cc, λ h. absurd h), λ e h. cc)
  check_verdict (solution x) = ((λ h. tt, λ h. refl), λ e h. cc)
  check_verdict (unscannable x) = ((λ h. tt, λ h. refl), λ e h. cc)
  check_verdict (exhausted (some x) c) = ((λ h. cc, λ h. absurd h), λ e h. cc)
  check_verdict (exhausted none (some x)) = ((λ h. cc, λ h. absurd h), λ e h. cc)
  check_verdict (exhausted none none) =
      let stated = stated_reason (first true (interp (rejection_reason field op value))) in
      let names = reject_with-Names stated in
      (
        (λ h. absurd (Names-ne-accepted _ names h), λ h. absurd h),
        λ e h. (tt, Names-rejected _ e names h),
      )

-- `Validate` accepts a clause exactly when the rules have a solution for `valid_clause`; a clause
-- is rejected only where they have none, and neither a timeout nor an error of the interpreter
-- on that goal accepts or rejects it. A rejection carries the clause as it was given.
pub validate_verdict :
    (interp : Interpreter) (not_allowed : String → String) (field op value : String)
    → ((validate interp not_allowed field op value ≡ accepted)
        ↔ Holds (interp (valid_clause field op value)))
      × ((e : RejectionError)
          → validate interp not_allowed field op value ≡ rejected e
          → Fails (interp (valid_clause field op value))
            × ((e.field ≡ field) × (e.op ≡ op) × (e.value ≡ value)))
unfolding validate
validate_verdict interp not_allowed field op value =
    check_verdict interp not_allowed field op value (interp (valid_clause field op value))
