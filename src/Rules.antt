-- ===== src/Rules.antt =====
-- internal/rules/engine.go: the questions that the gateway asks the Prolog interpreter, and what it
-- makes of the answers. The interpreter is third-party: a function from goals to outcomes.
-- The mutex around the interpreter is left out: a question is answered as a whole. Loading is how
-- `New` loads the rules before the first question.
pub mod Verdicts
pub mod Loading
pub mod Bootstrap
use opensearch_query_gateway.Shared.{
  String, Bool, true, false, Option, none, some, if◌then◌else◌, is_empty,
}
use opensearch_query_gateway.Shared.Fallible.{Fallible, ok, err}

-- The goals of `NormalizeField`, `KnownField` and `Validate`, with their arguments as data.
pub data Goal : Type 0 where
  field_alias : (raw : String) → Goal
  known_field : (field : String) → Goal
  valid_clause : (field op value : String) → Goal
  rejection_reason : (field op value : String) → Goal

-- What `QueryContext`, `Next`, `Err` and `Scan` answer: a refused query, a first solution with the
-- text of its variable (or an error of `Scan`), or no solution, with the error of the search and
-- the state of the context.
pub data Outcome : Type 0 where
  refused : (error : String) → Outcome
  solution : (scanned : String) → Outcome
  unscannable : (error : String) → Outcome
  exhausted : (search_error context_error : Option String) → Outcome

abbrev pub Interpreter : Type 0
Interpreter = Goal → Outcome

-- Whether a solution was found, and the text of its variable, "" where none is asked for.
pub record Answer : Type 0 where
  pub found : Bool
  pub text : String

abbrev no_answer : Answer
no_answer = record { found = false; text = "" }

no_solution : Option String → Option String → Fallible String Answer
no_solution (some e) _ = err e
no_solution none (some e) = err e
no_solution none none = ok no_answer

-- `first`; the flag says whether `out` is not nil.
unfoldable pub first : Bool → Outcome → Fallible String Answer
unfolding no_solution
first scans (refused e) = err e
first scans (solution s) = ok (record { found = true; text = if scans then s else "" })
first true (unscannable e) = err e
first false (unscannable e) = ok (record { found = true; text = "" })
first scans (exhausted e c) = no_solution e c

canonical : String → Fallible String Answer → Fallible String String
canonical raw (err e) = err e
canonical raw (ok a) = if a.found then (if is_empty a.text then ok raw else ok a.text) else ok raw

found_of : Fallible String Answer → Fallible String Bool
found_of (err e) = err e
found_of (ok a) = ok a.found

pub record RejectionError : Type 0 where
  pub field : String
  pub op : String
  pub value : String
  pub reason : String

-- The result of `Validate`: no error, a rejection, or another error.
pub data Verdict : Type 0 where
  accepted : Verdict
  rejected : RejectionError → Verdict
  failed : (error : String) → Verdict

-- The reason without one of the rules' own; the last is `fmt.Sprintf` of the operation.
reject_known : String → String → String → (String → String) → Fallible String Bool → Verdict
reject_known field op value not_allowed (err e) = failed e
reject_known field op value not_allowed (ok known) = rejected (record {
  field = field;
  op = op;
  value = value;
  reason = if known then not_allowed op else "unknown field";
})

stated_reason : Fallible String Answer → Option String
stated_reason (err e) = none
stated_reason (ok a) = if a.found then (if is_empty a.text then none else some a.text) else none

module _ (interp : Interpreter) where
  unfoldable pub normalize_field : String → Fallible String String
  unfolding first canonical
  normalize_field raw = canonical raw (first true (interp (field_alias raw)))

  unfoldable pub is_known_field : String → Fallible String Bool
  unfolding first found_of
  is_known_field field = found_of (first false (interp (known_field field)))

  reject_with : String → String → String → (String → String) → Option String → Verdict
  reject_with field op value not_allowed (some reason) =
      rejected (record { field = field; op = op; value = value; reason = reason })
  reject_with field op value not_allowed none =
      reject_known field op value not_allowed (is_known_field field)

  after_check : String → String → String → (String → String) → Fallible String Answer → Verdict
  after_check field op value not_allowed (err e) = failed e
  after_check field op value not_allowed (ok a) =
      let reason = stated_reason (first true (interp (rejection_reason field op value))) in
      if a.found then accepted else reject_with field op value not_allowed reason

  -- `not_allowed` is `fmt.Sprintf("operation %q is not allowed on this field", op)`.
  unfoldable pub validate : (String → String) → String → String → String → Verdict
  unfolding first after_check reject_with reject_known stated_reason is_known_field
  validate not_allowed field op value =
      after_check field op value not_allowed (first false (interp (valid_clause field op value)))
