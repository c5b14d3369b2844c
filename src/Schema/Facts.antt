-- ===== src/Schema/Facts.antt =====
-- internal/schema/prolog_writer.go: `Write`, the facts that describe a schema to the rules.
-- `fmt.Sprintf` writes a number with `show`.
pub mod Reading
pub mod Lines
use opensearch_query_gateway.Shared.{
  String, Bool, true, false, not, Option, none, some, List, [], ◌∷◌, ◌++◌, if◌then◌else◌, ◌<>◌,
  is_empty, join,
}
use opensearch_query_gateway.Shared.Int.{ℤ}
use opensearch_query_gateway.Schema.{Field, IndexSchema}
use opensearch_query_gateway.Schema.Atoms.{atom}
use opensearch_query_gateway.Schema.Analysis.{sort_stable}

-- `name(arg, arg, …).`
unfoldable pub fact : String → List String → String
unfolding join
fact name args = name <> "(" <> join ", " args <> ")."

-- A function `emit`: the line of a field, where it has one.
abbrev pub Emit : Type 0
Emit = Field → Option String

abbrev pub when : Bool → String → Option String
when b line = if b then some line else none

abbrev pub lines_of : Emit → List Field → List String
lines_of emit [] = []
lines_of emit (f ∷ fs) = elim (emit f) [
  | none ↦ lines_of emit fs
  | some line ↦ line ∷ lines_of emit fs
]

show_bool : Bool → String
show_bool true = "true"
show_bool false = "false"

-- The line of a set pointer.
abbrev of_pointer : {A : Type 0} → (A → String) → Option A → Option String
of_pointer line none = none
of_pointer line (some a) = some (line a)

module _ (show : ℤ → String) (idx : String) where
  -- The fields of `groups`, in their order; `idx` is the atom of the index.
  unfoldable pub groups : List (String × Emit)
  unfolding fact show_bool
  groups =
      ("field/2", λ f. some (fact "field" (idx ∷ atom f.path ∷ [])))
      ∷ (
        "field_type/3",
        λ f.
            when (not (is_empty f.type)) (fact "field_type" (idx ∷ atom f.path ∷ atom f.type ∷ [])),
      )
      ∷ ("object/2", λ f. when f.is_object (fact "object" (idx ∷ atom f.path ∷ [])))
      ∷ ("nested/2", λ f. when f.is_nested (fact "nested" (idx ∷ atom f.path ∷ [])))
      ∷ (
        "analyzer/3",
        λ f.
            when (not (is_empty f.analyzer))
              (fact "analyzer" (idx ∷ atom f.path ∷ atom f.analyzer ∷ [])),
      )
      ∷ (
        "format/3",
        λ f.
            when (not (is_empty f.format)) (fact "format" (idx ∷ atom f.path ∷ atom f.format ∷ [])),
      )
      ∷ (
        "ignore_above/3",
        λ f. of_pointer (λ n. fact "ignore_above" (idx ∷ atom f.path ∷ show n ∷ [])) f.ignore_above,
      )
      ∷ (
        "indexed/3",
        λ f. of_pointer (λ b. fact "indexed" (idx ∷ atom f.path ∷ show_bool b ∷ [])) f.indexed,
      )
      ∷ (
        "doc_values/3",
        λ f.
            of_pointer (λ b. fact "doc_values" (idx ∷ atom f.path ∷ show_bool b ∷ [])) f.doc_values,
      )
      ∷ []

-- The section of a group; a group without lines has none.
unfoldable pub write_lines : String → List String → String
write_lines name [] = ""
write_lines name (l ∷ ls) = "\n% " <> name <> "\n" <> join "\n" (l ∷ ls) <> "\n"

unfoldable pub write_groups : List (String × Emit) → List Field → String
write_groups [] fs = ""
write_groups ((name, emit) ∷ gs) fs = write_lines name (lines_of emit fs) <> write_groups gs fs

unfoldable pub write : (ℤ → String) → IndexSchema → String
unfolding write_groups write_lines groups
write show s =
    "% Generated by schema-export for index "
    <> s.name
    <> ". Do not edit by hand.\n"
    <> "index("
    <> atom s.name
    <> ").\n"
    <> write_groups (groups show (atom s.name)) (sort_stable s.fields)
