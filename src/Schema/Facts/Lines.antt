-- ===== src/Schema/Facts/Lines.antt =====
-- The text that `Write` makes of a schema, as a Prolog reader takes it.
use opensearch_query_gateway.Shared.{
  ℕ, String, Option, none, some, List, [], ◌∷◌, ◌++◌, ◌≡◌, if◌then◌else◌, str_eq, codes, map,
  length,
}
use opensearch_query_gateway.Shared.Int.{ℤ}
use opensearch_query_gateway.Schema.{Field, IndexSchema}
use opensearch_query_gateway.Schema.Facts.{Emit, write}
use opensearch_query_gateway.Schema.Facts.Reading.{read_fact}

-- The line that a group makes of a field.
abbrev line_of : String → List (String × Emit) → Field → Option String
line_of name [] f = none
line_of name ((group, emit) ∷ rest) f = if str_eq group name then emit f else line_of name rest f

-- A line is among the characters of a text.
abbrev Holds : String → List ℕ → Type 0
Holds line cs = (before after : List ℕ) × (cs ≡ before ++ (codes line ++ (10 ∷ after)))

module _ (show : ℤ → String) (s : IndexSchema) where
  -- The text of the schema holds a line, and where it stands a reader takes it for a fact of the
  -- predicate with the name of the index and these texts, up to the end of the line.
  abbrev pub Stated : String → List String → Type 0
  Stated name args =
      (line : String) × (before after : List ℕ) × (codes (write show s)
        ≡ before ++ (codes line ++ (10 ∷ after)))
      × (read_fact name (length args) (codes line ++ (10 ∷ after))
          ≡ some (codes s.name ∷ map codes args, 10 ∷ after))
