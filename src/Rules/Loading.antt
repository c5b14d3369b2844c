-- ===== src/Rules/Loading.antt =====
-- internal/rules/engine.go: `New`, which loads the rules into a blank interpreter, and `Load`. The
-- interpreter's state is of a type `S`; `exec` is what its `Exec` makes of a program, and
-- `read_file` is `os.ReadFile`. A duration is a number of nanoseconds.
pub mod Loaded
use opensearch_query_gateway.Shared.{
  ℕ, String, Option, none, some, List, [], ◌∷◌, if◌then◌else◌, is_empty, codes,
}
use opensearch_query_gateway.Shared.Int.{ℤ, pos, leb_ℤ}
use opensearch_query_gateway.Shared.Fallible.{Fallible, ok, err, ◌>>=◌}
use opensearch_query_gateway.Schema.Notes.{has_suffix}
use opensearch_query_gateway.Dcg.{ParseError}
use opensearch_query_gateway.Dcg.Lexer.{Unicode}
use opensearch_query_gateway.Dcg.Generator.{Compiled, clauses, refused, unanswered, compile}

-- Why a file is not loaded. The compiler of grammars always answers, so that the case of no answer
-- does not arise.
pub data FileError : Type 0 where
  unreadable : (error : String) → FileError
  uncompiled : ParseError → FileError
  no_answer : FileError
  unloaded : (error : String) → FileError

-- The error of `New`, with the name of the file.
pub data LoadError : Type 0 where
  bad_prelude : (error : String) → LoadError
  bad_file : (file : String) → FileError → LoadError

pub record Engine (S : Type 0) : Type 0 where
  pub interp : S
  pub timeout : ℤ

abbrev pub prelude : String
prelude =
    "\n:- set_prolog_flag(double_quotes, atom).\n:- dynamic(index/1).\n:- dynamic(field/2).\n:- dynamic(field_type/3).\n:- dynamic(object/2).\n:- dynamic(nested/2).\n:- dynamic(analyzer/3).\n:- dynamic(format/3).\n:- dynamic(ignore_above/3).\n:- dynamic(indexed/3).\n:- dynamic(doc_values/3).\n:- dynamic(field_alias/2).\n:- dynamic(known_field/1).\n:- dynamic(numeric_field/1).\n:- dynamic(date_field/1).\n"

-- The bootstrap file, if there is one, comes before the others.
abbrev pub files_of : String → List String → List String
files_of bootstrap extra = if is_empty bootstrap then extra else bootstrap ∷ extra

abbrev pub timeout_or_default : ℤ → ℤ
timeout_or_default timeout = if leb_ℤ timeout (pos 0) then pos 200000000 else timeout

abbrev compiled_text : Compiled → Fallible FileError String
compiled_text (clauses text) = ok text
compiled_text (refused e) = err (uncompiled e)
compiled_text unanswered = err no_answer

abbrev pub map_err : {E E' A : Type 0} → (E → E') → Fallible E A → Fallible E' A
map_err f (ok a) = ok a
map_err f (err e) = err (f e)

module _ (unicode : Unicode) (show : ℕ → String) where
  -- The program that a file holds.
  unfoldable pub program_of : String → String → Fallible FileError String
  unfolding compile
  program_of file src =
      if has_suffix ".dcg" (codes file) then compiled_text (compile show unicode src) else ok src

module _ {S : Type 0} (unicode : Unicode) (show : ℕ → String)
    (read_file : String → Fallible String String) (exec : String → S → Fallible String S) where
  -- `Load`.
  abbrev pub load_program : String → S → Fallible String S
  load_program src s = exec src s

  -- One round of the loop over the files.
  unfoldable pub load_file : String → S → Fallible FileError S
  unfolding program_of
  load_file file s = do
    src ← map_err unreadable (read_file file)
    text ← program_of unicode show file src
    map_err unloaded (load_program text s)

  unfoldable pub load_files : List String → S → Fallible LoadError S
  unfolding load_file
  load_files [] s = ok s
  load_files (file ∷ files) s = do
    s' ← map_err (bad_file file) (load_file file s)
    load_files files s'

  unfoldable pub new : S → String → ℤ → List String → Fallible LoadError (Engine S)
  unfolding load_files
  new blank bootstrap timeout extra = do
    s ← map_err bad_prelude (load_program prelude blank)
    s' ← load_files (files_of bootstrap extra) s
    ok (record { interp = s'; timeout = timeout_or_default timeout })
