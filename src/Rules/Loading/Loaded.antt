-- ===== src/Rules/Loading/Loaded.antt =====
-- What an engine that `New` returns has loaded, and why `New` fails.
use opensearch_query_gateway.Shared.{
  ℕ, String, true, false, List, [], ◌∷◌, ◌++◌, ◌≡◌, ◌≢◌, refl, codes, Bool-cases, inl, inr, arith,
  is_empty, eq_iff,
}
use opensearch_query_gateway.Shared.Int.{ℤ, pos, negsuc, ltb_ℤ}
use opensearch_query_gateway.Shared.Fallible.{Fallible, ok, err, ◌>>=◌}
use opensearch_query_gateway.Schema.Notes.{has_suffix}
use opensearch_query_gateway.Dcg.{ParseError, Rule}
use opensearch_query_gateway.Dcg.Lexer.{Unicode}
use opensearch_query_gateway.Dcg.Parser.{Parser, Outcome, out_of_fuel, new_parser, parse_rules}
use opensearch_query_gateway.Dcg.Parser.Reads.{Ends}
use opensearch_query_gateway.Dcg.Parser.Total.{ReadsAll, parse_rules_reads}
use opensearch_query_gateway.Dcg.Generator.{
  Compiled, clauses, refused, unanswered, compile, compiled,
}
use opensearch_query_gateway.Rules.Loading.{
  FileError, unreadable, uncompiled, no_answer, unloaded, LoadError, bad_prelude, bad_file, Engine,
  prelude, files_of, timeout_or_default, compiled_text, map_err, program_of, load_file, load_files,
  new,
}

compiled_answers :
    (show : ℕ → String) (P : Parser → Type 0) (o : Outcome (List Rule))
    → Ends P o
    → compiled show o ≢ unanswered
unfolding compiled
compiled_answers show P (Outcome.ok rules p) h k = cc
compiled_answers show P (Outcome.err e) h k = cc
compiled_answers show P out_of_fuel h k = h

-- A grammar compiles to clauses, or it is refused.
compile_answers :
    (unicode : Unicode) (show : ℕ → String) (src : String) → compile show unicode src ≢ unanswered
unfolding compile
compile_answers unicode show src =
    compiled_answers show (ReadsAll unicode (new_parser unicode src)) (parse_rules unicode src)
      (parse_rules_reads unicode src)

-- The files of a configuration: the bootstrap file, if one is named, and then the others.
pub data InOrder (bootstrap : String) (extra : List String) : List String → Type 0 where
  no_bootstrap : bootstrap ≡ "" → InOrder bootstrap extra extra
  bootstrap_first : bootstrap ≢ "" → InOrder bootstrap extra (bootstrap ∷ extra)

files_of-InOrder :
    (bootstrap : String) (extra : List String) → InOrder bootstrap extra (files_of bootstrap extra)
files_of-InOrder bootstrap extra = elim (Bool-cases (is_empty bootstrap)) [
  | inl e ↦ rw e (no_bootstrap ((eq_iff bootstrap "").0 e))
  | inr e ↦ rw e (bootstrap_first (λ h. cc (e, (eq_iff bootstrap "").1 h)))
]

module _ {S : Type 0} (unicode : Unicode) (show : ℕ → String)
    (read_file : String → Fallible String String) (exec : String → S → Fallible String S) where
  -- The program of a file: a grammar is compiled, another file is taken as it is.
  pub data Holds (file src : String) : String → Type 0 where
    plain : has_suffix ".dcg" (codes file) ≡ false → Holds file src src
    grammar :
        (text : String)
        → has_suffix ".dcg" (codes file) ≡ true
        → compile show unicode src ≡ clauses text
        → Holds file src text

  -- The programs of the files were loaded, one after the other.
  pub data Loads : List String → S → S → Type 0 where
    done : (s : S) → Loads [] s s
    next :
        (file src text : String) (files : List String) (s s' s'' : S)
        → read_file file ≡ ok src
        → Holds file src text
        → exec text s ≡ ok s'
        → Loads files s' s''
        → Loads (file ∷ files) s s''

  -- Why a file is not loaded when the interpreter is in the state `s`.
  pub data Fails (file : String) (s : S) : FileError → Type 0 where
    unread : (e : String) → read_file file ≡ err e → Fails file s (unreadable e)
    no_grammar :
        (src : String) (e : ParseError)
        → read_file file ≡ ok src
        → has_suffix ".dcg" (codes file) ≡ true
        → compile show unicode src ≡ refused e
        → Fails file s (uncompiled e)
    no_program :
        (src text e : String)
        → read_file file ≡ ok src
        → Holds file src text
        → exec text s ≡ err e
        → Fails file s (unloaded e)

  -- The files before the bad one are loaded.
  abbrev pub FailsAt : List String → S → String → FileError → Type 0
  FailsAt files s file e =
      (earlier later : List String) × (s' : S) × (files ≡ earlier ++ file ∷ later)
      × Loads earlier s s'
      × Fails file s' e

  -- What `New` returns, by its parts: an engine, or the first error.
  abbrev pub LoadOutcome : S → List String → Fallible LoadError S → Type 0
  LoadOutcome s files (ok s') = Loads files s s'
  LoadOutcome s files (err (bad_prelude e)) = ⊥
  LoadOutcome s files (err (bad_file file e)) = FailsAt files s file e

  abbrev FileOutcome : String → S → Fallible FileError S → Type 0
  FileOutcome file s (ok s') =
      (src text : String) × (read_file file ≡ ok src) × Holds file src text × (exec text s ≡ ok s')
  FileOutcome file s (err e) = Fails file s e

  abbrev ProgramOutcome : String → String → Fallible FileError String → Type 0
  ProgramOutcome file src (ok text) = Holds file src text
  ProgramOutcome file src (err (uncompiled e)) =
      (has_suffix ".dcg" (codes file) ≡ true) × (compile show unicode src ≡ refused e)
  ProgramOutcome file src (err _) = ⊥

  compiled-outcome :
      (file src : String) (c : Compiled)
      → has_suffix ".dcg" (codes file) ≡ true
      → compile show unicode src ≡ c
      → ProgramOutcome file src (compiled_text c)
  compiled-outcome file src (clauses text) h e = grammar text h e
  compiled-outcome file src (refused r) h e = (h, e)
  compiled-outcome file src unanswered h e = absurd (compile_answers unicode show src e)

  program_of-outcome :
      (file src : String) → ProgramOutcome file src (program_of unicode show file src)
  unfolding program_of
  program_of-outcome file src = elim (Bool-cases (has_suffix ".dcg" (codes file))) [
    | inl h ↦ rw h (compiled-outcome file src (compile show unicode src) h refl)
    | inr h ↦ rw h (plain h)
  ]

  exec-outcome :
      (file src text : String) (s : S) (r : Fallible String S)
      → read_file file ≡ ok src
      → Holds file src text
      → exec text s ≡ r
      → FileOutcome file s (map_err unloaded r)
  exec-outcome file src text s (ok s') h k e = (src, text, h, k, e)
  exec-outcome file src text s (err reason) h k e = no_program src text reason h k e

  text-outcome :
      (file src : String) (s : S) (p : Fallible FileError String)
      → read_file file ≡ ok src
      → ProgramOutcome file src p
      → FileOutcome file s (p >>= λ text. map_err unloaded (exec text s))
  text-outcome file src s (ok text) h k = exec-outcome file src text s (exec text s) h k refl
  text-outcome file src s (err (uncompiled e)) h k = no_grammar src e h k.0 k.1
  text-outcome file src s (err (unreadable e)) h k = absurd k
  text-outcome file src s (err no_answer) h k = absurd k
  text-outcome file src s (err (unloaded e)) h k = absurd k

  read-outcome :
      (file : String) (s : S) (r : Fallible String String)
      → read_file file ≡ r
      → FileOutcome file s (
          map_err unreadable r >>= λ src.
          program_of unicode show file src >>= λ text. map_err unloaded (exec text s))
  read-outcome file s (err e) h = unread e h
  read-outcome file s (ok src) h =
      text-outcome file src s (program_of unicode show file src) h (program_of-outcome file src)

  load_file-outcome :
      (file : String) (s : S) → FileOutcome file s (load_file unicode show read_file exec file s)
  unfolding load_file
  load_file-outcome file s = read-outcome file s (read_file file) refl

  -- The first file is loaded, and then the others.
  after-outcome :
      (file : String) (files : List String) (s s' : S) (r : Fallible LoadError S)
      → FileOutcome file s (ok s')
      → LoadOutcome s' files r
      → LoadOutcome s (file ∷ files) r
  after-outcome file files s s' (ok s'') (src, text, h, k, e) l =
      next file src text files s s' s'' h k e l
  after-outcome file files s s' (err (bad_prelude e)) o l = absurd l
  after-outcome file files s s' (err (bad_file bad e)) (src, text, h, k, x)
        (earlier, later, s'', p, l, f) =
      (file ∷ earlier, later, s'', (rw p refl), next file src text earlier s s' s'' h k x l, f)

  first-outcome :
      (file : String) (files : List String) (s : S) (r : Fallible FileError S)
      → FileOutcome file s r
      → ((s' : S) → LoadOutcome s' files (load_files unicode show read_file exec files s'))
      → LoadOutcome s
          (file ∷ files)
          (map_err (bad_file file) r >>= λ s'. load_files unicode show read_file exec files s')
  first-outcome file files s (err e) o later = ([], files, s, refl, done s, o)
  first-outcome file files s (ok s') o later =
      after-outcome file files s s' (load_files unicode show read_file exec files s') o (later s')

  load_files-outcome :
      (files : List String) (s : S)
      → LoadOutcome s files (load_files unicode show read_file exec files s)
  unfolding load_files
  load_files-outcome [] s = done s
  load_files-outcome (file ∷ files) s =
      first-outcome file files s (load_file unicode show read_file exec file s)
        (load_file-outcome file s) (load_files-outcome files)

  -- The outcome of `New` for the blank interpreter and the files.
  abbrev pub NewOutcome : S → List String → Fallible LoadError (Engine S) → Type 0
  NewOutcome blank files (ok e) =
      (s : S) × (exec prelude blank ≡ ok s)
      × Loads files s e.interp
      × (ltb_ℤ (pos 0) e.timeout ≡ true)
  NewOutcome blank files (err (bad_prelude e)) = exec prelude blank ≡ err e
  NewOutcome blank files (err (bad_file file e)) =
      (s : S) × (exec prelude blank ≡ ok s) × FailsAt files s file e

  timeout-positive : (timeout : ℤ) → ltb_ℤ (pos 0) (timeout_or_default timeout) ≡ true
  timeout-positive (pos n) = ground arith
  timeout-positive (negsuc n) = ground arith

  engine-outcome :
      (blank s : S) (files : List String) (timeout : ℤ) (r : Fallible LoadError S)
      → exec prelude blank ≡ ok s
      → LoadOutcome s files r
      → NewOutcome blank files
          (r >>= λ s'. ok (record { interp = s'; timeout = timeout_or_default timeout }))
  engine-outcome blank s files timeout (ok s') h l = (s, h, l, timeout-positive timeout)
  engine-outcome blank s files timeout (err (bad_prelude e)) h l = absurd l
  engine-outcome blank s files timeout (err (bad_file file e)) h l = (s, h, l)

  prelude-outcome :
      (blank : S) (files : List String) (timeout : ℤ) (r : Fallible String S)
      → exec prelude blank ≡ r
      → NewOutcome blank files (
          map_err bad_prelude r >>= λ s. load_files unicode show read_file exec files s >>= λ s'.
          ok (record { interp = s'; timeout = timeout_or_default timeout }))
  prelude-outcome blank files timeout (err e) h = h
  prelude-outcome blank files timeout (ok s) h =
      engine-outcome blank s files timeout (load_files unicode show read_file exec files s) h
        (load_files-outcome files s)

  -- New returns an engine with a timeout above zero, whose interpreter has loaded the prelude and
  -- then the programs of all files in their order: first the bootstrap file, unless its name is
  -- empty, and then the schema files. The program of a `.dcg` file is what its grammar compiles to.
  -- Or it returns the error of the prelude. Or it returns, with a file's name, the error of reading,
  -- of compiling or of loading that file, all files before it being loaded behind the prelude.
  pub new-outcome :
      (blank : S) (bootstrap : String) (timeout : ℤ) (extra : List String)
      → (files : List String) × InOrder bootstrap extra files
        × NewOutcome blank files (new unicode show read_file exec blank bootstrap timeout extra)
  unfolding new
  new-outcome blank bootstrap timeout extra = (
    files_of bootstrap extra,
    files_of-InOrder bootstrap extra,
    prelude-outcome blank (files_of bootstrap extra) timeout (exec prelude blank) refl,
  )
