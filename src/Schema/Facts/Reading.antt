-- ===== src/Schema/Facts/Reading.antt =====
-- A Prolog reader takes back the facts of a schema.
use opensearch_query_gateway.Shared.{
  ℕ, zero, suc, String, true, Option, none, some, List, [], ◌∷◌, ◌++◌, ◌≡◌, refl, ap, ◌∙◌,
  if◌then◌else◌, ◌==◌, ◌<>◌, codes, join, map, length, append_assoc, arith,
}
use opensearch_query_gateway.Schema.Atoms.{atom}
use opensearch_query_gateway.Schema.Atoms.Reading.{read_atom, read_atom-atom, codes-append}
use opensearch_query_gateway.Schema.Facts.{fact}

-- Takes a text off the front.
skip : List ℕ → List ℕ → Option (List ℕ)
skip [] cs = some cs
skip (w ∷ ws) [] = none
skip (w ∷ ws) (c ∷ cs) = let rest = skip ws cs in if c == w then rest else none

-- What was read of a fact, and what is left.
abbrev pub ReadArgs : Type 0
ReadArgs = Option (List (List ℕ) × List ℕ)

abbrev add_arg : List ℕ → ReadArgs → ReadArgs
add_arg a none = none
add_arg a (some (args, rest)) = some (a ∷ args, rest)

abbrev end_fact : Option (List ℕ) → ReadArgs
end_fact none = none
end_fact (some rest) = some ([], rest)

-- What comes next, if the step before it succeeded.
and_then : {A B : Type 0} → Option A → (A → Option B) → Option B
and_then none next = none
and_then (some a) next = next a

-- An atom, `n` further ones, each behind `, `, and then `).`.
read_args : ℕ → List ℕ → ReadArgs
unfolding skip and_then
read_args zero cs =
    and_then (read_atom cs) λ first. add_arg first.0 (end_fact (skip (codes ").") first.1))
read_args (suc n) cs =
    and_then (read_atom cs)
      λ first. and_then (skip (codes ", ") first.1) λ more. add_arg first.0 (read_args n more)

-- A fact of one predicate with `n + 1` atoms for arguments.
pub read_fact : String → ℕ → List ℕ → ReadArgs
read_fact name n cs =
    and_then (skip (codes name) cs)
      λ behind. and_then (skip (codes "(") behind) λ args. read_args n args

eq_self : (c : ℕ) → (c == c) ≡ true
eq_self c = ground arith

skip-append : (w cs : List ℕ) → skip w (w ++ cs) ≡ some cs
unfolding skip
skip-append [] cs = refl
skip-append (c ∷ w) cs = rw (eq_self c, skip-append w cs)

read_args-zero :
    (cs a rest r : List ℕ)
    → read_atom cs ≡ some (a, rest)
    → skip (codes ").") rest ≡ some r
    → read_args zero cs ≡ some (a ∷ [], r)
unfolding read_args and_then
read_args-zero cs a rest r h k = rw (h, k)

read_args-suc :
    (n : ℕ) (cs a rest more r : List ℕ) (args : List (List ℕ))
    → read_atom cs ≡ some (a, rest)
    → skip (codes ", ") rest ≡ some more
    → read_args n more ≡ some (args, r)
    → read_args (suc n) cs ≡ some (a ∷ args, r)
unfolding read_args and_then
read_args-suc n cs a rest more r args h k g = rw (h, k, g)

join-cons :
    (x y : String) (ys : List String) (t : List ℕ)
    → codes (join ", " (x ∷ y ∷ ys)) ++ t
      ≡ codes x ++ (codes ", " ++ (codes (join ", " (y ∷ ys)) ++ t))
unfolding join
join-cons x y ys t =
    let later = join ", " (y ∷ ys) in
    ap (λ cs. cs ++ t)
      (codes-append x (", " <> later) ∙ ap (λ cs. codes x ++ cs) (codes-append ", " later))
    ∙ append_assoc (codes x) (codes ", " ++ codes later) t

read_args-join :
    (a : String) (bs : List String) (rest : List ℕ)
    → read_args (length bs) (codes (join ", " (map atom (a ∷ bs))) ++ (codes ")." ++ rest))
      ≡ some (codes a ∷ map codes bs, rest)
unfolding join
read_args-join a [] rest =
    read_args-zero (codes (atom a) ++ (codes ")." ++ rest)) (codes a) (codes ")." ++ rest) rest
      (read_atom-atom a (codes ")." ++ rest) (refl, refl)) (skip-append (codes ").") rest)
read_args-join a (b ∷ bs) rest =
    let more = codes (join ", " (map atom (b ∷ bs))) ++ (codes ")." ++ rest) in
    ap (read_args (length (b ∷ bs)))
      (join-cons (atom a) (atom b) (map atom bs) (codes ")." ++ rest))
    ∙ read_args-suc (length bs) (codes (atom a) ++ (codes ", " ++ more)) (codes a)
        (codes ", " ++ more) more rest (map codes (b ∷ bs))
        (read_atom-atom a (codes ", " ++ more) (refl, refl)) (skip-append (codes ", ") more)
        (read_args-join b bs rest)

fact-codes :
    (name : String) (args : List String) (rest : List ℕ)
    → codes (fact name args) ++ rest
      ≡ codes name ++ (codes "(" ++ (codes (join ", " args) ++ (codes ")." ++ rest)))
unfolding fact
fact-codes name args rest =
    let later = join ", " args in
    ap (λ cs. cs ++ rest)
      (codes-append name ("(" <> later <> ").")
        ∙ ap (λ cs. codes name ++ cs)
            (codes-append "(" (later <> ").")
              ∙ ap (λ cs. codes "(" ++ cs) (codes-append later ").")))
    ∙ append_assoc (codes name) (codes "(" ++ (codes later ++ codes ").")) rest
    ∙ ap (λ cs. codes name ++ (codes "(" ++ cs)) (append_assoc (codes later) (codes ").") rest)

read_fact-steps :
    (name : String) (n : ℕ) (cs first args : List ℕ) (r : ReadArgs)
    → skip (codes name) cs ≡ some first
    → skip (codes "(") first ≡ some args
    → read_args n args ≡ r
    → read_fact name n cs ≡ r
unfolding read_fact and_then
read_fact-steps name n cs first args r h k g = rw (h, k) g

-- A fact of the written schema whose arguments are texts is taken back by a Prolog reader: the same
-- predicate, as many arguments as were written, and each of them the text that was written,
-- a line break in quotes being taken as it is; what stands behind the fact is left.
pub read_fact-fact :
    (name a : String) (bs : List String) (rest : List ℕ)
    → read_fact name (length bs) (codes (fact name (map atom (a ∷ bs))) ++ rest)
      ≡ some (codes a ∷ map codes bs, rest)
read_fact-fact name a bs rest =
    let args = codes (join ", " (map atom (a ∷ bs))) ++ (codes ")." ++ rest) in
    ap (read_fact name (length bs)) (fact-codes name (map atom (a ∷ bs)) rest)
    ∙ read_fact-steps name (length bs) (codes name ++ (codes "(" ++ args)) (codes "(" ++ args) args
        _ (skip-append (codes name) (codes "(" ++ args)) (skip-append (codes "(") args)
        (read_args-join a bs rest)
