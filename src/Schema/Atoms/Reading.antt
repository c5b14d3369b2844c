-- ===== src/Schema/Atoms/Reading.antt =====
-- How a Prolog reader takes an atom off the front of a text, and that it takes back what `atom`
-- wrote. In quotes, `\` makes the next quote or backslash an ordinary character, and two quotes
-- stand for one; other escapes are refused, since `atom` writes none.
use Prim.Native.Char.{Char, code}
use opensearch_query_gateway.Shared.{
  ℕ, String, Bool, true, false, ◌||◌, ◌&&◌, Option, none, some, List, [], ◌∷◌, ◌++◌, ◌≡◌, ◌≢◌, refl,
  if◌then◌else◌, ◌==◌, all, codes, ◌<>◌, is_empty, Bool-cases, inl, inr, arith, append_assoc,
  eq_iff,
}
use text.Mathlib.TextLemmas.{nil-append, cons-append}
use opensearch_query_gateway.Schema.Atoms.{
  is_lower, is_name_char, is_bare, replace_all, escape, atom,
}

-- Inside of quotes, behind a backslash, or behind a quote that may close the atom.
data State : Type 0 where
  inside : State
  escaped : State
  closing : State

-- What was read, and what is left.
abbrev pub Read : Type 0
Read = Option (List ℕ × List ℕ)

abbrev add : ℕ → Read → Read
add c none = none
add c (some (cs, rest)) = some (c ∷ cs, rest)

read_quoted : State → List ℕ → Read
read_quoted inside [] = none
read_quoted escaped [] = none
read_quoted closing [] = some ([], [])
read_quoted inside (c ∷ cs) =
    let quote = read_quoted closing cs in
    let escape = read_quoted escaped cs in
    let other = read_quoted inside cs in
    if c == b'\'' then quote else if c == b'\\' then escape else add c other
read_quoted escaped (c ∷ cs) =
    let other = read_quoted inside cs in if c == b'\'' || c == b'\\' then add c other else none
read_quoted closing (c ∷ cs) =
    let other = read_quoted inside cs in if c == b'\'' then add c other else some ([], c ∷ cs)

read_name : List ℕ → List ℕ × List ℕ
read_name [] = ([], [])
read_name (c ∷ cs) =
    let (name, rest) = read_name cs in if is_name_char c then (c ∷ name, rest) else ([], c ∷ cs)

pub read_atom : List ℕ → Read
unfolding read_quoted read_name
read_atom [] = none
read_atom (c ∷ cs) =
    if c == b'\''
    then read_quoted inside cs
    else if is_lower c
    then some (read_name (c ∷ cs))
    else none

-- An atom ends before the text.
abbrev pub Ends : List ℕ → Type 0
Ends [] = Unit
Ends (c ∷ cs) = (is_name_char c ≡ false) × ((c == b'\'') ≡ false)

both : (a b : Bool) → (a && b) ≡ true → (a ≡ true) × (b ≡ true)
both true b h = (refl, h)
both false b h = cc

read_name-append :
    (cs rest : List ℕ)
    → all is_name_char cs ≡ true
    → Ends rest
    → read_name (cs ++ rest) ≡ (cs, rest)
unfolding read_name
read_name-append [] [] h e = refl
read_name-append [] (c ∷ rest) h e = rw e.0
read_name-append (c ∷ cs) rest h e =
    let (named, others) = both (is_name_char c) (all is_name_char cs) h in
    rw (read_name-append cs rest others e, named)

pub codes-append : (a b : String) → codes (a <> b) ≡ codes a ++ codes b
codes-append String.[] b = rw (nil-append b)
codes-append (String.◌∷◌ c a) b = rw (cons-append c a b, codes-append a b)

-- One step of each replacement.
replace_all-eq :
    (old : ℕ) (new : String) (c : Char) (s : String)
    → (code c == old) ≡ true
    → replace_all old new (String.◌∷◌ c s) ≡ new <> replace_all old new s
unfolding replace_all
replace_all-eq old new c s h = rw h

replace_all-ne :
    (old : ℕ) (new : String) (c : Char) (s : String)
    → (code c == old) ≡ false
    → replace_all old new (String.◌∷◌ c s) ≡ String.◌∷◌ c (replace_all old new s)
unfolding replace_all
replace_all-ne old new c s h = rw h

two-append :
    (c d : Char) (s : String)
    → (String.◌∷◌ c (String.◌∷◌ d "")) <> s ≡ String.◌∷◌ c (String.◌∷◌ d s)
two-append c d s = rw (cons-append c (String.◌∷◌ d "") s, cons-append d "" s, nil-append s)

read_closed : (rest : List ℕ) → Ends rest → read_quoted closing rest ≡ some ([], rest)
unfolding read_quoted
read_closed [] e = refl
read_closed (c ∷ rest) e = rw e.1

-- What the reader makes of each character that `escape` writes.
read_plain :
    (c : ℕ) (cs : List ℕ)
    → (c == b'\'') ≡ false
    → (c == b'\\') ≡ false
    → read_quoted inside (c ∷ cs) ≡ add c (read_quoted inside cs)
unfolding read_quoted
read_plain c cs h k = rw (h, k)

read_quoted-escape :
    (s : String) (rest : List ℕ)
    → Ends rest
    → read_quoted inside (codes (escape s) ++ b'\'' ∷ rest) ≡ some (codes s, rest)
unfolding escape read_quoted replace_all
read_quoted-escape String.[] rest e = rw (read_closed rest e)
read_quoted-escape (String.◌∷◌ c s) rest e = elim (Bool-cases (code c == b'\\')) [
  | inl h ↦
      rw (replace_all-eq b'\\' "\\\\" c s h, two-append "\\" "\\" (replace_all b'\\' "\\\\" s))
        (let same : code c ≡ b'\\' = ground arith in rw (read_quoted-escape s rest e, same))
  | inr h ↦ elim (Bool-cases (code c == b'\'')) [
    | inl k ↦
        rw
          (
            replace_all-ne b'\\' "\\\\" c s h,
            replace_all-eq b'\'' "\\'" c (replace_all b'\\' "\\\\" s) k,
            two-append "\\" "'" (escape s),
          )
          (let same : code c ≡ b'\'' = ground arith in rw (read_quoted-escape s rest e, same))
    | inr k ↦ rw (
      replace_all-ne b'\\' "\\\\" c s h,
      replace_all-ne b'\'' "\\'" c (replace_all b'\\' "\\\\" s) k,
      k,
      h,
      read_quoted-escape s rest e,
    )
  ]
]

is_bare-cons :
    (c : ℕ) (cs : List ℕ)
    → is_bare (c ∷ cs) ≡ true
    → (is_lower c ≡ true) × (all is_name_char cs ≡ true)
unfolding is_bare
is_bare-cons c cs h = both (is_lower c) (all is_name_char cs) h

not_empty : (c : Char) (s : String) → is_empty (String.◌∷◌ c s) ≡ false
not_empty c s = elim (Bool-cases (is_empty (String.◌∷◌ c s))) [
  | inl h ↦ absurd (cons-ne ((eq_iff (String.◌∷◌ c s) "").0 h))
  | inr h ↦ h
]
  where
    cons-ne : String.◌∷◌ c s ≢ ""
    cons-ne h = cc

read_atom-bare :
    (c : ℕ) (cs rest : List ℕ)
    → is_bare (c ∷ cs) ≡ true
    → Ends rest
    → read_atom (c ∷ cs ++ rest) ≡ some (c ∷ cs, rest)
unfolding read_atom
read_atom-bare c cs rest h e =
    let (lower, others) = is_bare-cons c cs h in
    let plain : (c == b'\'') ≡ false = ground arith in
    rw (plain, lower, read_name-append cs rest others e)

pub quoted :
    (s : String) (rest : List ℕ)
    → Ends rest
    → read_atom (codes ("'" <> escape s <> "'") ++ rest) ≡ some (codes s, rest)
unfolding read_atom
quoted s rest e =
    rw
      (
        codes-append "'" (escape s <> "'"),
        codes-append (escape s) "'",
        append_assoc (codes (escape s)) (b'\'' ∷ []) rest,
      )
      (read_quoted-escape s rest e)

-- Behind the text that `atom` writes for a name stands the rest of the clause. If that rest does
-- not begin with a letter, a digit, `_` or a quote, a Prolog reader takes exactly the name and
-- leaves exactly the rest, whatever characters the name is made of.
pub read_atom-atom :
    (s : String) (rest : List ℕ)
    → Ends rest
    → read_atom (codes (atom s) ++ rest) ≡ some (codes s, rest)
unfolding read_atom atom
read_atom-atom String.[] rest e = read_closed rest e
read_atom-atom (String.◌∷◌ c s) rest e = elim (Bool-cases (is_bare (codes (String.◌∷◌ c s)))) [
  | inl h ↦ rw (not_empty c s, h) (read_atom-bare (code c) (codes s) rest h e)
  | inr h ↦ rw (not_empty c s, h) (quoted (String.◌∷◌ c s) rest e)
]
