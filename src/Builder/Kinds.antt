-- ===== src/Builder/Kinds.antt =====
-- Which kind of query, on which field and with which boost, is built for a clause.
use mathlib.Core.List.{Memᴰ}
use opensearch_query_gateway.Shared.{
  ℕ, String, true, false, Option, none, some, List, [], ◌∷◌, ◌≡◌, ◌⊎◌, inl, inr, ◌==◌, codes, arith,
  Bool-cases, Option-cases,
}
use opensearch_query_gateway.Query.{
  Clause, Operand, Boost, Fuzzy, Range, Compare, range, compare, phrase, word, is_relative_time,
}
use opensearch_query_gateway.Dsl.{Floats, boost_factor, contains_wildcard, has_code}
use opensearch_query_gateway.Builder.Clauses.{
  word_kind, operand_kind, kind, target, HasShape, build_clause-HasShape,
}
use opensearch_query_gateway.Builder.{Builder, build_clause}

-- `*` or `?` is among the characters of the word.
abbrev pub Wild : String → Type 0
Wild w = Memᴰ b'*' (codes w) ⊎ Memᴰ b'?' (codes w)

-- The kind of query for an operand, with `~` behind it or without.
pub data KindOf : Operand → Option Fuzzy → String → Type 0 where
  of_range : (r : Range) (f : Option Fuzzy) → KindOf (range r) f "range"
  of_comparison : (c : Compare) (f : Option Fuzzy) → KindOf (compare c) f "range"
  of_phrase : (s : String) (f : Option Fuzzy) → KindOf (phrase s) f "match_phrase"
  of_wildcard : (w : String) (f : Option Fuzzy) → Wild w → KindOf (word w) f "wildcard"
  of_fuzzy : (w : String) (f : Fuzzy) → (¬ Wild w) → KindOf (word w) (some f) "fuzzy"
  of_word : (w : String) → (¬ Wild w) → KindOf (word w) none "match"

-- A relative clause asks for a range over the time field, any other for its own kind and field.
pub data Asks (b : Builder) (c : Clause) : String → String → Type 0 where
  relative : is_relative_time c ≡ true → Asks b c "range" b.time_field
  own :
      (k : String)
      → is_relative_time c ≡ false
      → KindOf c.value.operand c.value.fuzzy k
      → Asks b c k c.field

-- The boost of a clause: none where it has none, the number of its factor, or else 1.
pub data Boosted {F : Type 0} (fp : Floats F) : Option Boost → Option F → Type 0 where
  unboosted : Boosted fp none none
  by_factor :
      (boost : Boost) (x : F)
      → fp.parse_float boost.factor ≡ some x
      → Boosted fp (some boost) (some x)
  by_one :
      (boost : Boost) → fp.parse_float boost.factor ≡ none → Boosted fp (some boost) (some fp.one)

has_code-Memᴰ : (c : ℕ) (cs : List ℕ) → has_code c cs ≡ true → Memᴰ c cs
has_code-Memᴰ c [] h = cc
has_code-Memᴰ c (d ∷ ds) h = elim (Bool-cases (d == c)) [
  | inl e ↦ let same : c ≡ d = ground arith in Memᴰ.head same
  | inr e ↦ Memᴰ.tail (has_code-Memᴰ c ds (ground arith))
]

Memᴰ-has_code : (c : ℕ) (cs : List ℕ) → Memᴰ c cs → has_code c cs ≡ true
Memᴰ-has_code c [] m = elim m [ ]
Memᴰ-has_code c (d ∷ ds) (Memᴰ.head e) = ground arith
Memᴰ-has_code c (d ∷ ds) (Memᴰ.tail m) = let later = Memᴰ-has_code c ds m in ground arith

contains_wildcard-Wild : (w : String) → contains_wildcard w ≡ true → Wild w
unfolding contains_wildcard
contains_wildcard-Wild w h = elim (Bool-cases (has_code b'*' (codes w))) [
  | inl e ↦ inl (has_code-Memᴰ b'*' (codes w) e)
  | inr e ↦ inr (has_code-Memᴰ b'?' (codes w) (ground arith))
]

Wild-contains_wildcard : (w : String) → Wild w → contains_wildcard w ≡ true
unfolding contains_wildcard
Wild-contains_wildcard w (inl m) = let star = Memᴰ-has_code b'*' (codes w) m in ground arith
Wild-contains_wildcard w (inr m) = let mark = Memᴰ-has_code b'?' (codes w) m in ground arith

word_kind-KindOf : (w : String) (f : Option Fuzzy) → KindOf (word w) f (word_kind w f)
word_kind-KindOf w none = elim (Bool-cases (contains_wildcard w)) [
  | inl e ↦ rw e (of_wildcard w none (contains_wildcard-Wild w e))
  | inr e ↦ rw e (of_word w (λ h. cc (e, Wild-contains_wildcard w h)))
]
word_kind-KindOf w (some f) = elim (Bool-cases (contains_wildcard w)) [
  | inl e ↦ rw e (of_wildcard w (some f) (contains_wildcard-Wild w e))
  | inr e ↦ rw e (of_fuzzy w f (λ h. cc (e, Wild-contains_wildcard w h)))
]

operand_kind-KindOf : (o : Operand) (f : Option Fuzzy) → KindOf o f (operand_kind o f)
operand_kind-KindOf (range r) f = of_range r f
operand_kind-KindOf (compare c) f = of_comparison c f
operand_kind-KindOf (phrase s) f = of_phrase s f
operand_kind-KindOf (word w) f = word_kind-KindOf w f

module _ {F : Type 0} (fp : Floats F) (b : Builder) where
  boost_factor-Boosted : (boost : Option Boost) → Boosted fp boost (boost_factor fp boost)
  unfolding boost_factor
  boost_factor-Boosted none = unboosted
  boost_factor-Boosted (some boost) = elim (Option-cases (fp.parse_float boost.factor)) [
    | inl e ↦ rw e (by_one boost e)
    | inr (x, e) ↦ rw e (by_factor boost x e)
  ]

  kind-Asks : (c : Clause) → Asks b c (kind c) (target b c)
  kind-Asks c = elim (Bool-cases (is_relative_time c)) [
    | inl e ↦ rw e (relative e)
    | inr e ↦ rw e (own _ e (operand_kind-KindOf c.value.operand c.value.fuzzy))
  ]

  -- The query of a clause has one kind and searches one field. A relative clause is a `range` over
  -- the time field, whatever its value; of the others a range or comparison is a `range`, a phrase
  -- a `match_phrase`, and a word a `wildcard` if it holds `*` or `?`, else a `fuzzy` with `~` and a
  -- `match` without, over the clause's field. It has a boost exactly if the clause has one: the
  -- number that the clause's factor is parsed as, or 1 if it is none.
  pub build_clause_shape :
      (c : Clause)
      → (k f : String) × (boost : Option F) × Asks b c k f
        × Boosted fp c.value.boost boost
        × HasShape k f boost (build_clause fp b c)
  build_clause_shape c = (
    kind c,
    target b c,
    boost_factor fp c.value.boost,
    kind-Asks c,
    boost_factor-Boosted c.value.boost,
    build_clause-HasShape fp b c,
  )
