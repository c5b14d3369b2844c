-- ===== src/Query/Duration.antt =====
-- Which clauses `Duration` accepts as a relative time window.
use opensearch_query_gateway.Shared.{
  ℕ, ◌≤◌, String, true, Option, none, some, List, [], ◌∷◌, ◌++◌, ◌≡◌, ◌≢◌, refl, ◌↔◌, ◌⊎◌, inl, inr,
  ap, arith, All, codes,
}
use opensearch_query_gateway.Query.{
  Operand, Fuzzy, Clause, word, is_unit, is_end, duration_tail, duration_re, duration_of, duration,
}

abbrev pub IsDigit : ℕ → Type 0
IsDigit c = (b'0' ≤ c) × (c ≤ b'9')

-- The units of OpenSearch date math: y, M, w, d, h, H, m, s.
abbrev pub IsUnit : ℕ → Type 0
IsUnit c =
    (c ≡ b'y')
    ⊎ (c ≡ b'M')
    ⊎ (c ≡ b'w')
    ⊎ (c ≡ b'd')
    ⊎ (c ≡ b'h')
    ⊎ (c ≡ b'H')
    ⊎ (c ≡ b'm')
    ⊎ (c ≡ b's')

-- One or more digits and a unit.
pub record IsDuration (cs : List ℕ) : Type 0 where
  pub digits : List ℕ
  pub unit : ℕ
  pub splits : cs ≡ digits ++ unit ∷ []
  pub nonempty : digits ≢ []
  pub are_digits : All IsDigit digits
  pub is_unit : IsUnit unit

record IsTail (cs : List ℕ) : Type 0 where
  digits : List ℕ
  unit : ℕ
  splits : cs ≡ digits ++ unit ∷ []
  are_digits : All IsDigit digits
  is_unit : IsUnit unit

IsUnit_of : (c : ℕ) → is_unit c ≡ true → IsUnit c
IsUnit_of c h = ground arith

of_IsUnit : (c : ℕ) → IsUnit c → is_unit c ≡ true
of_IsUnit c h = ground arith

IsTail-cons : (c : ℕ) (cs : List ℕ) → IsDigit c → IsTail cs → IsTail (c ∷ cs)
IsTail-cons c cs d t = record {
  digits = c ∷ t.digits;
  unit = t.unit;
  splits = ap (◌∷◌ c) t.splits;
  are_digits = (d, t.are_digits);
  is_unit = t.is_unit;
}

IsDuration-cons : (c : ℕ) (cs : List ℕ) → IsDigit c → IsTail cs → IsDuration (c ∷ cs)
IsDuration-cons c cs d t = record {
  digits = c ∷ t.digits;
  unit = t.unit;
  splits = ap (◌∷◌ c) t.splits;
  nonempty = cc;
  are_digits = (d, t.are_digits);
  is_unit = t.is_unit;
}

-- One character of the tail: the unit at the end, or a digit before the rest.
tail_cases :
    (c : ℕ) (cs : List ℕ)
    → duration_tail (c ∷ cs) ≡ true
    → (IsUnit c × (cs ≡ [])) ⊎ (IsDigit c × (duration_tail cs ≡ true))
unfolding duration_tail is_end
tail_cases c [] h = inl (IsUnit_of c (ground arith), refl)
tail_cases c (d ∷ cs) h = inr ((ground arith, ground arith), ground arith)

duration_tail-IsTail : (cs : List ℕ) → duration_tail cs ≡ true → IsTail cs
unfolding duration_tail
duration_tail-IsTail [] h = cc
duration_tail-IsTail (c ∷ cs) h = elim (tail_cases c cs h) [
  | inl (u, e) ↦ record {
    digits = [];
    unit = c;
    splits = ap (◌∷◌ c) e;
    are_digits = tt;
    is_unit = u;
  }
  | inr (d, more) ↦ IsTail-cons c cs d (duration_tail-IsTail cs more)
]

tail_complete :
    (ds : List ℕ) (u : ℕ) → All IsDigit ds → IsUnit u → duration_tail (ds ++ u ∷ []) ≡ true
unfolding duration_tail is_end
tail_complete [] u h k = ground (arith, of_IsUnit u k)
tail_complete (d ∷ ds) u h k = ground (arith, tail_complete ds u h.1 k)

IsDigit-first :
    (c : ℕ) (cs : List ℕ) → duration_re (c ∷ cs) ≡ true → IsDigit c × (duration_tail cs ≡ true)
unfolding duration_re
IsDigit-first c cs h = ((ground arith, ground arith), ground arith)

re_sound : (cs : List ℕ) → duration_re cs ≡ true → IsDuration cs
unfolding duration_re
re_sound [] h = cc
re_sound (c ∷ cs) h =
    let p = IsDigit-first c cs h in IsDuration-cons c cs p.0 (duration_tail-IsTail cs p.1)

re_complete : (cs : List ℕ) → IsDuration cs → duration_re cs ≡ true
unfolding duration_re
re_complete cs d = rw d.splits (from d.digits d.nonempty d.are_digits)
  where
    from : (ds : List ℕ) → ds ≢ [] → All IsDigit ds → duration_re (ds ++ d.unit ∷ []) ≡ true
    from [] ne h = absurd (ne refl)
    from (x ∷ ds) ne h = ground (arith, tail_complete ds d.unit h.1 d.is_unit)

-- What a relative clause must be: a bare word with no `~`, that is a duration.
pub record IsWindow (c : Clause) : Type 0 where
  pub text : String
  pub operand : c.value.operand ≡ word text
  pub fuzzy : c.value.fuzzy ≡ none
  pub form : IsDuration (codes text)

of_parts :
    (o : Operand) (f : Option Fuzzy)
    → (duration_of o f).1 ≡ true
    → (d : String) × (o ≡ word d) × (f ≡ none) × (duration_re (codes d) ≡ true)
unfolding duration_of
of_parts (word d) none h = (d, refl, refl, h)
of_parts (word d) (some f) h = cc
of_parts _ f h = cc

-- `Duration` accepts a clause exactly when its value is a word without `~` that consists of one or
-- more digits and one of the units y, M, w, d, h, H, m, s, and it returns that word.
pub duration_iff :
    (c : Clause)
    → (((duration c).1 ≡ true) ↔ IsWindow c) × ((w : IsWindow c) → (duration c).0 ≡ w.text)
unfolding duration_of
duration_iff c = ((to, from), text)
  where
    to : (duration c).1 ≡ true → IsWindow c
    to h =
        let (d, o, f, r) = of_parts c.value.operand c.value.fuzzy h in
        record { text = d; operand = o; fuzzy = f; form = re_sound (codes d) r }

    from : IsWindow c → (duration c).1 ≡ true
    from w = rw (w.operand, w.fuzzy) (re_complete (codes w.text) w.form)

    text : (w : IsWindow c) → (duration c).0 ≡ w.text
    text w = rw (w.operand, w.fuzzy)
