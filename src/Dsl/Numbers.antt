-- ===== src/Dsl/Numbers.antt =====
-- The number in a modifier `~N`.
use native.Mathlib.Nat.{pow-suc}
use Prim.Native.Char.{code}
use opensearch_query_gateway.Shared.{
  ℕ, ◌+◌, ◌*◌, ◌-◌, ◌^◌, ◌<◌, String, true, false, some, List, [], ◌∷◌, ◌≡◌, ◌≢◌, refl, ◌∙◌, ap,
  arith, All, length, codes, within, is_empty, ◌==◌, eq_iff,
}
use opensearch_query_gateway.Shared.Int.{ℤ, pos, int_limit}
use opensearch_query_gateway.Json.{int, str}
use opensearch_query_gateway.Query.Duration.{IsDigit}
use opensearch_query_gateway.Dsl.{
  digits_from, unsigned, in_range, atoi_codes, slop_value, fuzziness_value,
}

-- The value of a decimal numeral, its first digit weighed by its place.
abbrev pub decimal : List ℕ → ℕ
decimal [] = 0
decimal (c ∷ cs) = (c - b'0') * 10 ^ length cs + decimal cs

within_digit : (c : ℕ) → IsDigit c → within b'0' b'9' c ≡ true
within_digit c h = ground arith

digits_from_lem :
    (cs : List ℕ) (n : ℕ)
    → All IsDigit cs
    → digits_from n cs ≡ some (n * 10 ^ length cs + decimal cs)
unfolding digits_from
digits_from_lem [] n h = ap some (omega arith)
digits_from_lem (c ∷ cs) n h =
    rw (within_digit c h.0, digits_from_lem cs (10 * n + (c - b'0')) h.1, pow-suc)
      (ap some (omega arith))

digits_from_zero : (cs : List ℕ) → All IsDigit cs → digits_from 0 cs ≡ some (decimal cs)
digits_from_zero cs h = digits_from_lem cs 0 h ∙ ap some (omega arith)

not_empty : (s : String) → s ≢ "" → is_empty s ≡ false
not_empty s ne = ground (arith, eq_iff s "")

in_range-pos : (n : ℕ) → n < int_limit → in_range false (some n) ≡ some (pos n)
unfolding in_range
in_range-pos n h = ground arith

atoi_codes_lem :
    (c : ℕ) (cs : List ℕ)
    → All IsDigit (c ∷ cs)
    → decimal (c ∷ cs) < int_limit
    → atoi_codes (c ∷ cs) ≡ some (pos (decimal (c ∷ cs)))
unfolding atoi_codes unsigned
atoi_codes_lem c cs h small =
    rw
      (
        no_sign c b'-' h.0 (omega arith),
        no_sign c b'+' h.0 (omega arith),
        digits_from_zero (c ∷ cs) h,
      )
      (in_range-pos (decimal (c ∷ cs)) small)
  where
    no_sign : (c s : ℕ) → IsDigit c → s < b'0' → (c == s) ≡ false
    no_sign c s d k = ground arith

-- A modifier `~N` whose text is a decimal numeral below 2^63 becomes the number N: the slop of a
-- phrase, whatever the default, and the fuzziness of a word. A bare `~` gives the default slop and
-- the fuzziness "AUTO".
pub modifier_number :
    {F : Type 0} (s : String) (def : ℤ)
    → All IsDigit (codes s)
    → decimal (codes s) < int_limit
    → (s ≢ ""
        → (slop_value s def ≡ pos (decimal (codes s)))
          × (fuzziness_value {F = F} s ≡ int (pos (decimal (codes s)))))
      × (slop_value "" def ≡ def)
      × (fuzziness_value {F = F} "" ≡ str "AUTO")
unfolding slop_value fuzziness_value
modifier_number String.[] def h small = (λ ne. absurd (ne refl), refl, refl)
modifier_number (String.◌∷◌ c s) def h small =
    let e = atoi_codes_lem (code c) (codes s) h small in
    (
      λ ne. (rw (not_empty (String.◌∷◌ c s) ne, e), rw (not_empty (String.◌∷◌ c s) ne, e)),
      refl,
      refl,
    )
