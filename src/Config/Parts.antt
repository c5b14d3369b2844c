-- ===== src/Config/Parts.antt =====
-- The parts of a list from the environment.
use Prim.Native.Char.{code}
use opensearch_query_gateway.Shared.{
  ℕ, String, false, List, [], ◌∷◌, ◌≡◌, ◌≢◌, arith, eq_iff, ◌==◌, ◌&&◌, is_empty, is_space, codes,
  trim_left, trim_right, trim_space, All, Bool-cases, inl, inr,
}
use opensearch_query_gateway.Config.Env.{split_comma, trim_parts, parse_list}

-- No white space stands at the start.
abbrev pub StartsClean : List ℕ → Type 0
StartsClean [] = Unit
StartsClean (c ∷ cs) = is_space c ≡ false

pub record IsPart (p : String) : Type 0 where
  pub nonempty : p ≢ ""
  pub no_comma : All (λ c. c ≢ b',') (codes p)
  pub clean : StartsClean (codes p)

trim_left-All : (P : ℕ → Type 0) (s : String) → All P (codes s) → All P (codes (trim_left s))
unfolding trim_left
trim_left-All P String.[] h = tt
trim_left-All P (String.◌∷◌ c s) h = elim (Bool-cases (is_space (code c))) [
  | inl e ↦ rw e (trim_left-All P s h.1)
  | inr e ↦ rw e h
]

trim_right-All : (P : ℕ → Type 0) (s : String) → All P (codes s) → All P (codes (trim_right s))
unfolding trim_right
trim_right-All P String.[] h = tt
trim_right-All P (String.◌∷◌ c s) h =
    elim (Bool-cases (is_space (code c) && is_empty (trim_right s))) [
      | inl e ↦ rw e tt
      | inr e ↦ rw e (h.0, trim_right-All P s h.1)
    ]

trim_left-StartsClean : (s : String) → StartsClean (codes (trim_left s))
unfolding trim_left
trim_left-StartsClean String.[] = tt
trim_left-StartsClean (String.◌∷◌ c s) = elim (Bool-cases (is_space (code c))) [
  | inl e ↦ rw e (trim_left-StartsClean s)
  | inr e ↦ rw e e
]

trim_right-StartsClean : (s : String) → StartsClean (codes s) → StartsClean (codes (trim_right s))
unfolding trim_right
trim_right-StartsClean String.[] h = tt
trim_right-StartsClean (String.◌∷◌ c s) h =
    elim (Bool-cases (is_space (code c) && is_empty (trim_right s))) [
      | inl e ↦ rw e tt
      | inr e ↦ rw e h
    ]

abbrev NoCommas : String × List String → Type 0
NoCommas (p, ps) = All (λ c. c ≢ b',') (codes p) × All (λ q. All (λ c. c ≢ b',') (codes q)) ps

split_comma-NoCommas : (s : String) → NoCommas (split_comma s)
unfolding split_comma
split_comma-NoCommas String.[] = (tt, tt)
split_comma-NoCommas (String.◌∷◌ c s) =
    let later = split_comma-NoCommas s in
    elim (Bool-cases (code c == b',')) [
      | inl e ↦ rw e (tt, later)
      | inr e ↦ rw e ((ground arith, later.0), later.1)
    ]

trim_parts-All :
    (ps : List String) → All (λ q. All (λ c. c ≢ b',') (codes q)) ps → All IsPart (trim_parts ps)
unfolding trim_parts trim_space
trim_parts-All [] h = tt
trim_parts-All (p ∷ ps) h = elim (Bool-cases (is_empty (trim_space p))) [
  | inl e ↦ rw e (trim_parts-All ps h.1)
  | inr e ↦ rw e (
    record {
      nonempty = ground (arith, eq_iff (trim_space p) "");
      no_comma = trim_right-All _ (trim_left p) (trim_left-All _ p h.0);
      clean = trim_right-StartsClean (trim_left p) (trim_left-StartsClean p);
    },
    trim_parts-All ps h.1,
  )
]

-- A list from the environment holds no empty part, and no part with a comma in it or with white
-- space at its start.
pub parse_list-All : (v : String) → All IsPart (parse_list v)
unfolding parse_list
parse_list-All v =
    let parts = split_comma-NoCommas v in
    trim_parts-All ((split_comma v).0 ∷ (split_comma v).1) parts
