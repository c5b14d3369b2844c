-- ===== src/Dsl.antt =====
-- internal/dslbuilder/builder.go: the query of one clause, by its kind.
-- `strconv.ParseFloat` is a parameter: `F` is the type of its results, `none` an error.
pub mod Numbers
pub mod Bounds
use opensearch_query_gateway.Shared.{
  ℕ, zero, suc, ◌+◌, ◌*◌, ◌-◌, String, Bool, true, false, not, ◌&&◌, ◌||◌, Option, none, some, List,
  [], ◌∷◌, ◌==◌, leb, if◌then◌else◌, within, codes, str_eq, is_empty, is_some,
}
use opensearch_query_gateway.Shared.Int.{ℤ, pos, negsuc, int_limit}
use opensearch_query_gateway.Json.{
  Json, Props, str, int, float, bool, obj, end, prop, set_prop, single,
}
use opensearch_query_gateway.Query.{Fuzzy, Boost, Range, Compare}

abbrev pub has_code : ℕ → List ℕ → Bool
has_code c [] = false
has_code c (d ∷ ds) = d == c || has_code c ds

unfoldable pub contains_wildcard : String → Bool
contains_wildcard s = has_code b'*' (codes s) || has_code b'?' (codes s)

-- The digits of `strconv.Atoi`, on the value read so far.
digits_from : ℕ → List ℕ → Option ℕ
digits_from n [] = some n
digits_from n (c ∷ cs) =
    let rest = digits_from (10 * n + (c - b'0')) cs in if within b'0' b'9' c then rest else none

unsigned : List ℕ → Option ℕ
unsigned [] = none
unsigned (c ∷ cs) = digits_from 0 (c ∷ cs)

negate : ℕ → ℤ
negate zero = pos 0
negate (suc n) = negsuc n

in_range : Bool → Option ℕ → Option ℤ
in_range negative none = none
in_range false (some n) = if leb int_limit n then none else some (pos n)
in_range true (some n) = if leb n int_limit then some (negate n) else none

atoi_codes : List ℕ → Option ℤ
atoi_codes [] = none
atoi_codes (c ∷ cs) =
    if c == b'-'
    then in_range true (unsigned cs)
    else in_range false (unsigned (if c == b'+' then cs else c ∷ cs))

-- `strconv.Atoi`: an optional sign and decimal digits, within the range of `int`.
unfoldable pub atoi : String → Option ℤ
unfolding atoi_codes in_range negate unsigned digits_from
atoi s = atoi_codes (codes s)

int_or {ℓ} : {A : Type ℓ} → (ℤ → A) → A → Option ℤ → A
int_or f d none = d
int_or f d (some n) = f n

unfoldable pub slop_value : String → ℤ → ℤ
unfolding int_or atoi
slop_value distance def = if is_empty distance then def else int_or (λ n. n) def (atoi distance)

-- `>`, `>=`, `<` and `<=`; a missing key of `compareOps` gives "".
unfoldable pub compare_ops : String → String
compare_ops op =
    if str_eq op ">"
    then "gt"
    else if str_eq op ">="
    then "gte"
    else if str_eq op "<"
    then "lt"
    else if str_eq op "<="
    then "lte"
    else ""

-- `strconv.ParseFloat(s, 64)`, and the number 1.
pub record Floats (F : Type 0) : Type 0 where
  pub parse_float : String → Option F
  pub one : F

float_or : {F : Type 0} → F → Option F → F
float_or one none = one
float_or one (some f) = f

-- `boostFactor`: 1 for a factor that is no number.
unfoldable pub boost_factor : {F : Type 0} → Floats F → Option Boost → Option F
unfolding float_or
boost_factor fp none = none
boost_factor fp (some b) = some (float_or fp.one (fp.parse_float b.factor))

-- A bound of a range that leaves its side open.
abbrev pub is_open : String → Bool
is_open bound = str_eq bound "*" || is_empty bound

module _ {F : Type 0} where
  unfoldable pub fuzziness_value : String → Json F
  unfolding int_or atoi
  fuzziness_value distance =
      if is_empty distance then str "AUTO" else int_or int (str "AUTO") (atoi distance)

  abbrev pub set_boost : Option F → Props F → Props F
  set_boost none params = params
  set_boost (some f) params = set_prop "boost" (float f) params

  unfoldable pub range_params : String → Props F → Option F → Json F
  unfolding set_prop
  range_params field params boost = single "range" (single field (obj (set_boost boost params)))

  abbrev add_bound : String → String → Props F → Props F
  add_bound key bound params =
      if not (is_open bound) then set_prop key (str bound) params else params

  unfoldable pub range_clause : String → Range → Option F → Json F
  unfolding range_params set_prop
  range_clause field r boost =
      range_params field (add_bound "lte" r.max (add_bound "gte" r.min end)) boost

  unfoldable pub compare_clause : String → Compare → Option F → Json F
  unfolding range_params compare_ops
  compare_clause field c boost =
      range_params field (prop (compare_ops c.op) (str c.value) end) boost

  unfoldable pub match_clause : String → String → Option F → Json F
  match_clause field word none = single "match" (single field (str word))
  match_clause field word (some f) =
      single "match" (single field (obj (prop "query" (str word) (prop "boost" (float f) end))))

  abbrev set_slop : Option Fuzzy → Props F → Props F
  set_slop none params = params
  set_slop (some f) params = set_prop "slop" (int (slop_value f.distance (pos 2))) params

  unfoldable pub phrase_clause : String → String → Option Fuzzy → Option F → Json F
  unfolding set_prop slop_value
  phrase_clause field phrase fuzzy boost =
      if not (is_some fuzzy) && not (is_some boost)
      then single "match_phrase" (single field (str phrase))
      else single "match_phrase"
          (single field (obj (set_boost boost (set_slop fuzzy (prop "query" (str phrase) end)))))

  unfoldable pub fuzzy_clause : String → String → String → Option F → Json F
  unfolding set_prop fuzziness_value
  fuzzy_clause field word distance boost = single "fuzzy" (
      single field (
        obj (
          set_boost boost
            (prop "value" (str word) (prop "fuzziness" (fuzziness_value distance) end)))))

  unfoldable pub wildcard_clause : String → String → Option F → Json F
  unfolding set_prop
  wildcard_clause field value boost = single "wildcard" (
      single field (
        obj (set_boost boost (prop "value" (str value) (prop "case_insensitive" (bool true) end)))))
