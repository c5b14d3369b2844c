-- ===== src/Query.antt =====
-- internal/parser/ast.go and grammar.go: the syntax tree of the query language, its traversal,
-- and what a clause says of itself. A pair of pointers of which the grammar sets exactly one (the
-- alternatives of `Primary` and `Value`) is a data type here; an optional pointer is an `Option`.
pub mod Duration
pub mod Walk
pub mod Parse
pub mod Meaning
use opensearch_query_gateway.Shared.{
  ℕ, String, Bool, true, false, ◌&&◌, ◌||◌, Option, none, some, List, [], ◌∷◌, ◌==◌, if◌then◌else◌,
  within, ◌<>◌, codes, codes_eq, fold, map,
}

-- `Distance` is "" for a bare `~`.
pub record Fuzzy : Type 0 where
  pub distance : String

pub record Boost : Type 0 where
  pub factor : String

pub record Range : Type 0 where
  pub min : String
  pub max : String

pub record Compare : Type 0 where
  pub op : String
  pub value : String

-- The first four fields of `Value`.
pub data Operand : Type 0 where
  range : Range → Operand
  compare : Compare → Operand
  phrase : String → Operand
  word : String → Operand

pub record Value : Type 0 where
  pub operand : Operand
  pub fuzzy : Option Fuzzy
  pub boost : Option Boost

pub record Clause : Type 0 where
  pub field : String
  pub value : Value

mutual
  pub data Expression : Type 0 where
    expression : (left : AndExpr) (right : OrOps) → Expression

  pub data OrOps : Type 0 where
    no_or : OrOps
    or_op : (op : String) (right : AndExpr) (more : OrOps) → OrOps

  pub data AndExpr : Type 0 where
    and_expr : (left : NotExpr) (right : AndOps) → AndExpr

  pub data AndOps : Type 0 where
    no_and : AndOps
    and_op : (op : String) (right : NotExpr) (more : AndOps) → AndOps

  pub data NotExpr : Type 0 where
    not_expr : (negated : Bool) (primary : Primary) → NotExpr

  pub data Primary : Type 0 where
    group : Expression → Primary
    clause : Clause → Primary

pub record Query : Type 0 where
  pub root : Expression

abbrev pub relative_time_field : String
relative_time_field = "last"

-- `strings.EqualFold` with a text of lower-case ASCII letters.
abbrev equal_fold : String → String → Bool
equal_fold s t = codes_eq (map fold (codes s)) (codes t)

unfoldable pub is_relative_time : Clause → Bool
unfolding codes_eq
is_relative_time c = equal_fold c.field relative_time_field

abbrev is_digit : ℕ → Bool
is_digit c = within b'0' b'9' c

abbrev is_unit : ℕ → Bool
is_unit c =
    c == b'y'
    || c == b'M'
    || c == b'w'
    || c == b'd'
    || c == b'h'
    || c == b'H'
    || c == b'm'
    || c == b's'

is_end : List ℕ → Bool
is_end [] = true
is_end (_ ∷ _) = false

-- `[0-9]*[yMwdhHms]$`
duration_tail : List ℕ → Bool
duration_tail [] = false
duration_tail (c ∷ cs) = is_unit c && is_end cs || is_digit c && duration_tail cs

-- `durationRe`: `^[0-9]+[yMwdhHms]$`.
pub duration_re : List ℕ → Bool
duration_re [] = false
duration_re (c ∷ cs) = is_digit c && duration_tail cs

-- The text of the duration, and whether it has the form that OpenSearch date math reads.
unfoldable pub duration_of : Operand → Option Fuzzy → String × Bool
unfolding duration_re duration_tail is_end
duration_of (word d) none = (d, duration_re (codes d))
duration_of _ _ = ("", false)

abbrev pub duration : Clause → String × Bool
duration c = duration_of c.value.operand c.value.fuzzy

unfoldable pub is_ranged : Operand → Bool
is_ranged (range r) = true
is_ranged (compare c) = true
is_ranged _ = false

-- `Op`: how the rule engine sees the clause.
unfoldable pub op : Clause → String
unfolding is_ranged
op c = if is_ranged c.value.operand || is_relative_time c then "range" else "eq"

abbrev base_value : Operand → String
base_value (range r) = r.min <> " TO " <> r.max
base_value (compare c) = c.op <> c.value
base_value (phrase s) = s
base_value (word s) = s

abbrev add_fuzzy : Option Fuzzy → String → String
add_fuzzy none base = base
add_fuzzy (some f) base = base <> "~" <> f.distance

abbrev add_boost : Option Boost → String → String
add_boost none base = base
add_boost (some b) base = base <> "^" <> b.factor

unfoldable pub raw_value : Clause → String
raw_value c = add_boost c.value.boost (add_fuzzy c.value.fuzzy (base_value c.value.operand))

-- `WalkClauses`: `fn` may change the clause that it is given, and whatever state it closes over.
module _ {ℓ} {S : Type ℓ} (fn : Clause → S → Clause × S) where
  unfoldable mutual
    pub walk_expression : Expression → S → Expression × S
    walk_expression (expression left right) s =
        let (left', s₁) = walk_and left s in
        let (right', s₂) = walk_or_ops right s₁ in (expression left' right', s₂)

    pub walk_or_ops : OrOps → S → OrOps × S
    walk_or_ops no_or s = (no_or, s)
    walk_or_ops (or_op op right more) s =
        let (right', s₁) = walk_and right s in
        let (more', s₂) = walk_or_ops more s₁ in (or_op op right' more', s₂)

    pub walk_and : AndExpr → S → AndExpr × S
    walk_and (and_expr left right) s =
        let (left', s₁) = walk_not left s in
        let (right', s₂) = walk_and_ops right s₁ in (and_expr left' right', s₂)

    pub walk_and_ops : AndOps → S → AndOps × S
    walk_and_ops no_and s = (no_and, s)
    walk_and_ops (and_op op right more) s =
        let (right', s₁) = walk_not right s in
        let (more', s₂) = walk_and_ops more s₁ in (and_op op right' more', s₂)

    pub walk_not : NotExpr → S → NotExpr × S
    walk_not (not_expr negated primary) s =
        let (primary', s₁) = walk_primary primary s in (not_expr negated primary', s₁)

    pub walk_primary : Primary → S → Primary × S
    walk_primary (group e) s = let (e', s₁) = walk_expression e s in (group e', s₁)
    walk_primary (clause c) s = let (c', s₁) = fn c s in (clause c', s₁)

  unfoldable pub walk_clauses : Query → S → Query × S
  walk_clauses q s = let (root', s₁) = walk_expression q.root s in (record { root = root' }, s₁)
