-- ===== src/Config/Allowed.antt =====
-- internal/config/config.go: which indices `IndexAllowed` allows.
use mathlib.Core.List.{Memᴰ}
use mathlib.Core.Bool.{or-true}
use opensearch_query_gateway.Shared.{
  String, true, List, [], ◌∷◌, ◌≡◌, sym, ◌⊎◌, inl, inr, ◌↔◌, eq_iff, arith, Bool-cases, str_eq,
}
use opensearch_query_gateway.Config.{index_allowed, OpenSearchConfig, contains}

pub contains-Memᴰ : (s : String) (xs : List String) → contains s xs ≡ true → Memᴰ s xs
unfolding contains
contains-Memᴰ s [] h = cc
contains-Memᴰ s (x ∷ xs) h = elim (Bool-cases (str_eq x s)) [
  | inl e ↦ Memᴰ.head (sym ((eq_iff x s).0 e))
  | inr e ↦ Memᴰ.tail (contains-Memᴰ s xs (ground arith))
]

pub Memᴰ-contains : (s : String) (xs : List String) → Memᴰ s xs → contains s xs ≡ true
unfolding contains
Memᴰ-contains s [] m = elim m [ ]
Memᴰ-contains s (x ∷ xs) (Memᴰ.head e) = rw ((eq_iff x s).1 (sym e))
Memᴰ-contains s (x ∷ xs) (Memᴰ.tail m) = rw (Memᴰ-contains s xs m, or-true (str_eq x s))

-- A client may search an index exactly when it is the default one or a listed one.
pub index_allowed_iff :
    (c : OpenSearchConfig) (index : String)
    → (index_allowed c index ≡ true) ↔ ((index ≡ c.index) ⊎ Memᴰ index c.allowed_indices)
unfolding index_allowed
index_allowed_iff c index = (to, from)
  where
    to : index_allowed c index ≡ true → (index ≡ c.index) ⊎ Memᴰ index c.allowed_indices
    to h = elim (Bool-cases (str_eq index c.index)) [
      | inl e ↦ inl ((eq_iff index c.index).0 e)
      | inr e ↦ inr (contains-Memᴰ index c.allowed_indices (ground arith))
    ]

    from : (index ≡ c.index) ⊎ Memᴰ index c.allowed_indices → index_allowed c index ≡ true
    from (inl e) = rw ((eq_iff index c.index).1 e)
    from (inr m) = ground (arith, Memᴰ-contains index c.allowed_indices m)
