-- ===== src/Schema/Mapper/Sorting.antt =====
-- The keys of a map in their order, whatever the order of its entries is.
use Prim.Native.Char.{code}
use text.Mathlib.TextEquality.{Char-path}
use opensearch_query_gateway.Shared.{
  ℕ, String, Bool, true, false, List, [], ◌∷◌, ◌≡◌, ◌≢◌, refl, codes, arith, Bool-cases, inl, inr,
}
use opensearch_query_gateway.Schema.Analysis.{codes_lt}
use opensearch_query_gateway.Schema.Analysis.Counts.{codes_lt-asymm}
use opensearch_query_gateway.Schema.Mapper.{insert_key}

-- Neither is less: they are equal.
codes_lt-connex : (xs ys : List ℕ) → codes_lt xs ys ≡ false → codes_lt ys xs ≡ false → xs ≡ ys
unfolding codes_lt
codes_lt-connex [] [] h k = refl
codes_lt-connex [] (y ∷ ys) h k = cc
codes_lt-connex (x ∷ xs) [] h k = cc
codes_lt-connex (x ∷ xs) (y ∷ ys) h k = ground (arith, codes_lt-connex xs ys)

codes_lt_trans :
    (xs ys zs : List ℕ) → codes_lt xs ys ≡ false → codes_lt ys zs ≡ false → codes_lt xs zs ≡ false
unfolding codes_lt
codes_lt_trans [] [] zs h k = k
codes_lt_trans [] (y ∷ ys) zs h k = cc
codes_lt_trans (x ∷ xs) [] [] h k = refl
codes_lt_trans (x ∷ xs) [] (z ∷ zs) h k = cc
codes_lt_trans (x ∷ xs) (y ∷ ys) [] h k = refl
codes_lt_trans (x ∷ xs) (y ∷ ys) (z ∷ zs) h k = ground (arith, codes_lt_trans xs ys zs)

codes-injective : (s t : String) → codes s ≡ codes t → s ≡ t
codes-injective String.[] String.[] h = refl
codes-injective String.[] (String.◌∷◌ d t) h = cc
codes-injective (String.◌∷◌ c s) String.[] h = cc
codes-injective (String.◌∷◌ c s) (String.◌∷◌ d t) h =
    let p : code c ≡ code d = cc in
    let q : codes s ≡ codes t = cc in rw (Char-path c d p, codes-injective s t q) refl

abbrev before : String → String → Bool
before j k = codes_lt (codes j) (codes k)

before-asymm : (j k : String) → before j k ≡ true → before k j ≡ false
before-asymm j k h = codes_lt-asymm (codes j) (codes k) h

-- Of two keys one comes first.
before-cases : (j k : String) → j ≢ k → before j k ≡ false → before k j ≡ true
before-cases j k ne h = elim (Bool-cases (before k j)) [
  | inl e ↦ e
  | inr e ↦ absurd (ne (codes-injective j k (codes_lt-connex (codes j) (codes k) h e)))
]

between : (c j k : String) → before c k ≡ true → before c j ≡ false → before j k ≡ true
between c j k h e = elim (Bool-cases (before j k)) [
  | inl d ↦ d
  | inr d ↦ (let no : before c k ≡ false = codes_lt_trans (codes c) (codes j) (codes k) e d in cc)
]

module _ {A : Type 0} where
  -- Where the first key is smaller, where it is not.
  past :
      (j k : String) (b a : A) (rest : List (String × A))
      → before j k ≡ true
      → insert_key k a ((j, b) ∷ rest) ≡ (j, b) ∷ insert_key k a rest
  unfolding insert_key
  past j k b a rest h = rw h refl

  ahead :
      (j k : String) (b a : A) (rest : List (String × A))
      → before j k ≡ false
      → insert_key k a ((j, b) ∷ rest) ≡ (k, a) ∷ (j, b) ∷ rest
  unfolding insert_key
  ahead j k b a rest h = rw h refl

  -- Two keys that stay ahead of the entries.
  in_front :
      (j k : String) (b a : A) (rest : List (String × A))
      → j ≢ k
      → insert_key j b rest ≡ (j, b) ∷ rest
      → insert_key k a rest ≡ (k, a) ∷ rest
      → insert_key k a (insert_key j b rest) ≡ insert_key j b (insert_key k a rest)
  in_front j k b a rest ne p q = elim (Bool-cases (before j k)) [
    | inl h ↦ rw (p, q, past j k b a rest h, ahead k j a b rest (before-asymm j k h), q) refl
    | inr h ↦
        (let h' = before-cases j k ne h in
          rw (p, q, ahead j k b a rest h, past k j a b rest h', p) refl)
  ]

  pub insert_key_comm :
      (j k : String) (b a : A) (rest : List (String × A))
      → j ≢ k
      → insert_key k a (insert_key j b rest) ≡ insert_key j b (insert_key k a rest)
  insert_key_comm j k b a [] ne = unfold insert_key in in_front j k b a [] ne refl refl
  insert_key_comm j k b a ((c, v) ∷ rest) ne = elim (Bool-cases (before c k)) [
    | inl h ↦ elim (Bool-cases (before c j)) [
      | inl e ↦
          rw
            (
              past c j v b rest e,
              past c k v a rest h,
              past c k v a (insert_key j b rest) h,
              past c j v b (insert_key k a rest) e,
              insert_key_comm j k b a rest ne,
            )
            refl
      | inr e ↦
          rw
            (
              ahead c j v b rest e,
              past c k v a rest h,
              past j k b a ((c, v) ∷ rest) (between c j k h e),
              past c k v a rest h,
              ahead c j v b (insert_key k a rest) e,
            )
            refl
    ]
    | inr h ↦ elim (Bool-cases (before c j)) [
      | inl e ↦
          rw
            (
              past c j v b rest e,
              ahead c k v a rest h,
              ahead c k v a (insert_key j b rest) h,
              past k j a b ((c, v) ∷ rest) (between c k j e h),
              past c j v b rest e,
            )
            refl
      | inr e ↦ in_front j k b a ((c, v) ∷ rest) ne (ahead c j v b rest e) (ahead c k v a rest h)
    ]
  ]
