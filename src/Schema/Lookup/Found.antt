-- ===== src/Schema/Lookup/Found.antt =====
-- What the lookups by path find.
use mathlib.Core.List.{Memᴰ}
use mathlib.Core.List.Memᴰ
use opensearch_query_gateway.Shared.{
  String, Bool, true, false, Option, none, some, List, [], ◌∷◌, ◌≡◌, refl, str_eq, Bool-cases, inl,
  inr, ◌≢◌, All, eq_iff,
}
use opensearch_query_gateway.Schema.{Field}
use opensearch_query_gateway.Schema.Lookup.{has_field, field_by_path}

pub has_field-mem :
    (path : String) (f : Field) (fs : List Field)
    → Memᴰ f fs
    → f.path ≡ path
    → has_field path fs ≡ true
unfolding has_field
has_field-mem path f [] m p = absurd (Memᴰ.not-nil m)
has_field-mem path f (g ∷ fs) (Memᴰ.head e) p =
    (let same : g.path ≡ path = cc in rw ((eq_iff g.path path).1 same) refl)
has_field-mem path f (g ∷ fs) (Memᴰ.tail m) p = elim (Bool-cases (str_eq g.path path)) [
  | inl e ↦ rw e refl
  | inr e ↦ rw e (has_field-mem path f fs m p)
]

-- The two lookups of a path: both fail, and no field has it; or both succeed, with a field that
-- has it.
abbrev pub AreLookups : String → List Field → Option Field → Bool → Type 0
AreLookups path fs none b = (b ≡ false) × All (λ (f : Field). f.path ≢ path) fs
AreLookups path fs (some f) b = (b ≡ true) × (f.path ≡ path) × Memᴰ f fs

later-AreLookups :
    (path : String) (g : Field) (fs : List Field) (a : Option Field) (b : Bool)
    → g.path ≢ path
    → AreLookups path fs a b
    → AreLookups path (g ∷ fs) a b
later-AreLookups path g fs none b ne (h, all) = (h, (ne, all))
later-AreLookups path g fs (some f) b ne (h, p, m) = (h, p, Memᴰ.tail m)

-- FieldByPath and HasField agree: either FieldByPath finds a field of the schema with that path and
-- HasField is true, or FieldByPath finds none, HasField is false and no field has that path.
pub field_by_path-AreLookups :
    (path : String) (fs : List Field)
    → AreLookups path fs (field_by_path path fs) (has_field path fs)
unfolding field_by_path has_field
field_by_path-AreLookups path [] = (refl, tt)
field_by_path-AreLookups path (g ∷ fs) = elim (Bool-cases (str_eq g.path path)) [
  | inl e ↦ rw e (refl, (eq_iff g.path path).0 e, Memᴰ.head refl)
  | inr e ↦ rw e (
      later-AreLookups path g fs (field_by_path path fs) (has_field path fs)
        (λ same. (let yes = (eq_iff g.path path).1 same in cc)) (field_by_path-AreLookups path fs))
]
