-- ===== src/Json.antt =====
-- The values of Go's `map[string]interface{}` and `[]map[string]interface{}` that the gateway
-- builds and reads. A map is the list of its entries; `set_prop` is the assignment `m[k] = v`.
-- `F` is the type of the 64-bit floats.
pub mod Laws
use opensearch_query_gateway.Shared.{
  String, Bool, true, false, Option, none, some, List, [], ◌∷◌, str_eq, if◌then◌else◌,
}
use opensearch_query_gateway.Shared.Int.{ℤ}

mutual
  pub data Json (F : Type 0) : Type 0 where
    null : Json F
    bool : Bool → Json F
    int : ℤ → Json F
    float : F → Json F
    str : String → Json F
    arr : Elems F → Json F
    obj : Props F → Json F

  pub data Elems (F : Type 0) : Type 0 where
    nil : Elems F
    cons : Json F → Elems F → Elems F

  pub data Props (F : Type 0) : Type 0 where
    end : Props F
    prop : String → Json F → Props F → Props F

module _ {F : Type 0} where
  abbrev pub of_list : List (Json F) → Elems F
  of_list [] = nil
  of_list (x ∷ xs) = cons x (of_list xs)

  unfoldable pub set_prop : String → Json F → Props F → Props F
  set_prop k v end = prop k v end
  set_prop k v (prop j w ps) = if str_eq j k then prop k v ps else prop j w (set_prop k v ps)

  unfoldable pub get_prop : String → Props F → Option (Json F)
  get_prop k end = none
  get_prop k (prop j w ps) = if str_eq j k then some w else get_prop k ps

  -- A map with one entry.
  abbrev pub single : String → Json F → Json F
  single k v = obj (prop k v end)
