-- ===== src/Json/Laws.antt =====
-- Lookup after assignment.
use opensearch_query_gateway.Shared.{String, ◌≡◌, refl, some, str_eq, eq_iff, if◌then◌else◌, arith}
use opensearch_query_gateway.Json.{Json, Props, end, prop, set_prop, get_prop}

pub get_prop-set_prop :
    {F : Type 0} (k j : String) (v : Json F) (ps : Props F)
    → get_prop j (set_prop k v ps) ≡ (if str_eq k j then some v else get_prop j ps)
unfolding get_prop set_prop
get_prop-set_prop k j v end = refl
get_prop-set_prop k j v (prop i w ps) =
    ground (arith, eq_iff k j, eq_iff i k, eq_iff i j, get_prop-set_prop k j v ps)
