-- ===== src/Api/Page/Bounds.antt =====
-- What the pages that `page` accepts satisfy, and where its check of `from+size` fails.
use opensearch_query_gateway.Shared.{
  ℕ, ◌+◌, ◌≤◌, ◌<◌, true, some, [], ◌≡◌, refl, sym, ap, ◌∙◌, arith,
}
use opensearch_query_gateway.Shared.Int.{
  ℤ, pos, negsuc, pos_part, ◌≤ℤ◌, ltb_ℤ, add_int, IsInt, int_limit,
}
use opensearch_query_gateway.Shared.Fallible.{ok, >>=-ok_inv, ok-injective}
use opensearch_query_gateway.Config.{SearchConfig}
use opensearch_query_gateway.Builder.{Page}
use opensearch_query_gateway.Api.Page.{
  RuleEngine, SearchRequest, guard-ok, page_size, size_fits, from_fits, check_size, check_from,
  sort_fields, page,
}

record Accepted (rules : RuleEngine) (limits : SearchConfig) (req : SearchRequest) (p : Page)
    : Type 0 where
  sorted : sort_fields rules req.sort ≡ ok p.sort
  size_is : p.size ≡ page_size limits req
  from_is : p.from ≡ req.from
  track_is : p.track ≡ limits.track_total_hits
  size : size_fits limits (page_size limits req) ≡ true
  from : from_fits limits req.from (page_size limits req) ≡ true

page-Accepted :
    (rules : RuleEngine) (limits : SearchConfig) (req : SearchRequest) {p : Page}
    → page rules limits req ≡ ok p
    → Accepted rules limits req p
unfolding page
page-Accepted rules limits req {p} h =
    let size = page_size limits req in
    let (u, g, later) = >>=-ok_inv (check_size limits size) _ h in
    let (v, k, later₂) = >>=-ok_inv (check_from limits req.from size) _ later in
    let (sort, s, last) = >>=-ok_inv (sort_fields rules req.sort) _ later₂ in
    let e = ok-injective last in
    record {
      sorted = s ∙ ap (λ (q : Page). ok q.sort) e;
      size_is = ap (λ (q : Page). q.size) (sym e);
      from_is = ap (λ (q : Page). q.from) (sym e);
      track_is = ap (λ (q : Page). q.track) (sym e);
      size = guard-ok (size_fits limits size) _ g;
      from = guard-ok (from_fits limits req.from size) _ k;
    }

size_bounds :
    (limits : SearchConfig) (size : ℤ)
    → size_fits limits size ≡ true
    → (pos 0 ≤ℤ size) × (size ≤ℤ limits.max_size)
size_bounds limits size h = ground arith

add_int-pos : (f s : ℕ) → f + s < int_limit → add_int (pos f) (pos s) ≡ pos (f + s)
unfolding add_int
add_int-pos f s h = ground arith

add_int-wraps :
    (f s : ℕ)
    → f < int_limit
    → s < int_limit
    → int_limit ≤ f + s
    → ltb_ℤ (add_int (pos f) (pos s)) (pos 0) ≡ true
unfolding add_int
add_int-wraps f s h k g = ground arith

from_bounds :
    (limits : SearchConfig) (from size : ℤ)
    → from_fits limits from size ≡ true
    → pos 0 ≤ℤ size
    → pos_part from + pos_part size < int_limit
    → (pos 0 ≤ℤ from) × (pos (pos_part from + pos_part size) ≤ℤ limits.max_from)
from_bounds limits (pos f) (pos s) h k small = ground (arith, add_int-pos f s small)
from_bounds limits (negsuc f) size h k small = ground arith
from_bounds limits (pos f) (negsuc s) h k small = absurd (omega arith)

-- A page that `page` accepts has 0 ≤ size ≤ max_size and 0 ≤ from, the size is the one asked for
-- or else the default, and from + size, if it does not leave the range of `int`, is at most
-- max_from.
pub page_bounds :
    (rules : RuleEngine) (limits : SearchConfig) (req : SearchRequest) (p : Page)
    → page rules limits req ≡ ok p
    → pos_part p.from + pos_part p.size < int_limit
    → (p.size ≡ page_size limits req)
      × (p.from ≡ req.from)
      × (pos 0 ≤ℤ p.size)
      × (p.size ≤ℤ limits.max_size)
      × (pos 0 ≤ℤ p.from)
      × (pos (pos_part p.from + pos_part p.size) ≤ℤ limits.max_from)
page_bounds rules limits req p h small =
    let a = page-Accepted rules limits req h in
    let sized = rw (← a.size_is) at (size_bounds limits (page_size limits req) a.size) in
    let fits : from_fits limits p.from p.size ≡ true = rw (a.size_is, a.from_is) (a.from) in
    let placed = from_bounds limits p.from p.size fits sized.0 small in
    (a.size_is, a.from_is, sized.0, sized.1, placed.0, placed.1)

fits_size :
    (limits : SearchConfig) (size : ℕ)
    → pos size ≤ℤ limits.max_size
    → size_fits limits (pos size) ≡ true
fits_size limits size h = ground arith

fits_from :
    (limits : SearchConfig) (from size : ℕ)
    → from < int_limit
    → size < int_limit
    → int_limit ≤ from + size
    → pos 0 ≤ℤ limits.max_from
    → from_fits limits (pos from) (pos size) ≡ true
fits_from limits from size h k g e = ground (arith, add_int-wraps from size h k g)

-- A request without sort criteria, with 0 ≤ from < 2^63 and 0 ≤ size ≤ max_size but from + size not
-- below 2^63, is accepted by `page` with its offset, if the limits are values of `int` and max_from
-- is not negative: the sum wraps around to a negative number and passes the check, although the
-- true sum is not below max_from.
pub page_overflow :
    (rules : RuleEngine) (limits : SearchConfig) (req : SearchRequest) (from size : ℕ)
    → req.from ≡ pos from
    → req.size ≡ some (pos size)
    → req.sort ≡ []
    → from < int_limit
    → pos size ≤ℤ limits.max_size
    → IsInt limits.max_size
    → IsInt limits.max_from
    → pos 0 ≤ℤ limits.max_from
    → int_limit ≤ from + size
    → (p : Page) × (page rules limits req ≡ ok p)
      × (p.from ≡ pos from)
      × (limits.max_from ≤ℤ pos (from + size))
unfolding page check_size check_from sort_fields
page_overflow rules limits req from size f s o a b c d e g = (
  record { size = pos size; from = pos from; sort = []; track = limits.track_total_hits },
  rw (f, s, o) (rw (fits_size limits size b, fits_from limits from size a (omega arith) g e)),
  refl,
  omega arith,
)
