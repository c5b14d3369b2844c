-- ===== src/Api/Page/Refusals.antt =====
-- The errors of `page`, with their statuses and their causes.
use mathlib.Core.Path.{subst}
use mathlib.Core.List.{Memᴰ}
use opensearch_query_gateway.Shared.{
  ℕ, String, Bool, true, false, Option, none, some, List, [], ◌∷◌, ◌≡◌, ◌⊎◌, ◌||◌, refl, inl, inr,
  not, is_empty, str_eq, cut, trim_space, Bool-cases, eq_iff, arith, ap, ◌∙◌,
}
use opensearch_query_gateway.Shared.Fallible.{Fallible, ok, err, ◌>>=◌}
use opensearch_query_gateway.Shared.Int.{pos, ltb_ℤ, add_int}
use opensearch_query_gateway.Config.{SearchConfig}
use opensearch_query_gateway.Api.Errors.{ApiError, Message, bad_request, text}
use opensearch_query_gateway.Api.Page.{
  RuleEngine, SearchRequest, guard, direction, direction_or, from_rules, sort_target, sort_field,
  sort_fields, check_size, check_from, page, size_or, page_size, size_fits, from_fits,
}

abbrev pub refusal : ℕ → String → Message → ApiError
refusal status code msg = record { status = status; code = code; msg = msg }

-- A failure of the rule engine on a field.
pub data FieldFailure (rules : RuleEngine) : ApiError → Type 0 where
  unnormalized :
      (field reason : String) (msg : Message)
      → rules.normalize_field field ≡ err reason
      → FieldFailure rules (refusal 500 "rule_error" msg)
  unknown :
      (field reason : String) (msg : Message)
      → rules.known_field field ≡ err reason
      → FieldFailure rules (refusal 500 "rule_error" msg)

-- Why a page is refused: a size or an offset out of its bounds, a sort criterion with another
-- direction, without a field, or of a field that the rules do not know, or a failure of the rules.
pub data PageRefusal (rules : RuleEngine) (limits : SearchConfig) (req : SearchRequest)
    : ApiError → Type 0 where
  bad_size :
      (msg : Message)
      → (ltb_ℤ (size_or limits.default_size req.size) (pos 0) ≡ true)
        ⊎ (ltb_ℤ limits.max_size (size_or limits.default_size req.size) ≡ true)
      → PageRefusal rules limits req (refusal 400 "invalid_size" msg)
  bad_from :
      (msg : Message)
      → (ltb_ℤ req.from (pos 0) ≡ true)
        ⊎ (ltb_ℤ limits.max_from (add_int req.from (size_or limits.default_size req.size)) ≡ true)
      → PageRefusal rules limits req (refusal 400 "invalid_from" msg)
  bad_direction :
      (raw : String) (msg : Message)
      → Memᴰ raw req.sort
      → direction (cut b':' (trim_space raw)).1 ≡ none
      → PageRefusal rules limits req (refusal 400 "invalid_sort" msg)
  no_field :
      (raw : String) (msg : Message)
      → Memᴰ raw req.sort
      → (cut b':' (trim_space raw)).0 ≡ ""
      → PageRefusal rules limits req (refusal 400 "invalid_sort" msg)
  unknown_field :
      (raw canonical : String) (msg : Message)
      → Memᴰ raw req.sort
      → rules.normalize_field (cut b':' (trim_space raw)).0 ≡ ok canonical
      → rules.known_field canonical ≡ ok false
      → PageRefusal rules limits req (refusal 400 "invalid_sort" msg)
  rules_fail : {e : ApiError} → FieldFailure rules e → PageRefusal rules limits req e

-- An error, if there is one, has a cause.
abbrev pub Refuses : {A : Type 0} → (ApiError → Type 0) → Fallible ApiError A → Type 0
Refuses P (ok a) = Unit
Refuses P (err e) = P e

module _ (P : ApiError → Type 0) where
  pub Refuses->>= :
      {A B : Type 0} (m : Fallible ApiError A) (f : A → Fallible ApiError B)
      → Refuses P m
      → ((a : A) → m ≡ ok a → Refuses P (f a))
      → Refuses P (m >>= f)
  Refuses->>= (ok a) f h k = k a refl
  Refuses->>= (err e) f h k = h

  pub Refuses-err :
      {A : Type 0} (m : Fallible ApiError A) (e : ApiError) → Refuses P m → m ≡ err e → P e
  Refuses-err m e h p = subst (λ (r : Fallible ApiError _). Refuses P r) p h

  pub guard-Refuses : (b : Bool) (e : ApiError) → ((b ≡ false) → P e) → Refuses P (guard b e)
  guard-Refuses true e h = tt
  guard-Refuses false e h = h refl

  from_rules-Refuses :
      {A : Type 0} (wrap : String → Message) (r : Fallible String A)
      → ((reason : String) → r ≡ err reason → P (refusal 500 "rule_error" (wrap reason)))
      → Refuses P (from_rules wrap r)
  from_rules-Refuses wrap (ok a) h = tt
  from_rules-Refuses wrap (err e) h = h e refl

from_rules-ok :
    {A : Type 0} (wrap : String → Message) (r : Fallible String A) {a : A}
    → from_rules wrap r ≡ ok a
    → r ≡ ok a
from_rules-ok wrap (ok a) h = cc
from_rules-ok wrap (err e) h = cc

either : (a b : Bool) → not (a || b) ≡ false → (a ≡ true) ⊎ (b ≡ true)
either true b h = inl refl
either false true h = inr refl
either false false h = cc

empty_text : (s : String) → not (is_empty s) ≡ false → s ≡ ""
empty_text s h = (eq_iff s "").0 (ground arith)

module _ (rules : RuleEngine) (limits : SearchConfig) (req : SearchRequest) where
  abbrev Refused : ApiError → Type 0
  Refused = PageRefusal rules limits req

  sort_target-Refuses :
      (raw : String)
      → Memᴰ raw req.sort
      → Refuses Refused (sort_target rules (cut b':' (trim_space raw)).0)
  unfolding sort_target bad_request
  sort_target-Refuses raw m =
      let field = (cut b':' (trim_space raw)).0 in
      elim (Bool-cases (str_eq field "_score")) [
        | inl e ↦ rw e tt
        | inr e ↦ rw e (
            Refuses->>= Refused (from_rules text (rules.normalize_field field)) _
              (from_rules-Refuses Refused text (rules.normalize_field field)
                λ reason h. rules_fail (unnormalized field reason _ h))
              λ canonical is.
                Refuses->>= Refused (from_rules text (rules.known_field canonical)) _
                  (from_rules-Refuses Refused text (rules.known_field canonical)
                    λ reason h. rules_fail (unknown canonical reason _ h))
                  λ known asked.
                    Refuses->>= Refused (guard known _) _
                      (guard-Refuses Refused known _ λ no.
                        unknown_field raw canonical _ m
                          (from_rules-ok text (rules.normalize_field field) is)
                          (from_rules-ok text (rules.known_field canonical) asked
                            ∙ ap (λ b. ok b) no))
                      λ u done. tt)
      ]

  direction_or-Refuses :
      (raw : String) (o : Option Bool)
      → Memᴰ raw req.sort
      → direction (cut b':' (trim_space raw)).1 ≡ o
      → Refuses Refused (direction_or (cut b':' (trim_space raw)).1 o)
  unfolding bad_request
  direction_or-Refuses raw none m h = bad_direction raw _ m h
  direction_or-Refuses raw (some d) m h = tt

  sort_field-Refuses : (raw : String) → Memᴰ raw req.sort → Refuses Refused (sort_field rules raw)
  unfolding sort_field bad_request
  sort_field-Refuses raw m =
      let parts = cut b':' (trim_space raw) in
      Refuses->>= Refused (direction_or parts.1 (direction parts.1)) _
        (direction_or-Refuses raw (direction parts.1) m refl)
        λ desc is.
          Refuses->>= Refused (guard (not (is_empty parts.0)) _) _
            (guard-Refuses Refused (not (is_empty parts.0)) _
              λ h. no_field raw _ m (empty_text parts.0 h))
            λ named is'.
              Refuses->>= Refused (sort_target rules parts.0) _ (sort_target-Refuses raw m)
                λ field t. tt

  sort_fields-Refuses :
      (raws : List String)
      → ((raw : String) → Memᴰ raw raws → Memᴰ raw req.sort)
      → Refuses Refused (sort_fields rules raws)
  unfolding sort_fields
  sort_fields-Refuses [] m = tt
  sort_fields-Refuses (raw ∷ raws) m =
      Refuses->>= Refused (sort_field rules raw) _ (sort_field-Refuses raw (m raw (Memᴰ.head refl)))
        λ s is.
          Refuses->>= Refused (sort_fields rules raws) _
            (sort_fields-Refuses raws λ r i. m r (Memᴰ.tail i)) λ rest is'. tt

  pub page-Refuses : Refuses Refused (page rules limits req)
  unfolding page check_size check_from bad_request
  page-Refuses =
      let size = page_size limits req in
      Refuses->>= Refused (check_size limits size) _
        (guard-Refuses Refused (size_fits limits size) _ λ h. bad_size _ (either _ _ h))
        λ sized is.
          Refuses->>= Refused (check_from limits req.from size) _
            (guard-Refuses Refused (from_fits limits req.from size) _
              λ h. bad_from _ (either _ _ h))
            λ placed is'.
              Refuses->>= Refused (sort_fields rules req.sort) _
                (sort_fields-Refuses req.sort λ r i. i) λ sort is''. tt
