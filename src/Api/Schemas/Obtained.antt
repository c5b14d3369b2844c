-- ===== src/Api/Schemas/Obtained.antt =====
-- When the handlers show a schema, and which.
use opensearch_query_gateway.Shared.{
  String, Bool, true, false, ◌≡◌, ◌↔◌, refl, if◌then◌else◌, Bool-cases, inl, inr, str_eq,
}
use opensearch_query_gateway.Shared.Int.{ℤ}
use opensearch_query_gateway.Shared.Fallible.{Fallible, ok, err, >>=-ok_inv}
use opensearch_query_gateway.Json.{Json}
use opensearch_query_gateway.Config.{index_allowed}
use opensearch_query_gateway.Schema.{IndexSchema}
use opensearch_query_gateway.Schema.Mapper.{from_json}
use opensearch_query_gateway.Schema.Analysis.{Introspection, analyze}
use opensearch_query_gateway.Schema.Facts.{write}
use opensearch_query_gateway.Api.Errors.{Failure}
use opensearch_query_gateway.Api.Translate.{Server}
use opensearch_query_gateway.Api.Schemas.{
  MappingBody, read, unread, SchemaRequest, shown, body_text, schema_read, show_with, index_of,
  fetched, schema_for, introspect, prolog_facts,
}

schema_read-ok :
    (m : Fallible String IndexSchema) {sch : IndexSchema} → schema_read m ≡ ok sch → m ≡ ok sch
unfolding schema_read
schema_read-ok (ok sch) h = cc
schema_read-ok (err e) h = cc

body_text-ok : (b : MappingBody) {raw : String} → body_text b ≡ ok raw → b ≡ read raw
unfolding body_text
body_text-ok (read raw) h = cc
body_text-ok (unread e) h = cc

show_with-shown :
    {A : Type 0} (f : IndexSchema → A) (m : Fallible Failure IndexSchema) {a : A}
    → show_with f m ≡ shown a
    → (sch : IndexSchema) × (m ≡ ok sch) × (a ≡ f sch)
show_with-shown f (ok sch) h = (sch, refl, cc)
show_with-shown f (err e) h = cc

module _ {F : Type 0} (to_int : F → ℤ) (decode : String → Fallible String (Json F)) (s : Server F)
    (fetch : String → Fallible Failure String) (r : SchemaRequest) where
  -- The schema of the request: read from the mapping that the client sent, or from the one that the
  -- cluster has for an index that is allowed.
  pub data Obtained (sch : IndexSchema) : Type 0 where
    posted :
        (raw : String)
        → r.is_post ≡ true
        → r.body ≡ read raw
        → from_json to_int decode (index_of to_int decode s fetch r) raw ≡ ok sch
        → Obtained sch
    asked :
        (raw : String)
        → r.is_post ≡ false
        → index_allowed s.opensearch (index_of to_int decode s fetch r) ≡ true
        → fetch (index_of to_int decode s fetch r) ≡ ok raw
        → from_json to_int decode (index_of to_int decode s fetch r) raw ≡ ok sch
        → Obtained sch

  fetched-ok :
      (index : String) {raw : String}
      → fetched to_int decode s fetch index ≡ ok raw
      → (index_allowed s.opensearch index ≡ true) × (fetch index ≡ ok raw)
  unfolding fetched
  fetched-ok index h = elim (Bool-cases (index_allowed s.opensearch index)) [
    | inl e ↦ (e, rw e at h)
    | inr e ↦ (let refused = rw e at h in cc)
  ]

  -- Where the text of the mapping comes from.
  raw_of : Bool → Fallible Failure String
  raw_of post =
      if post
      then body_text r.body
      else fetched to_int decode s fetch (index_of to_int decode s fetch r)

  raw_of-ok :
      (sch : IndexSchema) (raw : String) (post : Bool)
      → r.is_post ≡ post
      → raw_of post ≡ ok raw
      → from_json to_int decode (index_of to_int decode s fetch r) raw ≡ ok sch
      → Obtained sch
  unfolding raw_of
  raw_of-ok sch raw true p h k = posted raw p (body_text-ok r.body h) k
  raw_of-ok sch raw false p h k =
      let (allowed, got) = fetched-ok (index_of to_int decode s fetch r) h in
      asked raw p allowed got k

  schema_for-Obtained :
      (sch : IndexSchema) → schema_for to_int decode s fetch r ≡ ok sch → Obtained sch
  unfolding schema_for raw_of
  schema_for-Obtained sch h =
      let (raw, got, made) = >>=-ok_inv (raw_of r.is_post) _ h in
      raw_of-ok sch raw r.is_post refl got (schema_read-ok _ made)

  Obtained-schema_for :
      (sch : IndexSchema) → Obtained sch → schema_for to_int decode s fetch r ≡ ok sch
  unfolding schema_for schema_read body_text fetched
  Obtained-schema_for sch (posted raw p b m) = rw (p, b, m) refl
  Obtained-schema_for sch (asked raw p a f m) = rw (p, a, f, m) refl

  -- The two handlers of the schema show something exactly if there is a schema of the request: the
  -- mapping that a POST sends in its body reads as that schema, or, for another method, the index
  -- of the request is allowed and the mapping that the cluster gives for it reads as that schema.
  -- What they show is then the analysis of that schema, with the purpose of the default index if
  -- the schema has its name, and the Prolog facts of that schema.
  pub schema_shown :
      (show : ℤ → String) (a : Introspection) (facts : String)
      → ((introspect to_int decode s fetch show r ≡ shown a) ↔ (
          (sch : IndexSchema) × Obtained sch
          × (a
              ≡ analyze show sch
                  (if str_eq sch.name s.opensearch.index then s.opensearch.purpose else ""))))
        × ((prolog_facts to_int decode s fetch show r ≡ shown facts)
            ↔ ((sch : IndexSchema) × Obtained sch × (facts ≡ write show sch)))
  unfolding introspect prolog_facts
  schema_shown show a facts = (iff _ a, iff (write show) facts)
    where
      iff :
          {A : Type 0} (f : IndexSchema → A) (x : A)
          → (show_with f (schema_for to_int decode s fetch r) ≡ shown x)
            ↔ ((sch : IndexSchema) × Obtained sch × (x ≡ f sch))
      iff f x = (
        (λ h.
            let (sch, got, same) = show_with-shown f (schema_for to_int decode s fetch r) h in
            (sch, schema_for-Obtained sch got, same)),
        λ (sch, o, same). rw (Obtained-schema_for sch o, same) refl,
      )
