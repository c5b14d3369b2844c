-- ===== src/Api/Translate/Checked.antt =====
-- What a translation that succeeds has checked.
use mathlib.Core.Path.{subst}
use opensearch_query_gateway.Shared.{true, Option, none, some, ◌≡◌, refl}
use opensearch_query_gateway.Shared.Fallible.{ok, >>=-ok_inv, ok-injective}
use opensearch_query_gateway.Config.{index_allowed}
use opensearch_query_gateway.Query.{Query}
use opensearch_query_gateway.Query.Parse
use opensearch_query_gateway.Query.Parse.{parse}
use opensearch_query_gateway.Query.Walk.{
  clauses_expression, skeleton_expression, walk_clauses_visits,
}
use opensearch_query_gateway.Builder.{Page, build_search}
use opensearch_query_gateway.Api.Errors.{ApiError}
use opensearch_query_gateway.Api.Page.{SearchRequest, guard-ok, page}
use opensearch_query_gateway.Api.Translate.{
  Translation, Server, visit, parsed, unwalked, request_index, check_index, no_walk, walk,
  translate,
}
use opensearch_query_gateway.Api.Translate.Passed.{AllPassed, renamings, walk_list-Good}

-- What a successful translation is made of.
pub record IsSound {F : Type 0} (s : Server F) (req : SearchRequest) (tr : Translation F)
    : Type 0 where
  pub allowed : index_allowed s.opensearch tr.index ≡ true
  pub index : tr.index ≡ request_index s req
  pub page_of : Page
  pub paged : page s.rules s.limits req ≡ ok page_of
  pub ast : Query
  pub parses : parse s.parse_string req.query ≡ Parse.ok ast
  pub checked : Query
  pub same_structure : skeleton_expression checked.root ≡ skeleton_expression ast.root
  pub passed :
      AllPassed s.rules s.builder.time_field
        (clauses_expression ast.root)
        (clauses_expression checked.root)
  pub dsl : tr.dsl ≡ build_search s.floats s.builder checked page_of
  pub normalized :
      tr.normalized
      ≡ renamings s.rules s.builder.time_field
          (clauses_expression ast.root)
          (clauses_expression checked.root)

module _ {F : Type 0} (s : Server F) where
  parsed-ok : (p : Parse.Parsed) {q : Query} → parsed p ≡ ok q → p ≡ Parse.ok q
  unfolding parsed
  parsed-ok (Parse.ok q) h = cc
  parsed-ok (Parse.err Parse.err_empty_query) h = cc
  parsed-ok (Parse.err (Parse.syntax_error e)) h = cc

  unwalked-ok : (e : Option ApiError) {u : Unit {0}} → unwalked tt e ≡ ok u → e ≡ none
  unfolding unwalked
  unwalked-ok none h = refl
  unwalked-ok (some e) h = cc

  -- The walk over the parsed query, when it ends without an error.
  walk_passes :
      (ast : Query)
      → (walk s ast).1.error ≡ none
      → AllPassed s.rules s.builder.time_field
          (clauses_expression ast.root)
          (clauses_expression (walk s ast).0.root)
        × ((walk s ast).1.normalized
            ≡ renamings s.rules s.builder.time_field
                (clauses_expression ast.root)
                (clauses_expression (walk s ast).0.root))
  walk_passes ast h =
      let v = walk_clauses_visits (visit s.rules s.builder.time_field) ast no_walk in
      let g =
        walk_list-Good s.rules s.builder.time_field (clauses_expression ast.root) no_walk
          (rw (← v.1) h) in
      (rw v.0 g.1.0, rw (v.0, v.1) g.1.1)

  of_parts :
      (req : SearchRequest) (p : Page) (ast : Query)
      → index_allowed s.opensearch (request_index s req) ≡ true
      → page s.rules s.limits req ≡ ok p
      → parse s.parse_string req.query ≡ Parse.ok ast
      → (walk s ast).1.error ≡ none
      → IsSound s req (record {
        index = request_index s req;
        query = req.query;
        dsl = build_search s.floats s.builder (walk s ast).0 p;
        normalized = (walk s ast).1.normalized;
      })
  of_parts req p ast allowed paged parses walked = record {
    allowed = allowed;
    index = refl;
    page_of = p;
    paged = paged;
    ast = ast;
    parses = parses;
    checked = (walk s ast).0;
    same_structure = (walk_clauses_visits (visit s.rules s.builder.time_field) ast no_walk).2;
    passed = (walk_passes ast walked).0;
    dsl = refl;
    normalized = (walk_passes ast walked).1;
  }

-- A translation that succeeds is for an allowed index and an accepted page, and its DSL is built
-- from the parsed query with the same structure, in which the rule engine has accepted every
-- clause under the field that it gives for the clause's own (a relative clause as a range over the
-- time field); `normalized_fields` lists the fields that were changed, in the clauses' order.
pub translate-IsSound :
    {F : Type 0} (s : Server F) (req : SearchRequest) (tr : Translation F)
    → translate s req ≡ ok tr
    → IsSound s req tr
unfolding translate
translate-IsSound s req tr h =
    let (u, allowed, h₁) = >>=-ok_inv (check_index s req) _ h in
    let (p, paged, h₂) = >>=-ok_inv (page s.rules s.limits req) _ h₁ in
    let (ast, parses, h₃) = >>=-ok_inv (parsed (parse s.parse_string req.query)) _ h₂ in
    let (v, walked, h₄) = >>=-ok_inv (unwalked tt (walk s ast).1.error) _ h₃ in
    subst (IsSound s req) (ok-injective h₄) (
      of_parts s req p ast (guard-ok (index_allowed s.opensearch (request_index s req)) _ allowed)
        paged (parsed-ok s _ parses) (unwalked-ok s _ walked))
