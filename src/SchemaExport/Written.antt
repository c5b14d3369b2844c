-- ===== src/SchemaExport/Written.antt =====
-- When the export succeeds, and what it leaves behind.
use opensearch_query_gateway.Shared.{
  String, true, false, Option, none, some, ◌≡◌, ◌↔◌, refl, is_empty, str_eq, ◌<>◌, Bool-cases, inl,
  inr, eq_iff,
}
use opensearch_query_gateway.Shared.Fallible.{Fallible, ok, err, >>=-ok_inv}
use opensearch_query_gateway.Schema.{IndexSchema}
use opensearch_query_gateway.Schema.Mapper.{from_json}
use opensearch_query_gateway.Schema.Analysis.{analyze}
use opensearch_query_gateway.Schema.Facts.{write}
use opensearch_query_gateway.Executor.{Client, new_client, get_mapping}
use opensearch_query_gateway.Api.Errors.{Failure}
use opensearch_query_gateway.SchemaExport.{
  Tools, Flags, Output, file, printed, failing, from_cluster, client_config, root_of, from_url,
  raw_mapping, json_text, output_text, written, put, run,
}

failing-ok : {A : Type 0} (m : Fallible String A) {a : A} → failing m ≡ ok a → m ≡ ok a
failing-ok (ok a) h = cc
failing-ok (err e) h = cc

from_cluster-ok : {A : Type 0} (m : Fallible Failure A) {a : A} → from_cluster m ≡ ok a → m ≡ ok a
from_cluster-ok (ok a) h = cc
from_cluster-ok (err e) h = cc

module _ {F B R : Type 0} (tools : Tools F B R) (f : Flags) where
  -- The text of the mapping is that of the file, or that of the cluster; only one of them is named.
  pub data IsSource (raw : String) : Type 0 where
    of_file :
        is_empty f.in_path ≡ false
        → is_empty f.url ≡ true
        → tools.read_file f.in_path ≡ ok raw
        → IsSource raw
    of_cluster :
        (client : Client F B R)
        → is_empty f.in_path ≡ true
        → is_empty f.url ≡ false
        → is_empty f.index ≡ false
        → new_client tools.open_client (client_config f) ≡ ok client
        → get_mapping tools.show_status client f.index ≡ ok raw
        → IsSource raw

  -- The text in the format of the flags.
  pub data IsText (sch : IndexSchema) (content : String) : Type 0 where
    prolog : f.format ≡ "prolog" → content ≡ write tools.show sch → IsText sch content
    json :
        (text : String)
        → f.format ≡ "json"
        → tools.marshal_indent (analyze tools.show sch f.purpose) ≡ ok text
        → content ≡ text <> "\n"
        → IsText sch content

  -- The text is printed, or it is written to the file of the flags.
  pub data IsOutput (content : String) (out : Output) : Type 0 where
    on_stdout : is_empty f.out_path ≡ true → out ≡ printed content → IsOutput content out
    in_file :
        is_empty f.out_path ≡ false
        → tools.write_file f.out_path content ≡ none
        → out ≡ file f.out_path content
        → IsOutput content out

  from_url-IsSource :
      (raw : String)
      → is_empty f.in_path ≡ true
      → is_empty f.url ≡ false
      → is_empty f.index ≡ false
      → from_url tools f ≡ ok raw
      → IsSource raw
  unfolding from_url
  from_url-IsSource raw p q i h =
      let (client, opened, got) =
        >>=-ok_inv (failing (new_client tools.open_client (client_config f))) _ h in
      of_cluster client p q i (failing-ok (new_client tools.open_client (client_config f)) opened)
        (from_cluster-ok (get_mapping tools.show_status client f.index) got)

  raw_mapping-IsSource : (raw : String) → raw_mapping tools f ≡ ok raw → IsSource raw
  unfolding raw_mapping
  raw_mapping-IsSource raw h = elim (Bool-cases (is_empty f.in_path)) [
    | inl p ↦ elim (Bool-cases (is_empty f.url)) [
      | inl q ↦ (let no = rw (p, q) at h in cc)
      | inr q ↦ elim (Bool-cases (is_empty f.index)) [
        | inl i ↦ (let no = rw (p, q, i) at h in cc)
        | inr i ↦ from_url-IsSource raw p q i (rw (p, q, i) at h)
      ]
    ]
    | inr p ↦ elim (Bool-cases (is_empty f.url)) [
      | inl q ↦ of_file p q (failing-ok (tools.read_file f.in_path) (rw (p, q) at h))
      | inr q ↦ (let no = rw (p, q) at h in cc)
    ]
  ]

  IsSource-raw_mapping : (raw : String) → IsSource raw → raw_mapping tools f ≡ ok raw
  unfolding raw_mapping from_url
  IsSource-raw_mapping raw (of_file p q h) = rw (p, q, h) refl
  IsSource-raw_mapping raw (of_cluster client p q i o g) = rw (p, q, i, o, g) refl

  json_text-ok :
      (m : Fallible String String) {content : String}
      → json_text m ≡ ok content
      → (text : String) × (m ≡ ok text) × (content ≡ text <> "\n")
  json_text-ok (ok text) h = (text, refl, cc)
  json_text-ok (err e) h = cc

  output_text-IsText :
      (sch : IndexSchema) (content : String)
      → output_text tools f sch ≡ ok content
      → IsText sch content
  unfolding output_text
  output_text-IsText sch content h = elim (Bool-cases (str_eq f.format "prolog")) [
    | inl p ↦
        (let same : ok (write tools.show sch) ≡ ok content = rw p at h in
          prolog ((eq_iff f.format "prolog").0 p) cc)
    | inr p ↦ elim (Bool-cases (str_eq f.format "json")) [
      | inl j ↦
          (let (text, made, same) =
              json_text-ok (tools.marshal_indent (analyze tools.show sch f.purpose))
                (rw (p, j) at h) in
            json text ((eq_iff f.format "json").0 j) made same)
      | inr j ↦ (let no = rw (p, j) at h in cc)
    ]
  ]

  IsText-output_text :
      (sch : IndexSchema) (content : String)
      → IsText sch content
      → output_text tools f sch ≡ ok content
  unfolding output_text
  IsText-output_text sch content (prolog p same) = rw (p, same) refl
  IsText-output_text sch content (json text j made same) = rw (j, made, same) refl

  put-IsOutput :
      (content : String) (out : Output) → put tools f content ≡ ok out → IsOutput content out
  unfolding put
  put-IsOutput content out h = elim (Bool-cases (is_empty f.out_path)) [
    | inl p ↦ (let same : ok (printed content) ≡ ok out = rw p at h in on_stdout p cc)
    | inr p ↦ in_written p (tools.write_file f.out_path content) refl (rw p at h)
  ]
    where
      in_written :
          is_empty f.out_path ≡ false
          → (e : Option String) → tools.write_file f.out_path content ≡ e
          → written f.out_path content e ≡ ok out
          → IsOutput content out
      in_written p none k h = in_file p k cc
      in_written p (some e) k h = cc

  IsOutput-put :
      (content : String) (out : Output) → IsOutput content out → put tools f content ≡ ok out
  unfolding put
  IsOutput-put content out (on_stdout p same) = rw (p, same) refl
  IsOutput-put content out (in_file p w same) = rw (p, w, same) refl

  -- The export ends well exactly in this way: it reads a mapping from the file or from the cluster,
  -- of which the flags name exactly one, the cluster with an index; the mapping reads as a schema
  -- under the root's name; the text is the schema's Prolog facts or its encoded analysis and a line
  -- feed, as the format says, which is one of the two; and the text is printed, or written to the
  -- output file without an error if the flags name one.
  pub run_iff :
      (out : Output)
      → (run tools f ≡ ok out) ↔ (
          (raw : String) × (sch : IndexSchema) × (content : String) × IsSource raw
          × (from_json tools.to_int tools.decode (root_of f) raw ≡ ok sch)
          × IsText sch content
          × IsOutput content out)
  unfolding run
  run_iff out = (
    (λ h.
        let (raw, source, h₁) = >>=-ok_inv (raw_mapping tools f) _ h in
        let (sch, made, h₂) =
          >>=-ok_inv (failing (from_json tools.to_int tools.decode (root_of f) raw)) _ h₁ in
        let (content, text, h₃) = >>=-ok_inv (output_text tools f sch) _ h₂ in
        (
          raw,
          sch,
          content,
          raw_mapping-IsSource raw source,
          failing-ok (from_json tools.to_int tools.decode (root_of f) raw) made,
          output_text-IsText sch content text,
          put-IsOutput content out h₃,
        )),
    λ (raw, sch, content, source, made, text, output).
        rw (IsSource-raw_mapping raw source, made, IsText-output_text sch content text)
          (IsOutput-put content out output),
  )
