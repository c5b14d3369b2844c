-- ===== src/Executor.antt =====
-- internal/executor/client.go: the client of the cluster. The OpenSearch client, the network and the
-- decoding of JSON are third-party: a record of functions, over bodies of a type `B` and results of
-- a type `R`. A duration is a number of nanoseconds.
use opensearch_query_gateway.Shared.{
  ℕ, String, Bool, Option, none, some, List, [], ◌∷◌, if◌then◌else◌, is_empty, ◌<>◌,
}
use opensearch_query_gateway.Shared.Int.{ℤ, pos, leb_ℤ}
use opensearch_query_gateway.Shared.Fallible.{Fallible, ok, err, ◌>>=◌}
use opensearch_query_gateway.Json.{Json}
use opensearch_query_gateway.Config.{OpenSearchConfig}
use opensearch_query_gateway.Api.Errors.{ExecutorError, Failure, opensearch, other}

pub record Reply (B : Type 0) : Type 0 where
  pub status : ℕ
  pub body : B

pub record Cause : Type 0 where
  pub type : String
  pub reason : String

-- The struct into which `errorFrom` decodes a body.
pub record ErrorBody : Type 0 where
  pub type : String
  pub reason : String
  pub root_cause : List Cause

-- What the client calls: `Do` of the three requests, with the time they may take, `IsError`,
-- `io.ReadAll` of a limited reader (what was read, and an error), and the JSON codec.
pub record Transport (F B R : Type 0) : Type 0 where
  pub do_search : ℤ → String → String → Fallible Failure (Reply B)
  pub do_get_mapping : ℤ → String → Fallible Failure (Reply B)
  pub do_ping : ℤ → Fallible Failure (Reply B)
  pub is_error : ℕ → Bool
  pub read_all : ℕ → B → String × Option String
  pub marshal : Json F → Fallible String String
  pub decode_result : B → Fallible String R
  pub decode_error : String → Option ErrorBody

pub record Client (F B R : Type 0) : Type 0 where
  pub os : Transport F B R
  pub index : String
  pub timeout : ℤ

-- `Error.Error`; `show` is how `fmt` writes a status.
unfoldable pub error_text : (ℕ → String) → ExecutorError → String
error_text show e =
    if is_empty e.reason
    then "opensearch error " <> show e.status
    else "opensearch error " <> show e.status <> " (" <> e.type <> "): " <> e.reason

-- `open` is `opensearch.NewClient`.
unfoldable pub new_client :
    {F B R : Type 0}
    → (OpenSearchConfig → Fallible String (Transport F B R))
    → OpenSearchConfig
    → Fallible String (Client F B R)
new_client open_client cfg = do
  os ← open_client cfg
  ok (record {
    os = os;
    index = cfg.index;
    timeout = if leb_ℤ cfg.request_timeout (pos 0) then pos 10000000000 else cfg.request_timeout;
  })

abbrev root_error : ExecutorError → List Cause → ExecutorError
root_error e [] = e
root_error e (c ∷ cs) =
    if is_empty c.reason then e else record e { type = c.type; reason = c.reason }

-- The error of a response whose body decodes to `body`.
abbrev cause_error : ℕ → Option ErrorBody → ExecutorError
cause_error status none = record { status = status; type = ""; reason = "" }
cause_error status (some body) =
    root_error (record { status = status; type = body.type; reason = body.reason }) body.root_cause

abbrev pub failing : {A : Type 0} → Fallible String A → Fallible Failure A
failing (ok a) = ok a
failing (err e) = err (other e)

abbrev pub opensearch_failure : (ℕ → String) → ExecutorError → Failure
opensearch_failure show e = opensearch e (error_text show e)

abbrev text_read : String × Option String → Fallible Failure String
text_read (text, none) = ok text
text_read (text, some e) = err (other e)

module _ {F B R : Type 0} (show : ℕ → String) where
  unfoldable pub error_from : Transport F B R → Reply B → ExecutorError
  error_from os res = cause_error res.status (os.decode_error (os.read_all 65536 res.body).0)

  unfoldable pub decode_reply : Transport F B R → Reply B → Fallible Failure R
  unfolding error_from error_text
  decode_reply os res =
      if os.is_error res.status
      then err (opensearch_failure show (error_from os res))
      else failing (os.decode_result res.body)

  -- The index of a request, or the default one.
  abbrev pub index_or_default : Client F B R → String → String
  index_or_default c index = if is_empty index then c.index else index

  unfoldable pub search : Client F B R → String → Json F → Fallible Failure R
  unfolding decode_reply
  search c index body = do
    buf ← failing (c.os.marshal body)
    res ← c.os.do_search c.timeout (index_or_default c index) buf
    decode_reply c.os res

  abbrev mapping_text : Transport F B R → Reply B → Fallible Failure String
  unfolding error_from error_text
  mapping_text os res =
      if os.is_error res.status
      then err (opensearch_failure show (error_from os res))
      else text_read (os.read_all 33554432 res.body)

  unfoldable pub get_mapping : Client F B R → String → Fallible Failure String
  unfolding mapping_text
  get_mapping c index = do
    res ← c.os.do_get_mapping c.timeout (index_or_default c index)
    mapping_text c.os res

  abbrev ping_result : Transport F B R → Reply B → Fallible Failure (Unit {0})
  unfolding error_text
  ping_result os res =
      if os.is_error res.status
      then err (opensearch_failure show (record { status = res.status; type = ""; reason = "" }))
      else ok tt

  unfoldable pub ping : Client F B R → Fallible Failure (Unit {0})
  unfolding ping_result
  ping c = do res ← c.os.do_ping (pos 2000000000); ping_result c.os res
