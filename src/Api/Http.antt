-- ===== src/Api/Http.antt =====
-- Requests, responses and the state of internal/api/server.go. What `net/http` and `encoding/json`
-- make of the wire is the request's content: the peer's address as `netip.ParseAddr` reads it, the
-- route that the mux chooses, and the decoded body, each an `Option` where that can fail.
use planless.Prelude.{ℕ, ℤ, String, Option, List}
use planless.Netset.Ip.{Addr}
use planless.Platform.Model.{Bucket, Grant, Workload, NetworkRule, LedgerEntry, State}
use planless.Platform.Store.{Store, ResourceView}
use planless.Platform.Authz.{Reason}

-- `objectPayload`.
pub record ObjectPayload : Type 0 where
  pub bucket : String
  pub key : String
  pub content_type : String
  pub body_base64 : String

-- `resourcePayload`.
pub record Payload : Type 0 where
  pub bucket : Option Bucket
  pub object : Option ObjectPayload
  pub grant : Option Grant
  pub workload : Option Workload
  pub network_rule : Option NetworkRule

pub data Method : Type 0 where
  get head other : Method

-- The patterns that `CorpHandler` registers; `EdgeHandler` registers those of `healthz`, `whoami`,
-- `storage` and `net` alone. Any other request is `unmatched`, with
-- the 404 or 405 of the mux itself.
pub data Route : Type 0 where
  healthz whoami get_state get_state_digest : Route
  storage : (bucket key : String) → Route
  net : (workload port path : String) → Route
  put : (kind : String) → Route
  delete : (kind id : String) → Route
  unmatched : (status : ℕ) → Route

pub record Request : Type 0 where
  pub remote : Option Addr
  pub asserted_principal : String
  pub method : Method
  pub path : String
  pub route : Route
  pub content_type : String
  pub payload : Option Payload
  pub body : Option (List ℕ)

-- What a workload is sent, and what it answers.
pub record Outgoing : Type 0 where
  pub method : Method
  pub address : String
  pub port : ℤ
  pub path : String
  pub body : List ℕ
  pub caller_principal : String
  pub caller_segment : String
  pub content_type : String

pub record Reply : Type 0 where
  pub status : ℕ
  pub content_type : String
  pub change : String
  pub body : Option (List ℕ)

-- What the handlers call that is not modelled: SHA-256, the digests of internal/canon over a state, the
-- decoding of base64, and the workload behind the network, where `none` is a failed exchange.
pub record Env : Type 0 where
  pub digest : List ℕ → String
  pub state_digest : ResourceView → Option String
  pub ledger_digest : List LedgerEntry → Option String
  pub decode_base64 : String → Option (List ℕ)
  pub workload : Outgoing → Option Reply

pub data Body : Type 0 where
  status_ok : Body
  caller : (segment principal : String) → Body
  state : State → Body
  digests : (digest ledger_digest : String) → Body
  object : (content_type digest rule : String) → List ℕ → Body
  proxied : (content_type rule : String) → List ℕ → Body
  applied : (kind id : String) → Body
  deleted : (kind id : String) → Body
  result : String → Body
  no_route : Body
  panicked : Body

pub record Response : Type 0 where
  pub status : ℕ
  pub body : Body

-- The class of an audit event.
pub data Class : Type 0 where
  reason : Reason → Class
  unparsable_source_address : Class

-- The structured log. A correlation id is the scenario with the number.
pub data Event : Type 0 where
  access_refused :
      (correlation : ℕ) (class : Class) (resource principal segment path : String) → Event
  change : (entry : LedgerEntry) → Event

-- `Server`: the store, the count of refusals, and what was logged, oldest first.
pub record Server : Type 0 where
  pub store : Store
  pub seq : ℕ
  pub log : List Event
