-- ===== src/Api/Server.antt =====
-- The handlers of internal/api/server.go. A handler takes the server and gives its response and the
-- new server.
pub mod Outcome
pub mod Writing
pub mod Handlers
pub mod Safety
pub mod Guards
pub mod Reads
pub mod Replacing
use Prim.Native.Char.{code}
use Prim.Native.String
use planless.Prelude.{
  ℕ, ◌+◌, ◌/◌, ◌%◌, ◌^◌, String, Bool, true, false, not, ◌&&◌, Option, none, some, List, [], ◌∷◌,
  ◌++◌, if◌then◌else◌, ltb, ◌=?◌, ◌==◌, take,
}
use planless.Netset.Ip.{Addr, v4, v6, zero_addr, is_space}
use planless.Platform.Model.{
  Bucket, Object, Grant, Workload, NetworkRule, Port, Caller, principal_of,
}
use planless.Platform.Store.{
  Store, segment, known_principal, object, put_object, put_bucket, put_grant, put_workload,
  put_network_rule, delete, record_entry, resource_view,
}
use planless.Platform.Authz.{
  Decision, Reason, authorize_object_read, authorize_connect, unknown_segment, not_found, no_grant,
}
use planless.Api.Http.{
  Payload, ObjectPayload, Method, get, head, other, Route, healthz, whoami, get_state,
  get_state_digest, storage, net, put, unmatched, Request, Outgoing, Reply, Env, Body, Response,
  Class, reason, unparsable_source_address, Event, access_refused, change, Server,
}
use planless.Api.Targets.{slash, Target, target_of, target_of_existing, authorize_write}
use planless.Api.Answers.{respond, refuse, recorded}
use planless.Api.Resources.{put_resource, delete_resource}
use planless.Api.Callers.{no_caller, principal_for, caller_of}

-- `getObject`.
unfoldable pub get_object : Request → Caller → String → String → Server → Response × Server
unfolding refuse authorize_object_read object
get_object r c bucket key s =
    let decision = authorize_object_read s.store.state c bucket key in
    let name = String.◌++◌ bucket (String.◌++◌ "/" key) in
    if not decision.allowed
    then refuse r c (reason decision.reason) name s
    else elim (object s.store bucket key) [
      | none ↦ refuse r c (reason not_found) name s
      | some o ↦ (respond 200 (Body.object o.content_type o.content_digest decision.rule o.body), s)
    ]

-- `maxBody`, which `io.LimitReader` cuts requests and responses at.
abbrev pub max_body : ℕ
max_body = 1048576

abbrev pub is_write : Method → Bool
is_write get = false
is_write head = false
is_write other = true

-- `connect`, after the exchange with the workload.
unfoldable pub answer : Request → Caller → String → String → Reply → Server → Response × Server
unfolding record_entry
answer r c name rule reply s = elim reply.body [
  | none ↦ (respond 502 (Body.result "workload_unreachable"), s)
  | some out ↦ (
    respond reply.status (Body.proxied reply.content_type rule (take max_body out)),
    if not (reply.change == "") && ltb reply.status 300 && is_write r.method
        then recorded "workload.change" name c reply.change s
        else s,
  )
]

-- What `connect` makes of the exchange with the workload.
abbrev pub exchanged :
    Request → Caller → String → String → Option Reply → Server → Response × Server
exchanged r c name rule none s = (respond 502 (Body.result "workload_unreachable"), s)
exchanged r c name rule (some reply) s = answer r c name rule reply s

-- What `connect` sends to the workload.
abbrev pub outgoing : Request → Caller → Workload → Port → String → List ℕ → Outgoing
outgoing r c w p path body = record {
  method = r.method;
  address = w.address;
  port = p.number;
  path = path;
  body = take max_body body;
  caller_principal = principal_of c;
  caller_segment = c.segment;
  content_type = r.content_type;
}

-- `connect`.
unfoldable pub connect :
    Env → Request → Caller → String → String → String → Server → Response × Server
unfolding refuse authorize_connect answer
connect env r c workload port path s =
    let (decision, wl, p) = authorize_connect s.store.state c workload port in
    let name = String.◌++◌ workload (String.◌++◌ ":" port) in
    if not decision.allowed then refuse r c (reason decision.reason) name s else elim r.body [
      | none ↦ (respond 400 (Body.result "unreadable_request"), s)
      | some body ↦ exchanged r c name decision.rule (env.workload (outgoing r c wl p path body)) s
    ]

-- `getStateDigest`.
unfoldable pub state_digest : Env → Server → Response
unfolding resource_view
state_digest env s = elim (env.state_digest (resource_view s.store.state)) [
  | none ↦ respond 500 (Body.result "state_digest_failed")
  | some digest ↦ elim (env.ledger_digest s.store.state.ledger) [
    | none ↦ respond 500 (Body.result "state_digest_failed")
    | some ledger ↦ respond 200 (Body.digests digest ledger)
  ]
]

-- What both listeners serve.
unfoldable pub serve_common : Env → Request → Caller → Server → Response × Server
unfolding get_object connect
serve_common env r c s = elim r.route [
  | healthz ↦ (respond 200 Body.status_ok, s)
  | whoami ↦ (respond 200 (Body.caller c.segment (principal_of c)), s)
  | storage bucket key ↦ get_object r c bucket key s
  | net workload port path ↦ connect env r c workload port path s
  | unmatched status ↦ (respond status Body.no_route, s)
  | _ ↦ (respond 404 Body.no_route, s)
]

-- The mux of `CorpHandler`.
unfoldable pub serve_corp : Env → Request → Caller → Server → Response × Server
unfolding serve_common put_resource delete_resource state_digest
serve_corp env r c s = elim r.route [
  | get_state ↦ (respond 200 (Body.state s.store.state), s)
  | get_state_digest ↦ (state_digest env s, s)
  | put kind ↦ put_resource env r c kind s
  | Route.delete kind id ↦ delete_resource r c kind id s
  | _ ↦ serve_common env r c s
]

abbrev pub Handler : Type 0
Handler = Request → Caller → Server → Response × Server

-- `withCaller`.
unfoldable pub with_caller : Handler → Bool → Request → Server → Response × Server
unfolding refuse principal_for segment
with_caller next allow_principal r s = elim r.remote [
  | none ↦ refuse r no_caller unparsable_source_address "" s
  | some addr ↦
      let c = caller_of allow_principal r addr s.store in
      if c.segment == "" then refuse r c (reason unknown_segment) "" s else next r c s
]

-- `CorpHandler` and `EdgeHandler`.
unfoldable pub corp_handler : Env → Request → Server → Response × Server
unfolding with_caller serve_corp
corp_handler env = with_caller (serve_corp env) true

unfoldable pub edge_handler : Env → Request → Server → Response × Server
unfolding with_caller serve_common
edge_handler env = with_caller (serve_common env) false
