-- ===== src/Api/Resources.antt =====
-- The typed writes of internal/api/server.go: `putResource` and `deleteResource`.
use planless.Prelude.{String, not, Option, none, some, [], if◌then◌else◌, ◌==◌}
use planless.Platform.Model.{Caller}
use planless.Platform.Store.{
  Store, put_object, put_bucket, put_grant, put_workload, put_network_rule, delete, record_entry,
}
use planless.Platform.Authz.{not_found, no_grant}
use planless.Api.Http.{Payload, ObjectPayload, Request, Env, Body, Response, reason, Server}
use planless.Api.Targets.{slash, Target, target_of, target_of_existing, authorize_write}
use planless.Api.Answers.{respond, refuse, recorded}

-- How the switch of `putResource` ends: with the new store, with a body that is no base64, with a
-- kind that it does not list, or with a nil pointer.
pub data Switch : Type 0 where
  stored : Store → Switch
  bad_body unlisted nil_pointer : Switch

abbrev pub put_payload_object : Env → ObjectPayload → Store → Switch
put_payload_object env o st = elim (env.decode_base64 o.body_base64) [
  | none ↦ bad_body
  | some body ↦ stored (
      put_object env.digest
        (record {
          bucket = o.bucket;
          key = o.key;
          content_type = o.content_type;
          size = 0;
          content_digest = "";
          body = [];
        })
        body st)
]

-- A dereference of a field that may be nil.
abbrev pub with {ℓ} : {A : Type ℓ} → Option A → (A → Switch) → Switch
with none f = nil_pointer
with (some a) f = f a

unfoldable pub put_switch : Env → String → Payload → Store → Switch
unfolding put_object put_bucket put_grant put_workload put_network_rule
put_switch env kind p st =
    if kind == "bucket"
    then with p.bucket (λ b. stored (put_bucket b st))
    else if kind == "object"
    then with p.object (λ o. put_payload_object env o st)
    else if kind == "grant"
    then with p.grant (λ g. stored (put_grant g st))
    else if kind == "workload"
    then with p.workload (λ w. stored (put_workload w st))
    else if kind == "network_rule"
    then with p.network_rule (λ n. stored (put_network_rule n st))
    else unlisted

-- `putResource`, from the target on.
unfoldable pub put_target :
    Env → Request → Caller → String → Payload → Target → Server → Response × Server
unfolding refuse authorize_write put_switch record_entry
put_target env r c kind payload t s =
    if not (authorize_write s.store.state c t.kind t.name)
    then refuse r c (reason no_grant) (slash t.kind t.name) s
    else elim (put_switch env kind payload s.store) [
      | stored store ↦ (
        respond 200 (Body.applied kind t.identity),
        recorded "resource.put" (slash kind t.identity) c "" (record s { store = store }),
      )
      | bad_body ↦ (respond 400 (Body.result "unparsable_resource"), s)
      | unlisted ↦ refuse r c (reason not_found) kind s
      | nil_pointer ↦ (respond 500 Body.panicked, s)
    ]

-- `putResource`.
unfoldable pub put_resource : Env → Request → Caller → String → Server → Response × Server
unfolding refuse put_target
put_resource env r c kind s = elim r.payload [
  | none ↦ (respond 400 (Body.result "unparsable_resource"), s)
  | some payload ↦ elim (target_of kind payload) [
    | none ↦ refuse r c (reason not_found) kind s
    | some t ↦ put_target env r c kind payload t s
  ]
]

-- `deleteResource`.
unfoldable pub delete_resource : Request → Caller → String → String → Server → Response × Server
unfolding refuse authorize_write delete record_entry
delete_resource r c kind id s = elim (target_of_existing s.store.state kind id) [
  | none ↦ refuse r c (reason not_found) (slash kind id) s
  | some t ↦
      if not (authorize_write s.store.state c t.kind t.name)
      then refuse r c (reason no_grant) (slash t.kind t.name) s
      else (let (store, done) = delete kind id s.store in
          if not done
          then refuse r c (reason not_found) (slash kind id) (record s { store = store })
          else (
            respond 200 (Body.deleted kind id),
            recorded "resource.delete" (slash kind id) c "" (record s { store = store }),
          ))
]
