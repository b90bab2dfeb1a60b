-- ===== src/Api/Server/Writing.antt =====
-- What `putResource` and `deleteResource` of internal/api/server.go end in.
use planless.Prelude.{
  ℕ, ◌≡◌, refl, ap, ◌∙◌, String, Bool, true, false, none, some, List, [], if◌then◌else◌, Bool-cases,
  Option-cases, inl, inr, ◌⊎◌,
}
use planless.Platform.Model.{Bucket, Object, Grant, Workload, NetworkRule, Caller}
use planless.Platform.Store.{Store, delete}
use planless.Platform.Store.WellFormed.{IsWellFormed}
use planless.Platform.Store.Writes.{Write, apply, apply_lem, apply-IsWellFormed}
use planless.Platform.Store.Writes
use planless.Platform.Store.Deletion.{delete-Deletes, KindCase, Kind-cases}
use planless.Platform.Authz.{not_found}
use planless.Api.Http.{Payload, ObjectPayload, Request, Env, Body, reason, Server, Route}
use planless.Api.Targets.{slash, Target, target_of, target_of_existing, authorize_write}
use planless.Api.Answers.{respond, refuse, recorded}
use planless.Api.Resources.{
  stored, bad_body, put_payload_object, put_switch, put_target, put_resource, delete_resource,
}
use planless.Api.Server.Outcome.{
  like, unchanged, Outcome, put_denied, put_unnamed, delete_denied, delete_missing, delete_unnamed,
  refuse-Outcome, recorded-Outcome, result_ne,
}

-- The object that a payload asks to store; the store fills in the digest and the size.
abbrev pub object_of : ObjectPayload → Object
object_of o = record {
  bucket = o.bucket;
  key = o.key;
  content_type = o.content_type;
  size = 0;
  content_digest = "";
  body = [];
}

-- The write that a payload asks for under a kind, and the target whose scope it needs.
pub data Asked (env : Env) (kind : String) (payload : Payload) (t : Target) : Write → Type 0 where
  bucket :
      (b : Bucket)
      → kind ≡ "bucket"
      → payload.bucket ≡ some b
      → record { kind = "bucket"; name = b.name; identity = b.name } ≡ t
      → Asked env kind payload t (Write.bucket b)
  object :
      (o : ObjectPayload) (body : List ℕ)
      → kind ≡ "object"
      → payload.object ≡ some o
      → env.decode_base64 o.body_base64 ≡ some body
      → record { kind = "bucket"; name = o.bucket; identity = slash o.bucket o.key } ≡ t
      → Asked env kind payload t (Write.object (object_of o) body)
  grant :
      (g : Grant)
      → kind ≡ "grant"
      → payload.grant ≡ some g
      → record { kind = g.resource_kind; name = g.resource_name; identity = g.id } ≡ t
      → Asked env kind payload t (Write.grant g)
  workload :
      (w : Workload)
      → kind ≡ "workload"
      → payload.workload ≡ some w
      → record { kind = "workload"; name = w.name; identity = w.name } ≡ t
      → Asked env kind payload t (Write.workload w)
  network_rule :
      (n : NetworkRule)
      → kind ≡ "network_rule"
      → payload.network_rule ≡ some n
      → record { kind = "workload"; name = n.workload; identity = n.id } ≡ t
      → Asked env kind payload t (Write.network_rule n)

-- An object is put, and its body is no base64.
pub record Undecodable (env : Env) (kind : String) (payload : Payload) : Type 0 where
  pub is_object : kind ≡ "object"
  pub object : ObjectPayload
  pub given : payload.object ≡ some object
  pub undecoded : env.decode_base64 object.body_base64 ≡ none

-- The two ways in which the switch of `putResource` ends for a payload that names a target.
abbrev pub Switched : Env → String → Payload → Target → Store → Type 0
Switched env kind payload t st =
    ((w : Write) × Asked env kind payload t w
      × (put_switch env kind payload st ≡ stored (apply env.digest w st)))
    ⊎ (Undecodable env kind payload × (put_switch env kind payload st ≡ bad_body))

-- The target of a payload whose names are not empty.
named : (empty : Bool) (t u : Target) → (if empty then none else some t) ≡ some u → t ≡ u
named true t u h = absurd (cc h)
named false t u h = cc h

module _ (env : Env) (kind : String) (payload : Payload) (st : Store) (t : Target) where
  put_switch-object :
      (o : ObjectPayload)
      → kind ≡ "object"
      → payload.object ≡ some o
      → record { kind = "bucket"; name = o.bucket; identity = slash o.bucket o.key } ≡ t
      → Switched env kind payload t st
  unfolding put_switch apply
  put_switch-object o p h k = elim (Option-cases (env.decode_base64 o.body_base64)) [
    | inl n ↦ inr (
      record { is_object = p; object = o; given = h; undecoded = n },
      rw p (rw h (rw (n, put_payload_object) refl)),
    )
    | inr (body, d) ↦ inl (
      Write.object (object_of o) body,
      Asked.object o body p h d k,
      rw p (rw h (rw (d, put_payload_object) refl)),
    )
  ]

  put_switch-literal :
      KindCase kind → target_of kind payload ≡ some t → Switched env kind payload t st
  unfolding put_switch apply target_of
  put_switch-literal (KindCase.bucket p) h = elim (Option-cases payload.bucket) [
    | inl n ↦ absurd (cc (rw n at (rw p at h)))
    | inr (v, q) ↦
        inl
          (Write.bucket v, Asked.bucket v p q (named _ _ t (rw q at (rw p at h))), rw p (rw q refl))
  ]
  put_switch-literal (KindCase.grant p) h = elim (Option-cases payload.grant) [
    | inl n ↦ absurd (cc (rw n at (rw p at h)))
    | inr (v, q) ↦
        inl (Write.grant v, Asked.grant v p q (named _ _ t (rw q at (rw p at h))), rw p (rw q refl))
  ]
  put_switch-literal (KindCase.network_rule p) h = elim (Option-cases payload.network_rule) [
    | inl n ↦ absurd (cc (rw n at (rw p at h)))
    | inr (v, q) ↦ inl (
      Write.network_rule v,
      Asked.network_rule v p q (named _ _ t (rw q at (rw p at h))),
      rw p (rw q refl),
    )
  ]
  put_switch-literal (KindCase.workload p) h = elim (Option-cases payload.workload) [
    | inl n ↦ absurd (cc (rw n at (rw p at h)))
    | inr (v, q) ↦ inl (
      Write.workload v,
      Asked.workload v p q (named _ _ t (rw q at (rw p at h))),
      rw p (rw q refl),
    )
  ]
  put_switch-literal (KindCase.object p) h = elim (Option-cases payload.object) [
    | inl n ↦ absurd (cc (rw n at (rw p at h)))
    | inr (v, q) ↦ put_switch-object v p q (named _ _ t (rw q at (rw p at h)))
  ]
  put_switch-literal (KindCase.other b g n w o) h =
      absurd (cc (rw o at (rw w at (rw n at (rw g at (rw b at h))))))

-- The switch of a put whose payload names a target stores exactly the resource that the payload
-- has under that kind, which is the one of the target, or it stops at the body of an object that
-- is no base64: no nil field is dereferenced and no kind is left over.
pub put_switch-cases :
    (env : Env) (kind : String) (payload : Payload) (st : Store) (t : Target)
    → target_of kind payload ≡ some t
    → Switched env kind payload t st
put_switch-cases env kind payload st t = put_switch-literal env kind payload st t (Kind-cases kind)

module _ (env : Env) (r : Request) (c : Caller) (s : Server) (w : IsWellFormed s.store) where
  stored-Outcome :
      (kind : String) (t : Target) (write : Write)
      → Outcome r c s (
        respond 200 (Body.applied kind t.identity),
        recorded "resource.put"
            (slash kind t.identity)
            c
            ""
            (record s { store = apply env.digest write s.store }),
      )
  stored-Outcome kind t write =
      let e = apply_lem env.digest write w in
      recorded-Outcome r "resource.put" (slash kind t.identity) c "" s
        (apply env.digest write s.store) _ (apply-IsWellFormed env.digest write s.store w)
        (ap (λ (x : Store). x.seq) e) (ap (λ (x : Store). x.state.ledger) e ∙ ledger_kept write)
        (λ p. cc p)
    where
      ledger_kept :
          (write : Write)
          → (Writes.written env.digest write s.store.state).ledger ≡ s.store.state.ledger
      ledger_kept (Writes.bucket b) = refl
      ledger_kept _ = refl

  put_target-Outcome :
      (kind : String) (payload : Payload) (t : Target)
      → r.route ≡ Route.put kind
      → r.payload ≡ some payload
      → target_of kind payload ≡ some t
      → Outcome r c s (put_target env r c kind payload t s)
  unfolding put_target
  put_target-Outcome kind payload t at given h =
      elim (Bool-cases (authorize_write s.store.state c t.kind t.name)) [
        | inr e ↦ rw e (refuse-Outcome r c _ _ s (put_denied kind payload t at given h e))
        | inl e ↦ elim (put_switch-cases env kind payload s.store t h) [
          | inl (write, _, k) ↦ rw e (rw k (stored-Outcome kind t write))
          | inr (_, k) ↦
              unfold put_target in
              rw e (rw k (unchanged refl (result_ne "unparsable_resource" refl)))
        ]
      ]

  pub put_resource-Outcome :
      (kind : String) → r.route ≡ Route.put kind → Outcome r c s (put_resource env r c kind s)
  unfolding put_resource
  put_resource-Outcome kind at = elim (Option-cases r.payload) [
    | inl n ↦ unchanged (rw n refl) (rw n (result_ne "unparsable_resource" refl))
    | inr (payload, h) ↦ elim (Option-cases (target_of kind payload)) [
      | inl n ↦
          like (refuse r c (reason not_found) kind s) (rw h (rw (n, put_resource) refl))
            (refuse-Outcome r c (reason not_found) kind s (put_unnamed kind payload at h n))
      | inr (t, k) ↦
          like (put_target env r c kind payload t s) (rw h (rw (k, put_resource) refl))
            (put_target-Outcome kind payload t at h k)
    ]
  ]

  delete-Outcome :
      (kind id : String) (t : Target)
      → r.route ≡ Route.delete kind id
      → target_of_existing s.store.state kind id ≡ some t
      → Outcome r c s (delete_resource r c kind id s)
  unfolding delete_resource
  delete-Outcome kind id t at h =
      let d = delete-Deletes kind id s.store w in
      elim (Bool-cases (authorize_write s.store.state c t.kind t.name)) [
        | inr e ↦
            rw (h, delete_resource)
              (rw e (refuse-Outcome r c _ _ s (delete_denied kind id t at h e)))
        | inl e ↦ elim (Bool-cases (delete kind id s.store).1) [
          | inr f ↦
              let same = d.failure f in
              rw (h, delete_resource)
                (rw e (rw f (rw same (refuse-Outcome r c _ _ s (delete_missing kind id at f)))))
          | inl f ↦
              rw (h, delete_resource)
                (rw e (
                  rw f (
                    recorded-Outcome r "resource.delete" (slash kind id) c "" s
                      (delete kind id s.store).0 _ d.valid d.numbers.0 d.numbers.1 (λ p. cc p))))
        ]
      ]

  pub delete_resource-Outcome :
      (kind id : String)
      → r.route ≡ Route.delete kind id
      → Outcome r c s (delete_resource r c kind id s)
  unfolding delete_resource
  delete_resource-Outcome kind id at =
      elim (Option-cases (target_of_existing s.store.state kind id)) [
        | inl n ↦ rw (n, delete_resource) (refuse-Outcome r c _ _ s (delete_unnamed kind id at n))
        | inr (t, h) ↦ delete-Outcome kind id t at h
      ]
