-- ===== src/Api/Server/Guards.antt =====
-- Which callers can change the platform's resources through the corporate listener of
-- internal/api/server.go, and how.
use planless.Prelude.{
  subst, ◌≡◌, refl, sym, ap, ◌∙◌, String, true, some, ◌==◌, Bool-cases, Option-cases, inl, inr,
}
use planless.Netset.Ip.{Addr}
use planless.Platform.Model.{Caller}
use planless.Platform.Store.{delete, record_entry, resource_view, ResourceView}
use planless.Platform.Store.Writes.{Write, apply}
use planless.Api.Http.{
  Payload, Request, Env, Response, Server, Route, healthz, whoami, get_state, get_state_digest,
  storage, net, put, unmatched,
}
use planless.Api.Targets.{Target, target_of, target_of_existing, authorize_write}
use planless.Api.Answers.{refuse}
use planless.Api.Callers.{caller_of}
use planless.Api.Resources.{put_target, put_resource, delete_resource}
use planless.Api.Server.{serve_common, serve_corp, with_caller, corp_handler}
use planless.Platform.Store.WellFormed.{IsWellFormed}
use planless.Api.Server.Safety.{view, common_keeps}
use planless.Api.Server.Writing.{Asked, put_switch-cases}

-- How a request of the corporate listener can leave the resources: as they were, or with a write or
-- a delete whose scope admits the caller.
pub data Guarded (env : Env) (r : Request) (s : Server) (after : ResourceView) : Type 0 where
  kept : after ≡ view s → Guarded env r s after
  written :
      (addr : Addr) (kind : String) (payload : Payload) (t : Target) (w : Write)
      → r.remote ≡ some addr
      → r.route ≡ Route.put kind
      → r.payload ≡ some payload
      → target_of kind payload ≡ some t
      → Asked env kind payload t w
      → authorize_write s.store.state (caller_of true r addr s.store) t.kind t.name ≡ true
      → after ≡ resource_view (apply env.digest w s.store).state
      → Guarded env r s after
  deleted :
      (addr : Addr) (kind id : String) (t : Target)
      → r.remote ≡ some addr
      → r.route ≡ Route.delete kind id
      → target_of_existing s.store.state kind id ≡ some t
      → authorize_write s.store.state (caller_of true r addr s.store) t.kind t.name ≡ true
      → after ≡ resource_view (delete kind id s.store).0.state
      → Guarded env r s after

abbrev seen : Response × Server → ResourceView
seen x = view x.1

module _ (env : Env) (r : Request) (s : Server) (addr : Addr) (from : r.remote ≡ some addr) where
  abbrev AtView : Response × Server → Type 0
  AtView x = Guarded env r s (view x.1)

  abbrev caller : Caller
  caller = caller_of true r addr s.store

  put_target-Guarded :
      (kind : String) (payload : Payload) (t : Target)
      → r.route ≡ Route.put kind
      → r.payload ≡ some payload
      → target_of kind payload ≡ some t
      → Guarded env r s (view (put_target env r caller kind payload t s).1)
  put_target-Guarded kind payload t at read h =
      elim (Bool-cases (authorize_write s.store.state caller t.kind t.name)) [
        | inr e ↦ kept (unfold put_target in unfold refuse in rw e refl)
        | inl e ↦ elim (put_switch-cases env kind payload s.store t h) [
          | inl (w, asked, k) ↦
              written addr kind payload t w from at read h asked e (
                unfold put_target in
                unfold record_entry in unfold resource_view in rw e (rw k refl))
          | inr (_, k) ↦ kept (unfold put_target in rw e (rw k refl))
        ]
      ]

  put_resource-Guarded :
      (kind : String)
      → r.route ≡ Route.put kind
      → Guarded env r s (view (put_resource env r caller kind s).1)
  unfolding put_resource put_target
  put_resource-Guarded kind at = elim (Option-cases r.payload) [
    | inl n ↦ kept (unfold put_resource in rw n refl)
    | inr (payload, h) ↦ elim (Option-cases (target_of kind payload)) [
      | inl n ↦ kept (unfold put_resource in unfold refuse in rw h (rw (n, put_resource) refl))
      | inr (t, k) ↦
          let p : put_resource env r caller kind s ≡ put_target env r caller kind payload t s =
            rw (h, put_resource) (rw (k, put_resource) refl) in
          subst AtView (sym p) (put_target-Guarded kind payload t at h k)
    ]
  ]

  delete_resource-Guarded :
      (kind id : String)
      → IsWellFormed s.store
      → r.route ≡ Route.delete kind id
      → Guarded env r s (view (delete_resource r caller kind id s).1)
  unfolding delete_resource resource_view
  delete_resource-Guarded kind id v at =
      elim (Option-cases (target_of_existing s.store.state kind id)) [
        | inl n ↦ kept (unfold refuse in rw (n, delete_resource) refl)
        | inr (t, h) ↦ elim (Bool-cases (authorize_write s.store.state caller t.kind t.name)) [
          | inr e ↦ kept (unfold refuse in rw (h, delete_resource) (rw e refl))
          | inl e ↦ elim (Bool-cases (delete kind id s.store).1) [
            | inr f ↦
                deleted addr kind id t from at h e
                  (unfold refuse in rw (h, delete_resource) (rw e (rw f refl)))
            | inl f ↦ deleted addr kind id t from at h e (
                unfold record_entry in
                unfold resource_view in rw (h, delete_resource) (rw e (rw f refl)))
          ]
        ]
      ]

  serve_corp-Guarded :
      IsWellFormed s.store
      → (route : Route) → r.route ≡ route
      → Guarded env r s (view (serve_corp env r caller s).1)
  unfolding serve_corp
  serve_corp-Guarded v healthz e = kept (rw e refl)
  serve_corp-Guarded v whoami e = kept (rw e refl)
  serve_corp-Guarded v get_state e = kept (rw e refl)
  serve_corp-Guarded v get_state_digest e = kept (rw e refl)
  serve_corp-Guarded v (put kind) e =
      let p : serve_corp env r caller s ≡ put_resource env r caller kind s = rw e refl in
      subst AtView (sym p) (put_resource-Guarded kind e)
  serve_corp-Guarded v (Route.delete kind id) e =
      let p : serve_corp env r caller s ≡ delete_resource r caller kind id s = rw e refl in
      subst AtView (sym p) (delete_resource-Guarded kind id v e)
  serve_corp-Guarded v (storage bucket key) e =
      let p : serve_corp env r caller s ≡ serve_common env r caller s = rw e refl in
      kept (ap seen p ∙ common_keeps env r caller s (storage bucket key) e)
  serve_corp-Guarded v (net workload port path) e =
      let p : serve_corp env r caller s ≡ serve_common env r caller s = rw e refl in
      kept (ap seen p ∙ common_keeps env r caller s (net workload port path) e)
  serve_corp-Guarded v (unmatched status) e = kept (rw (e, serve_common) refl)

-- From a well-formed store, a request to the corporate listener leaves the digested resources as
-- they were, or the caller that the connection shows may write in the scope of a target, and the
-- resources are those after the one write that the payload asks for under the kind of the route,
-- the payload naming that target, or after the one delete of the kind and identity of the route,
-- which name that target.
pub corp_handler-Guarded :
    (env : Env) (r : Request) (s : Server)
    → IsWellFormed s.store
    → Guarded env r s (view (corp_handler env r s).1)
unfolding corp_handler with_caller refuse
corp_handler-Guarded env r s v = elim (Option-cases r.remote) [
  | inl n ↦ kept (rw n refl)
  | inr (addr, h) ↦
      let c = caller_of true r addr s.store in
      elim (Bool-cases (c.segment == "")) [
        | inl e ↦ kept (rw h (rw e refl))
        | inr e ↦
            let p : corp_handler env r s ≡ serve_corp env r c s = rw h (rw e refl) in
            subst (λ (x : Response × Server). Guarded env r s (view x.1)) (sym p)
              (serve_corp-Guarded env r s addr h v r.route refl)
      ]
]
