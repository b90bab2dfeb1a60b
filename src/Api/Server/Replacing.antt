-- ===== src/Api/Server/Replacing.antt =====
-- Which resource a put replaces: `putResource` of internal/api/server.go looks at the scope of what is
-- written, `PutGrant` at the identity alone.
use planless.Prelude.{◌≡◌, ◌≢◌, refl, ap, ◌∙◌, true, some, List, ◌==◌, find, text_eq_refl, text_ne}
use planless.Ordered.Extension.{find-put}
use planless.Ordered.Lookup.{same-IsClass}
use planless.Platform.Model.{Grant, Caller}
use planless.Platform.Store.{Store, put_grant, record_entry}
use planless.Platform.Store.Orders.{grant_order}
use planless.Platform.Store.WellFormed.{IsWellFormed}
use planless.Platform.Store.Writes.{Write, apply, apply_lem}
use planless.Api.Http.{Payload, Request, Env, Response, Server}
use planless.Api.Targets.{Target, target_of, authorize_write}
use planless.Api.Resources.{put_switch, put_target, put_resource, stored}

-- After a grant is put, its id names it.
put_grant_found :
    (env : Env) (g : Grant) (s : Store)
    → IsWellFormed s
    → find (λ x. x.id == g.id) (put_grant g s).state.grants ≡ some g
unfolding apply
put_grant_found env g s w =
    ap (λ (t : Store). find (λ x. x.id == g.id) t.state.grants)
      (apply_lem env.digest (Write.grant g) w)
    ∙ find-put grant_order (λ x. x.id == g.id) g s.state.grants (same-IsClass grant_order g)
        w.ordered.grants
    ∙ rw (text_eq_refl g.id) refl

-- On a well-formed store, after a put of a grant that has an id and a resource whose scope the
-- caller may write, the id names this grant, whatever resource the grant with that id was for.
pub put_resource-grant :
    (env : Env) (r : Request) (c : Caller) (payload : Payload) (g : Grant) (s : Server)
    → IsWellFormed s.store
    → r.payload ≡ some payload
    → payload.grant ≡ some g
    → g.id ≢ ""
    → g.resource_name ≢ ""
    → authorize_write s.store.state c g.resource_kind g.resource_name ≡ true
    → find (λ x. x.id == g.id) (put_resource env r c "grant" s).1.store.state.grants ≡ some g
unfolding put_resource put_target record_entry
put_resource-grant env r c payload g s w read has id name allowed =
    let t : Target = record { kind = g.resource_kind; name = g.resource_name; identity = g.id } in
    let named : target_of "grant" payload ≡ some t =
      unfold target_of in rw has (rw (text_ne id) (rw (text_ne name) refl)) in
    let targeted : put_resource env r c "grant" s ≡ put_target env r c "grant" payload t s =
      rw (read, put_resource) (rw (named, put_resource) refl) in
    let switched : put_switch env "grant" payload s.store ≡ stored (put_grant g s.store) =
      unfold put_switch in rw has refl in
    let kept : (put_target env r c "grant" payload t s).1.store.state.grants
        ≡ (put_grant g s.store).state.grants =
      rw (allowed, put_target) (rw (switched, put_target) refl) in
    ap (λ (x : Response × Server). find (λ y. y.id == g.id) x.1.store.state.grants) targeted
    ∙ ap (λ (x : List Grant). find (λ y. y.id == g.id) x) kept
    ∙ put_grant_found env g s.store w
