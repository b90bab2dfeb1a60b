-- ===== src/Api/Server/Safety.antt =====
-- What the two listeners of internal/api/server.go can do to the platform's resources.
use Prim.Native.String
use planless.Prelude.{
  ◌≡◌, refl, ap, ◌∙◌, String, false, not, ◌&&◌, Option, none, some, ltb, ◌==◌, Bool-cases,
  Option-cases, inl, inr,
}
use planless.Platform.Model.{Caller}
use planless.Platform.Store.{object, record_entry, resource_view, ResourceView}
use planless.Platform.Authz.{authorize_object_read, authorize_connect}
use planless.Api.Http.{
  Request, Reply, Env, Response, Server, Route, healthz, whoami, get_state, get_state_digest,
  storage, net, put, unmatched,
}
use planless.Api.Answers.{refuse}
use planless.Api.Callers.{caller_of, principal_for}
use planless.Api.Server.{
  get_object, is_write, answer, exchanged, outgoing, connect, serve_common, with_caller,
  edge_handler,
}

-- The resources that a server holds, its ledger set aside.
abbrev pub view : Server → ResourceView
view s = resource_view s.store.state

-- What the edge listener does is independent of the principal that a request asserts.
pub edge_handler-asserted_principal :
    (env : Env) (r : Request) (x : String) (s : Server)
    → edge_handler env (record r { asserted_principal = x }) s ≡ edge_handler env r s
unfolding edge_handler with_caller principal_for serve_common get_object connect refuse
edge_handler-asserted_principal env r x s = refl

module _ (env : Env) (r : Request) (c : Caller) (s : Server) where
  get_object_keeps : (bucket key : String) → view (get_object r c bucket key s).1 ≡ view s
  unfolding get_object refuse
  get_object_keeps bucket key =
      elim (Bool-cases (authorize_object_read s.store.state c bucket key).allowed) [
        | inr e ↦ rw e refl
        | inl e ↦ elim (Option-cases (object s.store bucket key)) [
          | inl n ↦ rw e (rw n refl)
          | inr (o, h) ↦ rw e (rw h refl)
        ]
      ]

  answer_keeps :
      (name rule : String) (reply : Reply) → view (answer r c name rule reply s).1 ≡ view s
  unfolding answer record_entry resource_view
  answer_keeps name rule reply = elim (Option-cases reply.body) [
    | inl n ↦ rw n refl
    | inr (out, h) ↦
        elim (Bool-cases (not (reply.change == "") && ltb reply.status 300 && is_write r.method)) [
          | inl e ↦ rw h (rw e refl)
          | inr e ↦ rw h (rw e refl)
        ]
  ]

  exchanged_keeps :
      (name rule : String) (reply : Option Reply)
      → view (exchanged r c name rule reply s).1 ≡ view s
  exchanged_keeps name rule none = refl
  exchanged_keeps name rule (some reply) = answer_keeps name rule reply

  connect_keeps :
      (workload port path : String) → view (connect env r c workload port path s).1 ≡ view s
  unfolding connect refuse
  connect_keeps workload port path =
      let (decision, wl, p) = authorize_connect s.store.state c workload port in
      elim (Bool-cases decision.allowed) [
        | inr e ↦ rw e refl
        | inl e ↦ elim (Option-cases r.body) [
          | inl n ↦ rw e (rw n refl)
          | inr (body, h) ↦ rw e (
              rw h (
                exchanged_keeps (String.◌++◌ workload (String.◌++◌ ":" port)) decision.rule
                  (env.workload (outgoing r c wl p path body))))
        ]
      ]

  pub common_keeps : (route : Route) → r.route ≡ route → view (serve_common env r c s).1 ≡ view s
  unfolding serve_common
  common_keeps healthz e = rw e refl
  common_keeps whoami e = rw e refl
  common_keeps get_state e = rw e refl
  common_keeps get_state_digest e = rw e refl
  common_keeps (storage bucket key) e = rw e (get_object_keeps bucket key)
  common_keeps (net workload port path) e = rw e (connect_keeps workload port path)
  common_keeps (put kind) e = rw e refl
  common_keeps (Route.delete kind id) e = rw e refl
  common_keeps (unmatched status) e = rw e refl

-- The edge listener leaves the digested resources as they were, whatever it is sent.
pub edge_handler_keeps :
    (env : Env) (r : Request) (s : Server) → view (edge_handler env r s).1 ≡ view s
unfolding edge_handler with_caller refuse
edge_handler_keeps env r s = elim (Option-cases r.remote) [
  | inl n ↦ rw n refl
  | inr (addr, h) ↦
      let c = caller_of false r addr s.store in
      elim (Bool-cases (c.segment == "")) [
        | inl e ↦ rw h (rw e refl)
        | inr e ↦
            let p : edge_handler env r s ≡ serve_common env r c s = rw h (rw e refl) in
            ap view (ap (λ (x : Response × Server). x.1) p) ∙ common_keeps env r c s r.route refl
      ]
]
