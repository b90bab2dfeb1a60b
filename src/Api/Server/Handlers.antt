-- ===== src/Api/Server/Handlers.antt =====
-- What the handlers of internal/api/server.go end in, whatever the request.
use Prim.Native.String
use planless.Prelude.{
  ◌≡◌, refl, String, Bool, true, false, ◌==◌, none, some, text_eq→eq, Bool-cases, Option-cases, inl,
  inr,
}
use planless.Netset.Ip.{Addr}
use planless.Platform.Model.{Caller}
use planless.Platform.Store.{resource_view}
use planless.Platform.Store.WellFormed.{IsWellFormed}
use planless.Platform.Authz.{authorize_connect, unknown_segment}
use planless.Api.Http.{
  Request, Response, Env, reason, unparsable_source_address, Server, Route, healthz, whoami,
  get_state, get_state_digest, storage, net, put, unmatched,
}
use planless.Api.Answers.{refuse}
use planless.Api.Resources.{put_resource, delete_resource}
use planless.Api.Callers.{no_caller, caller_of}
use planless.Api.Server.{
  exchanged, get_object, outgoing, connect, state_digest, serve_common, serve_corp, Handler,
  with_caller, corp_handler, edge_handler,
}
use planless.Api.Server.Outcome.{
  Outcome, like, unchanged, unread, outside, connect_denied, refuse-Outcome, result_ne,
  exchanged-Outcome, get_object-Outcome,
}
use planless.Api.Server.Writing.{put_resource-Outcome, delete_resource-Outcome}

module _ (env : Env) (r : Request) (c : Caller) (s : Server) (w : IsWellFormed s.store) where
  pub connect-Outcome :
      (workload port path : String)
      → r.route ≡ net workload port path
      → Outcome r c s (connect env r c workload port path s)
  unfolding connect
  connect-Outcome workload port path at =
      elim (Bool-cases (authorize_connect s.store.state c workload port).0.allowed) [
        | inr e ↦ rw e (refuse-Outcome r c _ _ s (connect_denied workload port path at e))
        | inl e ↦ elim (Option-cases r.body) [
          | inl n ↦ unchanged (rw e (rw n refl)) (rw e (rw n (result_ne "unreadable_request" refl)))
          | inr (body, h) ↦
              let d = authorize_connect s.store.state c workload port in
              let name = String.◌++◌ workload (String.◌++◌ ":" port) in
              let reply = env.workload (outgoing r c d.1 d.2 path body) in
              like (exchanged r c name d.0.rule reply s) (rw e (rw h refl))
                (exchanged-Outcome r c name d.0.rule reply s w)
        ]
      ]

  common_by_route : (route : Route) → r.route ≡ route → Outcome r c s (serve_common env r c s)
  unfolding serve_common
  common_by_route healthz e = unchanged (rw e refl) (rw e (λ p. cc p))
  common_by_route whoami e = unchanged (rw e refl) (rw e (λ p. cc p))
  common_by_route get_state e = unchanged (rw e refl) (rw e (λ p. cc p))
  common_by_route get_state_digest e = unchanged (rw e refl) (rw e (λ p. cc p))
  common_by_route (storage bucket key) e =
      like (get_object r c bucket key s) (rw e refl) (get_object-Outcome r c bucket key s e)
  common_by_route (net workload port path) e =
      like (connect env r c workload port path s) (rw e refl) (connect-Outcome workload port path e)
  common_by_route (put kind) e = unchanged (rw e refl) (rw e (λ p. cc p))
  common_by_route (Route.delete kind id) e = unchanged (rw e refl) (rw e (λ p. cc p))
  common_by_route (unmatched status) e = unchanged (rw e refl) (rw e (λ p. cc p))

  serve_common-Outcome : Outcome r c s (serve_common env r c s)
  serve_common-Outcome = common_by_route r.route refl

  state_digest-Outcome : Outcome r c s (state_digest env s, s)
  unfolding state_digest
  state_digest-Outcome = elim (Option-cases (env.state_digest (resource_view s.store.state))) [
    | inl n ↦ rw (n, state_digest) (unchanged refl (result_ne "state_digest_failed" refl))
    | inr (d, h) ↦ elim (Option-cases (env.ledger_digest s.store.state.ledger)) [
      | inl n ↦ rw (h, state_digest) (rw n (unchanged refl (result_ne "state_digest_failed" refl)))
      | inr (l, k) ↦ rw (h, state_digest) (rw k (unchanged refl (λ p. cc p)))
    ]
  ]

  falls : serve_corp env r c s ≡ serve_common env r c s → Outcome r c s (serve_corp env r c s)
  falls p = like (serve_common env r c s) p serve_common-Outcome

  corp_by_route : (route : Route) → r.route ≡ route → Outcome r c s (serve_corp env r c s)
  unfolding serve_corp
  corp_by_route healthz e = falls (rw e refl)
  corp_by_route whoami e = falls (rw e refl)
  corp_by_route get_state e = unchanged (rw e refl) (rw e (λ p. cc p))
  corp_by_route get_state_digest e = like (state_digest env s, s) (rw e refl) state_digest-Outcome
  corp_by_route (storage bucket key) e = falls (rw e refl)
  corp_by_route (net workload port path) e = falls (rw e refl)
  corp_by_route (put kind) e =
      like (put_resource env r c kind s) (rw e refl) (put_resource-Outcome env r c s w kind e)
  corp_by_route (Route.delete kind id) e =
      like (delete_resource r c kind id s) (rw e refl)
        (delete_resource-Outcome env r c s w kind id e)
  corp_by_route (unmatched status) e = falls (rw e refl)

  serve_corp-Outcome : Outcome r c s (serve_corp env r c s)
  serve_corp-Outcome = corp_by_route r.route refl

-- Who the handlers take the caller to be, where `allow_principal` says that an asserted principal is
-- believed.
pub data IsCaller (allow_principal : Bool) (r : Request) (s : Server) : Caller → Type 0 where
  unseen : r.remote ≡ none → IsCaller allow_principal r s no_caller
  seen :
      (addr : Addr)
      → r.remote ≡ some addr
      → IsCaller allow_principal r s (caller_of allow_principal r addr s.store)

-- A request ends for its caller in one of the three ways.
abbrev pub Handled : Bool → Request → Server → Response × Server → Type 0
Handled allow_principal r s result =
    (c : Caller) × IsCaller allow_principal r s c × Outcome r c s result

pub with_caller-Handled :
    (next : Handler) (allow_principal : Bool) (r : Request) (s : Server)
    → ((c : Caller) → Outcome r c s (next r c s))
    → Handled allow_principal r s (with_caller next allow_principal r s)
unfolding with_caller
with_caller-Handled next allow_principal r s o = elim (Option-cases r.remote) [
  | inl n ↦ (
    no_caller,
    unseen n,
    like (refuse r no_caller unparsable_source_address "" s) (rw n refl)
        (refuse-Outcome r no_caller unparsable_source_address "" s (unread n)),
  )
  | inr (addr, h) ↦
      let c = caller_of allow_principal r addr s.store in
      elim (Bool-cases (c.segment == "")) [
        | inl e ↦ (
          c,
          seen addr h,
          like (refuse r c (reason unknown_segment) "" s) (rw h (rw e refl))
              (refuse-Outcome r c (reason unknown_segment) "" s (outside (text_eq→eq e))),
        )
        | inr e ↦
            let p : with_caller next allow_principal r s ≡ next r c s = rw h (rw e refl) in
            (c, seen addr h, like (next r c s) p (o c))
      ]
]

-- From a well-formed store, every request to the corporate listener, whose caller is the one of
-- its address with an asserted principal believed, ends in one of three ways: the one refusal with
-- the store untouched and one audit event, which carries the next number, the class and the
-- resource of what was refused, the caller and the path, an answer that is no refusal with nothing
-- changed, or an answer that is no refusal with one new ledger row, one log event that carries it,
-- and a well-formed store.
pub corp_handler-Outcome :
    (env : Env) (r : Request) (s : Server)
    → IsWellFormed s.store
    → Handled true r s (corp_handler env r s)
unfolding corp_handler
corp_handler-Outcome env r s w =
    with_caller-Handled (serve_corp env) true r s (λ c. serve_corp-Outcome env r c s w)

-- From a well-formed store, every request to the edge listener, whose caller is the one of its
-- address with an asserted principal not believed, ends in one of three ways: the one refusal with
-- the store untouched and one audit event, which carries the next number, the class and the
-- resource of what was refused, the caller and the path, an answer that is no refusal with nothing
-- changed, or an answer that is no refusal with one new ledger row, one log event that carries it,
-- and a well-formed store.
pub edge_handler-Outcome :
    (env : Env) (r : Request) (s : Server)
    → IsWellFormed s.store
    → Handled false r s (edge_handler env r s)
unfolding edge_handler
edge_handler-Outcome env r s w =
    with_caller-Handled (serve_common env) false r s (λ c. serve_common-Outcome env r c s w)
