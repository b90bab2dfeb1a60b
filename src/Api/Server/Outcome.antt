-- ===== src/Api/Server/Outcome.antt =====
-- Every request ends in one of three ways, whichever handler serves it: refused, answered with
-- nothing changed, or answered with one recorded change.
use Prim.Native.String
use planless.Prelude.{
  ℕ, ◌+◌, ◌%◌, ◌^◌, ◌≡◌, ◌≢◌, refl, ap, sym, subst, String, false, not, ◌&&◌, Option, none, some,
  List, [], ◌∷◌, ◌++◌, ltb, ◌==◌, Bool-cases, Option-cases, inl, inr, eq→text_eq,
}
use planless.Platform.Model.{LedgerEntry, Caller, principal_of}
use planless.Platform.Store.{Store, object, delete, record_entry}
use planless.Platform.Store.WellFormed.{IsWellFormed, record_entry-IsWellFormed}
use planless.Platform.Authz.{
  authorize_object_read, authorize_connect, unknown_segment, not_found, no_grant,
}
use planless.Api.Targets.{slash, Target, target_of, target_of_existing, authorize_write}
use planless.Api.Http.{
  Payload, Request, Reply, Body, Response, Class, reason, unparsable_source_address, access_refused,
  change, Server, Route, storage, net,
}
use planless.Api.Answers.{respond, refuse, recorded}
use planless.Api.Server.{get_object, is_write, answer, exchanged}

-- The response that every refusal gives.
abbrev pub refusal : Response
refusal = respond 403 (Body.result "ACCESS_REFUSED")

-- Why a request is refused: the class and the resource of the audit event.
pub data Refused (r : Request) (c : Caller) (s : Server) : Class → String → Type 0 where
  unread : r.remote ≡ none → Refused r c s unparsable_source_address ""
  outside : c.segment ≡ "" → Refused r c s (reason unknown_segment) ""
  read_denied :
      (bucket key : String)
      → r.route ≡ storage bucket key
      → (authorize_object_read s.store.state c bucket key).allowed ≡ false
      → Refused r c s
          (reason (authorize_object_read s.store.state c bucket key).reason)
          (slash bucket key)
  read_missing :
      (bucket key : String)
      → r.route ≡ storage bucket key
      → object s.store bucket key ≡ none
      → Refused r c s (reason not_found) (slash bucket key)
  connect_denied :
      (workload port path : String)
      → r.route ≡ net workload port path
      → (authorize_connect s.store.state c workload port).0.allowed ≡ false
      → Refused r c s
          (reason (authorize_connect s.store.state c workload port).0.reason)
          (String.◌++◌ workload (String.◌++◌ ":" port))
  put_unnamed :
      (kind : String) (payload : Payload)
      → r.route ≡ Route.put kind
      → r.payload ≡ some payload
      → target_of kind payload ≡ none
      → Refused r c s (reason not_found) kind
  put_denied :
      (kind : String) (payload : Payload) (t : Target)
      → r.route ≡ Route.put kind
      → r.payload ≡ some payload
      → target_of kind payload ≡ some t
      → authorize_write s.store.state c t.kind t.name ≡ false
      → Refused r c s (reason no_grant) (slash t.kind t.name)
  delete_unnamed :
      (kind id : String)
      → r.route ≡ Route.delete kind id
      → target_of_existing s.store.state kind id ≡ none
      → Refused r c s (reason not_found) (slash kind id)
  delete_denied :
      (kind id : String) (t : Target)
      → r.route ≡ Route.delete kind id
      → target_of_existing s.store.state kind id ≡ some t
      → authorize_write s.store.state c t.kind t.name ≡ false
      → Refused r c s (reason no_grant) (slash t.kind t.name)
  delete_missing :
      (kind id : String)
      → r.route ≡ Route.delete kind id
      → (delete kind id s.store).1 ≡ false
      → Refused r c s (reason not_found) (slash kind id)

-- The ways in which the request of a caller ends.
pub data Outcome (q : Request) (c : Caller) (s : Server) (r : Response × Server) : Type 0 where
  refused :
      (class : Class) (resource : String)
      → Refused q c s class resource
      → r ≡ (
        refusal,
        record s {
          seq = (s.seq + 1) % 2 ^ 64;
          log =
              s.log
              ++ access_refused
                  ((s.seq + 1) % 2 ^ 64)
                  class
                  resource
                  (principal_of c)
                  c.segment
                  q.path
                ∷ [];
        },
      )
      → Outcome q c s r
  unchanged : r.1 ≡ s → r.0.body ≢ Body.result "ACCESS_REFUSED" → Outcome q c s r
  changed :
      (e : LedgerEntry)
      → e.seq ≡ s.store.seq + 1
      → r.1.store.seq ≡ e.seq
      → r.1.store.state.ledger ≡ s.store.state.ledger ++ e ∷ []
      → r.1.log ≡ s.log ++ change e ∷ []
      → r.1.seq ≡ s.seq
      → IsWellFormed r.1.store
      → r.0.body ≢ Body.result "ACCESS_REFUSED"
      → Outcome q c s r

-- The same result ends in the same way.
pub like :
    {q : Request} {c : Caller} {s : Server} {x : Response × Server} (y : Response × Server)
    → x ≡ y
    → Outcome q c s y
    → Outcome q c s x
like {q} {c} {s} y p o = subst (Outcome q c s) (sym p) o

pub result_ne :
    (t : String) → (t == "ACCESS_REFUSED") ≡ false → Body.result t ≢ Body.result "ACCESS_REFUSED"
result_ne t h p = let q : t ≡ "ACCESS_REFUSED" = cc p in cc (eq→text_eq q, h)

pub refuse-Outcome :
    (r : Request) (c : Caller) (class : Class) (resource : String) (s : Server)
    → Refused r c s class resource
    → Outcome r c s (refuse r c class resource s)
unfolding refuse
refuse-Outcome r c class resource s why = refused class resource why refl

pub get_object-Outcome :
    (r : Request) (c : Caller) (bucket key : String) (s : Server)
    → r.route ≡ storage bucket key
    → Outcome r c s (get_object r c bucket key s)
get_object-Outcome r c bucket key s at =
    elim (Bool-cases (authorize_object_read s.store.state c bucket key).allowed) [
      | inr e ↦ unfold get_object in rw e (refuse-Outcome r c _ _ s (read_denied bucket key at e))
      | inl e ↦ elim (Option-cases (object s.store bucket key)) [
        | inl n ↦
            unfold get_object in
            rw e (rw n (refuse-Outcome r c _ _ s (read_missing bucket key at n)))
        | inr (o, h) ↦ unfold get_object in rw e (rw h (unchanged refl (λ p. cc p)))
      ]
    ]

-- Recording a change over a store with the same ledger.
pub recorded-Outcome :
    (q : Request) (action resource : String) (c : Caller) (detail : String) (s : Server)
    (st : Store) (res : Response)
    → IsWellFormed st
    → st.seq ≡ s.store.seq
    → st.state.ledger ≡ s.store.state.ledger
    → res.body ≢ Body.result "ACCESS_REFUSED"
    → Outcome q c s (res, recorded action resource c detail (record s { store = st }))
recorded-Outcome q action resource c detail s st res w n l b =
    let e = (record_entry action resource c detail st).1 in
    changed e (unfold record_entry in ap (λ (k : ℕ). k + 1) n) (unfold record_entry in refl)
      (unfold record_entry in
        ap (λ (x : List LedgerEntry). x ++ (record_entry action resource c detail st).1 ∷ []) l)
      refl refl (record_entry-IsWellFormed action resource c detail w) b

answer-Outcome :
    (r : Request) (c : Caller) (name rule : String) (reply : Reply) (s : Server)
    → IsWellFormed s.store
    → Outcome r c s (answer r c name rule reply s)
unfolding answer
answer-Outcome r c name rule reply s w = elim (Option-cases reply.body) [
  | inl n ↦ rw n (unchanged refl (result_ne "workload_unreachable" refl))
  | inr (out, h) ↦
      elim (Bool-cases (not (reply.change == "") && ltb reply.status 300 && is_write r.method)) [
        | inl e ↦ rw h (
            rw e (
              recorded-Outcome r "workload.change" name c reply.change s s.store _ w refl refl
                (λ p. cc p)))
        | inr e ↦ rw h (rw e (unchanged refl (λ p. cc p)))
      ]
]

pub exchanged-Outcome :
    (r : Request) (c : Caller) (name rule : String) (reply : Option Reply) (s : Server)
    → IsWellFormed s.store
    → Outcome r c s (exchanged r c name rule reply s)
exchanged-Outcome r c name rule none s w = unchanged refl (result_ne "workload_unreachable" refl)
exchanged-Outcome r c name rule (some reply) s w = answer-Outcome r c name rule reply s w
