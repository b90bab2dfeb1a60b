-- ===== src/Api/Server/Reads.antt =====
-- What callers get to see: `getObject` and `connect` of internal/api/server.go.
use Prim.Native.String
use planless.Prelude.{
  ℕ, ◌≡◌, refl, ap, String, Bool, true, Option, some, List, [], ◌∷◌, any, find, Bool-cases,
  Option-cases, inl, inr,
}
use planless.Netset.Ip.{v4}
use planless.Platform.Model.{Object, Caller}
use planless.Platform.Store.{object, is_object}
use planless.Platform.Authz.{authorize_object_read, authorize_connect}
use planless.Platform.Authz.Read.{MayRead, authorize_object_read_iff}
use planless.Api.Http.{Request, Reply, Env, Body, Server}
use planless.Api.Answers.{respond, refuse}
use planless.Api.Server.{get_object, exchanged, outgoing, connect}
use planless.Api.Server.Outcome.{refusal}

find-any :
    (f : Object → Bool) (xs : List Object) → any f xs ≡ true → (o : Object) × (find f xs ≡ some o)
find-any f [] h = absurd (cc h)
find-any f (x ∷ xs) h = elim (Bool-cases (f x)) [
  | inl e ↦ (x, rw e refl)
  | inr e ↦ let (o, p) = find-any f xs (rw e at h) in (o, rw e p)
]

-- How a read ends: with the stored object, or with the refusal.
pub data Seen (r : Request) (c : Caller) (v : ℕ) (bucket key : String) (s : Server) : Type 0 where
  seen :
      (o : Object) (rule : String)
      → MayRead s.store.state c v bucket key
      → object s.store bucket key ≡ some o
      → get_object r c bucket key s
        ≡ (respond 200 (Body.object o.content_type o.content_digest rule o.body), s)
      → Seen r c v bucket key s
  hidden :
      ¬ MayRead s.store.state c v bucket key
      → (get_object r c bucket key s).0 ≡ refusal
      → Seen r c v bucket key s

-- A read from an IPv4 address answers with the stored object and an unchanged server when the
-- caller may read it, and with the one refusal when not, whether or not the object exists.
pub get_object_lem :
    (r : Request) (c : Caller) (v : ℕ) (bucket key : String) (s : Server)
    → c.addr ≡ v4 v
    → Seen r c v bucket key s
unfolding get_object refuse object
get_object_lem r c v bucket key s from_v =
    let iff = authorize_object_read_iff s.store.state c v bucket key from_v in
    elim (Bool-cases (authorize_object_read s.store.state c bucket key).allowed) [
      | inr e ↦ hidden (λ m. cc (iff.1 m, e)) (rw e refl)
      | inl e ↦
          let m = iff.0 e in
          let (o, h) = find-any (is_object bucket key) s.store.state.objects m.exists in
          seen o (authorize_object_read s.store.state c bucket key).rule m h (rw e (rw h refl))
    ]

-- Two environments that answer alike the one request which an allowed connect with a readable body
-- sends to the workload give the same result of the connect, so a refused connect does not depend
-- on the network.
pub connect_local :
    (env other : Env) (r : Request) (c : Caller) (workload port path : String) (s : Server)
    → ((body : List ℕ)
        → r.body ≡ some body
        → (authorize_connect s.store.state c workload port).0.allowed ≡ true
        → env.workload (
            outgoing r c
              (authorize_connect s.store.state c workload port).1
              (authorize_connect s.store.state c workload port).2
              path
              body)
          ≡ other.workload (
              outgoing r c
                (authorize_connect s.store.state c workload port).1
                (authorize_connect s.store.state c workload port).2
                path
                body))
    → connect env r c workload port path s ≡ connect other r c workload port path s
unfolding connect
connect_local env other r c workload port path s agree =
    let (decision, wl, p) = authorize_connect s.store.state c workload port in
    elim (Bool-cases decision.allowed) [
      | inr e ↦ rw e refl
      | inl e ↦ elim (Option-cases r.body) [
        | inl n ↦ rw e (rw n refl)
        | inr (body, h) ↦
            let same = agree body h e in
            rw e (
              rw h (
                ap
                  (λ (x : Option Reply).
                    exchanged r c (String.◌++◌ workload (String.◌++◌ ":" port)) decision.rule x s)
                  same))
      ]
    ]
