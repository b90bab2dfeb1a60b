-- ===== src/Platform/Store/Writes.antt =====
-- The typed writes of internal/platform/store.go as one operation, and what they have in common.
use planless.Prelude.{ℕ, ◌≡◌, refl, sym, ap, ◌∙◌, String, false, ◌&&◌, List, ◌==◌, length, All, ◌≤◌}
use planless.Ordered.Extension.{put, put-IsSorted, put_comm, put_idem}
use planless.Platform.Model.{Bucket, Object, Grant, Workload, NetworkRule, Principal, State}
use planless.Platform.Store.{
  Store, put_object, put_bucket, put_grant, put_workload, put_network_rule, put_principal,
}
use planless.Platform.Store.Orders.{
  bucket_order, object_order, grant_order, workload_order, rule_order, principal_order,
}
use planless.Platform.Store.WellFormed.{IsOrdered, IsWellFormed, normalize_of_IsOrdered}

pub data Write : Type 0 where
  bucket : Bucket → Write
  object : Object → List ℕ → Write
  grant : Grant → Write
  workload : Workload → Write
  network_rule : NetworkRule → Write
  principal : Principal → Write

module _ (digest : List ℕ → String) where
  -- Each constructor is the method that carries it out.
  unfoldable pub apply : Write → Store → Store
  unfolding put_bucket put_object put_grant put_workload put_network_rule put_principal
  apply (bucket b) s = put_bucket b s
  apply (object o body) s = put_object digest o body s
  apply (grant g) s = put_grant g s
  apply (workload w) s = put_workload w s
  apply (network_rule r) s = put_network_rule r s
  apply (principal p) s = put_principal p s

  -- The object that `PutObject` stores.
  abbrev pub stored : Object → List ℕ → Object
  stored o body = record o { body = body; size = length body; content_digest = digest body }

  -- The write of one collection.
  abbrev pub written : Write → State → State
  written (bucket b) st = record st { buckets = put bucket_order b st.buckets }
  written (object o body) st = record st { objects = put object_order (stored o body) st.objects }
  written (grant g) st = record st { grants = put grant_order g st.grants }
  written (workload w) st = record st { workloads = put workload_order w st.workloads }
  written (network_rule r) st = record st { network_rules = put rule_order r st.network_rules }
  written (principal p) st = record st { principals = put principal_order p st.principals }

  pub written-IsOrdered : (w : Write) {st : State} → IsOrdered st → IsOrdered (written w st)
  written-IsOrdered (bucket b) {st} o =
      assumption (put-IsSorted bucket_order b st.buckets o.buckets)
  written-IsOrdered (object x body) {st} o =
      assumption (put-IsSorted object_order (stored x body) st.objects o.objects)
  written-IsOrdered (grant g) {st} o = assumption (put-IsSorted grant_order g st.grants o.grants)
  written-IsOrdered (workload w) {st} o =
      assumption (put-IsSorted workload_order w st.workloads o.workloads)
  written-IsOrdered (network_rule r) {st} o =
      assumption (put-IsSorted rule_order r st.network_rules o.network_rules)
  written-IsOrdered (principal p) {st} o =
      assumption (put-IsSorted principal_order p st.principals o.principals)

  -- On a well-formed store a write changes its own collection and nothing else.
  pub apply_lem :
      (w : Write) {s : Store} → IsWellFormed s → apply w s ≡ record s { state = written w s.state }
  unfolding apply
  apply_lem (bucket b) {s} h =
      ap
        (λ (t : State). record s {
          state = record t { buckets = put bucket_order b s.state.buckets };
        })
        (normalize_of_IsOrdered h.ordered)
  apply_lem (object o body) {s} h =
      ap
        (λ (t : State). record s {
          state = record t { objects = put object_order (stored o body) s.state.objects };
        })
        (normalize_of_IsOrdered h.ordered)
  apply_lem (grant g) {s} h =
      ap
        (λ (t : State). record s { state = record t { grants = put grant_order g s.state.grants } })
        (normalize_of_IsOrdered h.ordered)
  apply_lem (workload w) {s} h =
      ap
        (λ (t : State). record s {
          state = record t { workloads = put workload_order w s.state.workloads };
        })
        (normalize_of_IsOrdered h.ordered)
  apply_lem (network_rule r) {s} h =
      ap
        (λ (t : State). record s {
          state = record t { network_rules = put rule_order r s.state.network_rules };
        })
        (normalize_of_IsOrdered h.ordered)
  apply_lem (principal p) {s} h =
      ap
        (λ (t : State). record s {
          state = record t { principals = put principal_order p s.state.principals };
        })
        (normalize_of_IsOrdered h.ordered)

  -- Every write keeps a well-formed store well formed.
  pub apply-IsWellFormed : (w : Write) (s : Store) → IsWellFormed s → IsWellFormed (apply w s)
  apply-IsWellFormed w s h =
      rw (apply_lem w h) (record { ordered = written-IsOrdered w h.ordered; bounded = bounded w })
    where
      bounded : (w : Write) → All (λ e. e.seq ≤ s.seq) (written w s.state).ledger
      bounded (bucket b) = h.bounded
      bounded _ = h.bounded

  -- Two writes are of different resources: of different kinds, or with different keys.
  abbrev pub Differ : Write → Write → Type 0
  Differ (bucket b) (bucket c) = (b.name == c.name) ≡ false
  Differ (object o x) (object p y) = (o.bucket == p.bucket && o.key == p.key) ≡ false
  Differ (grant g) (grant h) = (g.id == h.id) ≡ false
  Differ (workload v) (workload w) = (v.name == w.name) ≡ false
  Differ (network_rule r) (network_rule q) = (r.id == q.id) ≡ false
  Differ (principal p) (principal q) = (p.name == q.name) ≡ false
  Differ _ _ = Unit

  written_comm :
      (v w : Write) (st : State)
      → IsOrdered st
      → Differ v w
      → written v (written w st) ≡ written w (written v st)
  written_comm (bucket a) (bucket b) st h d =
      ap (λ (l : List Bucket). record st { buckets = l })
        (put_comm bucket_order a b st.buckets h.buckets d)
  written_comm (object o x) (object p y) st h d =
      ap (λ (l : List Object). record st { objects = l })
        (put_comm object_order (stored o x) (stored p y) st.objects h.objects d)
  written_comm (grant a) (grant b) st h d =
      ap (λ (l : List Grant). record st { grants = l })
        (put_comm grant_order a b st.grants h.grants d)
  written_comm (workload a) (workload b) st h d =
      ap (λ (l : List Workload). record st { workloads = l })
        (put_comm workload_order a b st.workloads h.workloads d)
  written_comm (network_rule a) (network_rule b) st h d =
      ap (λ (l : List NetworkRule). record st { network_rules = l })
        (put_comm rule_order a b st.network_rules h.network_rules d)
  written_comm (principal a) (principal b) st h d =
      ap (λ (l : List Principal). record st { principals = l })
        (put_comm principal_order a b st.principals h.principals d)
  written_comm _ _ st h d = refl

  -- On a well-formed store two writes of different resources give the same store in either order.
  pub apply_comm :
      (v w : Write) (s : Store)
      → IsWellFormed s
      → Differ v w
      → apply v (apply w s) ≡ apply w (apply v s)
  apply_comm v w s h d =
      apply_lem v (apply-IsWellFormed w s h)
      ∙ ap (λ (t : Store). record t { state = written v t.state }) (apply_lem w h)
      ∙ ap (λ (st : State). record s { state = st }) (written_comm v w s.state h.ordered d)
      ∙ sym (
          apply_lem w (apply-IsWellFormed v s h)
          ∙ ap (λ (t : Store). record t { state = written w t.state }) (apply_lem v h))

  written_idem : (w : Write) (st : State) → IsOrdered st → written w (written w st) ≡ written w st
  written_idem (bucket b) st h =
      ap (λ (l : List Bucket). record st { buckets = l })
        (put_idem bucket_order b st.buckets h.buckets)
  written_idem (object o body) st h =
      ap (λ (l : List Object). record st { objects = l })
        (put_idem object_order (stored o body) st.objects h.objects)
  written_idem (grant g) st h =
      ap (λ (l : List Grant). record st { grants = l }) (put_idem grant_order g st.grants h.grants)
  written_idem (workload w) st h =
      ap (λ (l : List Workload). record st { workloads = l })
        (put_idem workload_order w st.workloads h.workloads)
  written_idem (network_rule r) st h =
      ap (λ (l : List NetworkRule). record st { network_rules = l })
        (put_idem rule_order r st.network_rules h.network_rules)
  written_idem (principal p) st h =
      ap (λ (l : List Principal). record st { principals = l })
        (put_idem principal_order p st.principals h.principals)

  -- On a well-formed store applying a write a second time changes nothing.
  pub apply_idem : (w : Write) (s : Store) → IsWellFormed s → apply w (apply w s) ≡ apply w s
  apply_idem w s h =
      apply_lem w (apply-IsWellFormed w s h)
      ∙ ap (λ (t : Store). record t { state = written w t.state }) (apply_lem w h)
      ∙ ap (λ (st : State). record s { state = st }) (written_idem w s.state h.ordered)
      ∙ sym (apply_lem w h)
