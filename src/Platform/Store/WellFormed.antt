-- ===== src/Platform/Store/WellFormed.antt =====
-- The invariant of the platform store: every collection is sorted by a key that no two elements
-- share, and the ledger's numbers rise to the last one given out.
use planless.Prelude.{
  ℕ, ◌+◌, ◌≤◌, ◌≡◌, String, true, List, [], ◌∷◌, ◌++◌, All, All-append, if◌then◌else◌, ltb, arith,
}
use planless.Ordered.Sorting.{
  Distinct, IsSorted, sort-IsSorted, sort-All, sort_of_IsSorted, IsSorted→Distinct,
}
use planless.Platform.Model.{Segment, LedgerEntry, State, Caller}
use planless.Platform.Store.{Store, normalize, new, only_segments, last_seq, load, record_entry}
use planless.Platform.Store.Orders.{
  segment_order, principal_order, bucket_order, object_order, grant_order, workload_order,
  rule_order, ledger_order,
}

pub record HasDistinctKeys (st : State) : Type 0 where
  pub segments : Distinct segment_order st.segments
  pub principals : Distinct principal_order st.principals
  pub buckets : Distinct bucket_order st.buckets
  pub objects : Distinct object_order st.objects
  pub grants : Distinct grant_order st.grants
  pub workloads : Distinct workload_order st.workloads
  pub network_rules : Distinct rule_order st.network_rules
  pub ledger : Distinct ledger_order st.ledger

pub record IsOrdered (st : State) : Type 0 where
  pub segments : IsSorted segment_order st.segments
  pub principals : IsSorted principal_order st.principals
  pub buckets : IsSorted bucket_order st.buckets
  pub objects : IsSorted object_order st.objects
  pub grants : IsSorted grant_order st.grants
  pub workloads : IsSorted workload_order st.workloads
  pub network_rules : IsSorted rule_order st.network_rules
  pub ledger : IsSorted ledger_order st.ledger

pub record IsWellFormed (s : Store) : Type 0 where
  pub ordered : IsOrdered s.state
  pub bounded : All (λ e. e.seq ≤ s.seq) s.state.ledger

pub normalize-IsOrdered : {st : State} → HasDistinctKeys st → IsOrdered (normalize st)
unfolding normalize
normalize-IsOrdered {st} d = record {
  segments = sort-IsSorted segment_order st.segments d.segments;
  principals = sort-IsSorted principal_order st.principals d.principals;
  buckets = sort-IsSorted bucket_order st.buckets d.buckets;
  objects = sort-IsSorted object_order st.objects d.objects;
  grants = sort-IsSorted grant_order st.grants d.grants;
  workloads = sort-IsSorted workload_order st.workloads d.workloads;
  network_rules = sort-IsSorted rule_order st.network_rules d.network_rules;
  ledger = sort-IsSorted ledger_order st.ledger d.ledger;
}

pub IsOrdered→HasDistinctKeys : {st : State} → IsOrdered st → HasDistinctKeys st
IsOrdered→HasDistinctKeys {st} o = record {
  segments = IsSorted→Distinct segment_order st.segments o.segments;
  principals = IsSorted→Distinct principal_order st.principals o.principals;
  buckets = IsSorted→Distinct bucket_order st.buckets o.buckets;
  objects = IsSorted→Distinct object_order st.objects o.objects;
  grants = IsSorted→Distinct grant_order st.grants o.grants;
  workloads = IsSorted→Distinct workload_order st.workloads o.workloads;
  network_rules = IsSorted→Distinct rule_order st.network_rules o.network_rules;
  ledger = IsSorted→Distinct ledger_order st.ledger o.ledger;
}

-- A normalized state with the same last number and bounded rows is well formed.
normalized :
    (st : State) (n : ℕ)
    → HasDistinctKeys st
    → All (λ e. e.seq ≤ n) st.ledger
    → IsWellFormed (record { state = normalize st; seq = n })
unfolding normalize
normalized st n d b = record {
  ordered = unfold normalize in normalize-IsOrdered d;
  bounded = sort-All ledger_order (λ e. e.seq ≤ n) st.ledger b;
}

-- A state in order is left as it is by `normalize`.
pub normalize_of_IsOrdered : {st : State} → IsOrdered st → normalize st ≡ st
unfolding normalize
normalize_of_IsOrdered {st} o = cc (
  sort_of_IsSorted segment_order st.segments o.segments,
  sort_of_IsSorted principal_order st.principals o.principals,
  sort_of_IsSorted bucket_order st.buckets o.buckets,
  sort_of_IsSorted object_order st.objects o.objects,
  sort_of_IsSorted grant_order st.grants o.grants,
  sort_of_IsSorted workload_order st.workloads o.workloads,
  sort_of_IsSorted rule_order st.network_rules o.network_rules,
  sort_of_IsSorted ledger_order st.ledger o.ledger,
)

-- `New` gives a well-formed store where no two segments share a name.
pub new-IsWellFormed :
    (segments : List Segment) → Distinct segment_order segments → IsWellFormed (new segments)
unfolding new
new-IsWellFormed segments d =
    normalized (only_segments segments) 0
      (record {
        segments = d;
        principals = tt;
        buckets = tt;
        objects = tt;
        grants = tt;
        workloads = tt;
        network_rules = tt;
        ledger = tt;
      })
      tt

last_seq-le : (n : ℕ) (l : List LedgerEntry) → n ≤ last_seq n l
unfolding last_seq
last_seq-le n [] = omega arith
last_seq-le n (e ∷ rest) = ground (arith, last_seq-le (if ltb n e.seq then e.seq else n) rest)

last_seq-bounds : (n : ℕ) (l : List LedgerEntry) → All (λ e. e.seq ≤ last_seq n l) l
unfolding last_seq
last_seq-bounds n [] = tt
last_seq-bounds n (e ∷ rest) =
    let m = if ltb n e.seq then e.seq else n in
    (ground (arith, last_seq-le m rest), last_seq-bounds m rest)

-- Loading a state whose keys are distinct gives a well-formed store.
pub load-IsWellFormed : (st : State) → HasDistinctKeys st → IsWellFormed (load st)
unfolding load
load-IsWellFormed st d = normalized st (last_seq 0 st.ledger) d (last_seq-bounds 0 st.ledger)

append-IsSorted :
    (l : List LedgerEntry) (e : LedgerEntry)
    → All (λ d. ltb d.seq e.seq ≡ true) l
    → IsSorted ledger_order l
    → IsSorted ledger_order (l ++ e ∷ [])
append-IsSorted [] e u s = (tt, tt)
append-IsSorted (d ∷ l) e u s =
    (All-append (λ x. ltb d.seq x.seq ≡ true) l (e ∷ []) s.0 (u.0, tt), append-IsSorted l e u.1 s.1)

below :
    (n : ℕ) (l : List LedgerEntry) → All (λ e. e.seq ≤ n) l → All (λ e. ltb e.seq (n + 1) ≡ true) l
below n [] u = tt
below n (e ∷ l) u = (ground (arith, u.0), below n l u.1)

weaken : (n : ℕ) (l : List LedgerEntry) → All (λ e. e.seq ≤ n) l → All (λ e. e.seq ≤ n + 1) l
weaken n [] u = tt
weaken n (e ∷ l) u = (omega (arith, u.0), weaken n l u.1)

-- Recording a ledger row keeps a well-formed store well formed.
pub record_entry-IsWellFormed :
    {s : Store} (action resource : String) (c : Caller) (detail : String)
    → IsWellFormed s
    → IsWellFormed (record_entry action resource c detail s).0
unfolding record_entry
record_entry-IsWellFormed {s} action resource c detail w = record {
  ordered = assumption (
      append-IsSorted s.state.ledger (record_entry action resource c detail s).1
        (below s.seq s.state.ledger w.bounded) w.ordered.ledger);
  bounded =
      All-append (λ e. e.seq ≤ s.seq + 1) s.state.ledger _ (weaken s.seq s.state.ledger w.bounded)
        (omega arith);
}
