-- ===== src/Platform/Store.antt =====
-- internal/platform/store.go: typed operations on the platform state. A method takes the store and
-- gives the new one; `State` and the copies that it makes have no counterpart, since a value is
-- never shared. Each method holds the lock from its first line to its last, so it is one step.
pub mod Orders
pub mod WellFormed
pub mod Writes
pub mod Deletion
pub mod Laws
use planless.Prelude.{
  ℕ, ◌+◌, String, Bool, true, false, not, ◌&&◌, Option, none, some, List, [], ◌∷◌, ◌++◌,
  if◌then◌else◌, ltb, ◌=?◌, ◌==◌, find, any, keep, length,
}
use planless.Prelude.Text.{cut, text_ltb}
use planless.Netset
use planless.Netset.{NetSet, parse, contains}
use planless.Netset.Ip.{Addr}
use planless.Ordered.{sort, upsert}
use planless.Platform.Model.{
  Segment, Bucket, Object, Grant, Port, Workload, NetworkRule, Principal, LedgerEntry, State,
  Caller, principal_of,
}

pub record Store : Type 0 where
  pub state : State
  pub seq : ℕ

-- `normalize`: every collection in the order of its key.
unfoldable pub normalize : State → State
unfolding sort text_ltb
normalize st = record {
  segments = sort (λ a b. text_ltb a.name b.name) st.segments;
  principals = sort (λ a b. text_ltb a.name b.name) st.principals;
  buckets = sort (λ a b. text_ltb a.name b.name) st.buckets;
  objects =
      sort
        (λ a b.
          if not (a.bucket == b.bucket) then text_ltb a.bucket b.bucket else text_ltb a.key b.key)
        st.objects;
  grants = sort (λ a b. text_ltb a.id b.id) st.grants;
  workloads = sort (λ a b. text_ltb a.name b.name) st.workloads;
  network_rules = sort (λ a b. text_ltb a.id b.id) st.network_rules;
  ledger = sort (λ a b. ltb a.seq b.seq) st.ledger;
}

-- The state that `New` normalizes.
abbrev pub only_segments : List Segment → State
only_segments segments = record {
  segments = segments;
  principals = [];
  buckets = [];
  objects = [];
  grants = [];
  workloads = [];
  network_rules = [];
  ledger = [];
}

-- `New`.
unfoldable pub new : List Segment → Store
unfolding normalize
new segments = record { state = normalize (only_segments segments); seq = 0 }

-- The loop of `Load` over the ledger.
unfoldable pub last_seq : ℕ → List LedgerEntry → ℕ
last_seq seq [] = seq
last_seq seq (e ∷ rest) = last_seq (if ltb seq e.seq then e.seq else seq) rest

-- `Load`.
unfoldable pub load : State → Store
unfolding normalize last_seq
load st = record { state = normalize st; seq = last_seq 0 st.ledger }

-- What `Digest` digests: the state without its ledger.
pub record ResourceView : Type 0 where
  pub segments : List Segment
  pub principals : List Principal
  pub buckets : List Bucket
  pub objects : List Object
  pub grants : List Grant
  pub workloads : List Workload
  pub network_rules : List NetworkRule

unfoldable pub resource_view : State → ResourceView
resource_view st = record {
  segments = st.segments;
  principals = st.principals;
  buckets = st.buckets;
  objects = st.objects;
  grants = st.grants;
  workloads = st.workloads;
  network_rules = st.network_rules;
}

-- The loop of `Segment`: a segment whose range cannot be read is passed over.
unfoldable pub segment_of : List Segment → Addr → String
unfolding parse contains
segment_of [] addr = ""
segment_of (seg ∷ rest) addr = elim (parse (seg.cidr ∷ [])) [
  | none ↦ segment_of rest addr
  | some set ↦ elim (contains (some set) addr) [ true ↦ seg.name | false ↦ segment_of rest addr ]
]

unfoldable pub segment : Store → Addr → String
unfolding segment_of
segment s addr = segment_of s.state.segments addr

unfoldable pub known_principal : Store → String → Bool
known_principal s name = any (λ p. p.name == name) s.state.principals

abbrev pub is_object : String → String → Object → Bool
is_object bucket key o = o.bucket == bucket && o.key == key

-- `Object`; `none` is `ErrNotFound`.
unfoldable pub object : Store → String → String → Option Object
object s bucket key = find (is_object bucket key) s.state.objects

-- `canon.Digest`, which is SHA-256 in hexadecimal, comes from outside.
module _ (digest : List ℕ → String) where
  unfoldable pub put_object : Object → List ℕ → Store → Store
  unfolding normalize upsert
  put_object o body s =
      let o' = record o { body = body; size = length body; content_digest = digest body } in
      record s {
        state = normalize (record (s.state) {
          objects = upsert s.state.objects o' (λ a b. a.bucket == b.bucket && a.key == b.key);
        });
      }

unfoldable pub put_bucket : Bucket → Store → Store
unfolding normalize upsert
put_bucket b s = record s {
  state =
      normalize (record (s.state) { buckets = upsert s.state.buckets b (λ a c. a.name == c.name) });
}

unfoldable pub put_grant : Grant → Store → Store
unfolding normalize upsert
put_grant g s = record s {
  state = normalize (record (s.state) { grants = upsert s.state.grants g (λ a c. a.id == c.id) });
}

unfoldable pub put_workload : Workload → Store → Store
unfolding normalize upsert
put_workload w s = record s {
  state =
      normalize
        (record (s.state) { workloads = upsert s.state.workloads w (λ a c. a.name == c.name) });
}

unfoldable pub put_network_rule : NetworkRule → Store → Store
unfolding normalize upsert
put_network_rule r s = record s {
  state =
      normalize
        (record (s.state) { network_rules = upsert s.state.network_rules r (λ a c. a.id == c.id) });
}

unfoldable pub put_principal : Principal → Store → Store
unfolding normalize upsert
put_principal p s = record s {
  state =
      normalize
        (record (s.state) { principals = upsert s.state.principals p (λ a c. a.name == c.name) });
}

-- How `Delete` ends for one collection: nothing removed is `ErrNotFound`, with no normalization.
abbrev pub finish : Store → Bool → State → Store × Bool
finish s unchanged st =
    if unchanged
    then (record s { state = st }, false)
    else (record s { state = normalize st }, true)

-- `Delete`: the new store, and whether it succeeded; `false` is an error that wraps `ErrNotFound`.
unfoldable pub delete : String → String → Store → Store × Bool
unfolding normalize cut
delete kind id s =
    let st = s.state in
    if kind == "bucket"
    then (let rest = keep (λ b. not (b.name == id)) st.buckets in
        finish s (length rest =? length st.buckets) (record st { buckets = rest }))
    else if kind == "grant"
    then (let rest = keep (λ g. not (g.id == id)) st.grants in
        finish s (length rest =? length st.grants) (record st { grants = rest }))
    else if kind == "network_rule"
    then (let rest = keep (λ r. not (r.id == id)) st.network_rules in
        finish s (length rest =? length st.network_rules) (record st { network_rules = rest }))
    else if kind == "workload"
    then (let rest = keep (λ w. not (w.name == id)) st.workloads in
        finish s (length rest =? length st.workloads) (record st { workloads = rest }))
    else if kind == "object"
    then elim (cut b'/' id) [
      | none ↦ (s, false)
      | some (bucket, key) ↦
          let rest = keep (λ o. not (is_object bucket key o)) st.objects in
          finish s (length rest =? length st.objects) (record st { objects = rest })
    ]
    else (s, false)

-- `Record`: the new store and the new row.
unfoldable pub record_entry : String → String → Caller → String → Store → Store × LedgerEntry
record_entry action resource c detail s =
    let e : LedgerEntry = record {
      seq = s.seq + 1;
      action = action;
      resource = resource;
      principal = principal_of c;
      segment = c.segment;
      detail = detail;
    } in
    (record { state = record (s.state) { ledger = s.state.ledger ++ e ∷ [] }; seq = s.seq + 1 }, e)
