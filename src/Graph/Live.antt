-- ===== src/Graph/Live.antt =====
-- internal/graph/platform.go: the live state of the platform becomes the input of the policy.
use Prim.Native.String
use planless.Prelude.{
  String, Bool, ◌≡◌, ◌&&◌, ◌||◌, true, false, Option, none, some, List, [], ◌∷◌, ◌++◌, map,
  if◌then◌else◌, any, any-append, ◌⊎◌, inl, inr, arith, refl, ap, ◌∙◌,
}
use planless.Prelude.Text.{text_ltb}
use planless.Json.{text}
use planless.Ordered.Membership.{any-sort}
use planless.Graph.{
  live_state, Provenance, Map, assign, Port, Resource, Grant, NetworkRule, Segment, Graph,
}
use planless.Graph.Sorted.{sort_all}
use planless.Graph.Origins.{bare, bind_field}
use planless.Graph.Plan.{empty_graph}

pub record LiveObject : Type 0 where
  pub bucket : String
  pub key : String

pub record LiveGrant : Type 0 where
  pub id : String
  pub resource_kind : String
  pub resource_name : String
  pub principals : List String
  pub actions : List String
  pub source_ranges : List String

pub record LiveWorkload : Type 0 where
  pub name : String
  pub address : String
  pub ports : List Port

pub record LiveRule : Type 0 where
  pub id : String
  pub workload : String
  pub port : String
  pub source_ranges : List String

-- `State`; a bucket is its name.
pub record State : Type 0 where
  pub segments : List Segment
  pub buckets : List String
  pub objects : List LiveObject
  pub grants : List LiveGrant
  pub workloads : List LiveWorkload
  pub network_rules : List LiveRule

-- The four loops of `FromPlatformState`, each by what it appends for one element.
abbrev pub bucket_resource : String → Resource
bucket_resource name = record {
  kind = "bucket";
  name = name;
  address = String.◌++◌ "platform/bucket/" name;
  ports = [];
  attributes = some (("name", text name) ∷ []);
  provenance = none;
}

abbrev pub object_resource : LiveObject → Resource
object_resource o =
    let path = String.◌++◌ o.bucket (String.◌++◌ "/" o.key) in
    record {
      kind = "object";
      name = path;
      address = String.◌++◌ "platform/object/" path;
      ports = [];
      attributes = none;
      provenance = none;
    }

-- The loop over the ports of a workload, as far as it fills `prov`.
abbrev pub binds_from : List Port → Map Provenance → Map Provenance
binds_from [] prov = prov
binds_from (p ∷ rest) prov = binds_from rest (assign (bind_field p.name) (bare live_state) prov)

abbrev pub workload_resource : LiveWorkload → Resource
workload_resource w = record {
  kind = "workload";
  name = w.name;
  address = String.◌++◌ "platform/workload/" w.name;
  ports = w.ports;
  attributes = none;
  provenance = some (binds_from w.ports []);
}

abbrev pub live_grant : LiveGrant → Grant
live_grant g = record {
  id = g.id;
  resource_kind = g.resource_kind;
  resource_name = g.resource_name;
  principals = g.principals;
  actions = g.actions;
  source_ranges = g.source_ranges;
  address = String.◌++◌ "platform/grant/" g.id;
  provenance = some (("principals", bare live_state) ∷ ("source_ranges", bare live_state) ∷ []);
}

abbrev pub live_rule : LiveRule → NetworkRule
live_rule r = record {
  id = r.id;
  workload = r.workload;
  port = r.port;
  source_ranges = r.source_ranges;
  address = String.◌++◌ "platform/network_rule/" r.id;
  provenance = some (("source_ranges", bare live_state) ∷ []);
}

-- The graph that `FromPlatformState` makes of a state that has a bucket or a workload.
abbrev pub live_graph : State → List Segment → Graph
unfolding sort_all
live_graph st segments = sort_all (record (empty_graph "platform-state" segments) {
  resources =
      map bucket_resource st.buckets
      ++ (map object_resource st.objects ++ map workload_resource st.workloads);
  grants = map live_grant st.grants;
  network_rules = map live_rule st.network_rules;
})

-- `len(l) == 0`.
abbrev pub is_empty : {A : Type 0} → List A → Bool
is_empty [] = true
is_empty (_ ∷ _) = false

-- `FromPlatformState`; `none` is the error.
unfoldable pub from_platform_state : State → List Segment → Option Graph
unfolding sort_all
from_platform_state st segments =
    if is_empty st.buckets && is_empty st.workloads then none else some (live_graph st segments)

any-map :
    {A B : Type 0} (f : A → B) (p : B → Bool) (l : List A) → any p (map f l) ≡ any (λ a. p (f a)) l
any-map f p [] = refl
any-map f p (a ∷ l) = ap (λ b. p (f a) || b) (any-map f p l)

module _ (st : State) (segments : List Segment) where
  -- The entries of the graph are those of the state.
  abbrev pub IsLive : Graph → Type 0
  IsLive g =
      ((p : Grant → Bool) → any p g.grants ≡ any (λ l. p (live_grant l)) st.grants)
      × ((p : NetworkRule → Bool)
          → any p g.network_rules ≡ any (λ l. p (live_rule l)) st.network_rules)
      × ((p : Resource → Bool)
          → any p g.resources ≡ (
              any (λ b. p (bucket_resource b)) st.buckets
              || (any (λ o. p (object_resource o)) st.objects
                  || any (λ w. p (workload_resource w)) st.workloads)))

  live_graph-IsLive : IsLive (live_graph st segments)
  unfolding sort_all
  live_graph-IsLive = (
    λ p. any-sort p _ _ ∙ any-map live_grant p st.grants,
    λ p. any-sort p _ _ ∙ any-map live_rule p st.network_rules,
    λ p.
        any-sort p (λ (a b : Resource). text_ltb a.address b.address) resources
        ∙ ground (
          arith,
          any-append p (map bucket_resource st.buckets)
              (map object_resource st.objects ++ map workload_resource st.workloads),
          any-append p (map object_resource st.objects) (map workload_resource st.workloads),
          any-map bucket_resource p st.buckets,
          any-map object_resource p st.objects,
          any-map workload_resource p st.workloads,
        ),
  )
    where
      resources : List Resource
      resources =
          map bucket_resource st.buckets
          ++ (map object_resource st.objects ++ map workload_resource st.workloads)

  -- A live state with neither buckets nor workloads is an error, and any other becomes a graph
  -- whose grants, network rules and resources pass any test exactly when one made from an entry of
  -- the state does.
  pub from_platform_state-IsLive :
      ((st.buckets ≡ []) × (st.workloads ≡ []) × (from_platform_state st segments ≡ none))
      ⊎ ((g : Graph) × (from_platform_state st segments ≡ some g) × IsLive g)
  unfolding from_platform_state
  from_platform_state-IsLive = by_lists st.buckets st.workloads refl refl
    where
      by_lists :
          (bs : List String) (ws : List LiveWorkload)
          → st.buckets ≡ bs
          → st.workloads ≡ ws
          → ((st.buckets ≡ []) × (st.workloads ≡ []) × (from_platform_state st segments ≡ none))
            ⊎ ((g : Graph) × (from_platform_state st segments ≡ some g) × IsLive g)
      by_lists [] [] b w = inl (b, w, rw b (rw w refl))
      by_lists (_ ∷ _) ws b w = inr (live_graph st segments, rw b refl, live_graph-IsLive)
      by_lists [] (_ ∷ _) b w = inr (live_graph st segments, rw b (rw w refl), live_graph-IsLive)
