-- ===== src/Graph/Plan/Visits.antt =====
-- What one turn of `walk` of internal/graph/normalize.go adds to the graph and to the two sets.
use Prim.Native.String
use planless.Prelude.{
  ℤ, String, Bool, true, false, not, ◌&&◌, ◌||◌, ◌≡◌, inl, inr, Option, none, some, List, [], ◌∷◌,
  ◌++◌, any, any-append, arith, ◌==◌, text_eq→eq, Bool-cases, Option-cases, subst,
}
use planless.Json.{Json}
use planless.Graph.{Map, Resource, Grant, NetworkRule, Graph, Provenance}
use planless.Graph.Origins.{Decode, ConfigIndex, PlanResource, provenance_for}
use planless.Graph.Plan.{
  KnownType, bucket, bucket_object, grant, workload, network_rule, known_type, known_attributes,
  include, unrecognized_in, Walk, bucket_of, object_of, workload_of, grant_of, network_rule_of, add,
  visit,
}
use planless.Graph.Plan.Planned.{Place}

-- What a planned resource adds to the graph that has the property.
abbrev pub grant_with : (Grant → Bool) → KnownType → PlanResource → Option (Map Provenance) → Bool
grant_with p grant r prov = p (grant_of r prov)
grant_with p _ r prov = false

abbrev pub rule_with :
    (NetworkRule → Bool) → KnownType → PlanResource → Option (Map Provenance) → Bool
rule_with p network_rule r prov = p (network_rule_of r prov)
rule_with p _ r prov = false

abbrev pub resource_with :
    (String → ℤ) → (Resource → Bool) → KnownType → PlanResource → Option (Map Provenance) → Bool
resource_with int_of p bucket r prov = p (bucket_of r prov)
resource_with int_of p bucket_object r prov = p (object_of r prov)
resource_with int_of p workload r prov = p (workload_of int_of r prov)
resource_with int_of p _ r prov = false

pub any-last :
    {A : Type 0} (p : A → Bool) (l : List A) (a : A) → any p (l ++ (a ∷ [])) ≡ (any p l || p a)
any-last p l a = ground (arith, any-append p l (a ∷ []))

pub same_or : (b : Bool) → b ≡ (b || false)
same_or b = ground arith

module _ (int_of : String → ℤ) (r : PlanResource) (prov : Option (Map Provenance)) (g : Graph) where
  add-grants :
      (p : Grant → Bool) (t : KnownType)
      → any p (add int_of t r prov g).grants ≡ (any p g.grants || grant_with p t r prov)
  unfolding add
  add-grants p grant = any-last p g.grants (grant_of r prov)
  add-grants p bucket = same_or _
  add-grants p bucket_object = same_or _
  add-grants p workload = same_or _
  add-grants p network_rule = same_or _

  add-rules :
      (p : NetworkRule → Bool) (t : KnownType)
      → any p (add int_of t r prov g).network_rules
        ≡ (any p g.network_rules || rule_with p t r prov)
  unfolding add
  add-rules p network_rule = any-last p g.network_rules (network_rule_of r prov)
  add-rules p bucket = same_or _
  add-rules p bucket_object = same_or _
  add-rules p workload = same_or _
  add-rules p grant = same_or _

  add-resources :
      (p : Resource → Bool) (t : KnownType)
      → any p (add int_of t r prov g).resources
        ≡ (any p g.resources || resource_with int_of p t r prov)
  unfolding add
  add-resources p bucket = any-last p g.resources (bucket_of r prov)
  add-resources p bucket_object = any-last p g.resources (object_of r prov)
  add-resources p workload = any-last p g.resources (workload_of int_of r prov)
  add-resources p grant = same_or _
  add-resources p network_rule = same_or _

-- `k` is in the set after it was included, and what was in it stays.
pub any-include :
    (k t : String) (set : List String)
    → any (λ l. l == t) (include k set) ≡ (any (λ l. l == t) set || (k == t))
unfolding include
any-include k t set = elim (Bool-cases (any (λ l. l == k) set)) [
  | inr e ↦ rw e (ground arith)
  | inl e ↦ rw e (elim (Bool-cases (k == t)) [
    | inr n ↦ ground (arith, n)
    | inl y ↦ ground (arith, y, subst (λ u. any (λ l. l == u) set ≡ true) (text_eq→eq y) e)
  ])
]

-- The attribute is outside of the known ones, and `f` is the name it is reported by.
abbrev pub unrecognized_as : String → List String → String → Map Json → Bool
unrecognized_as f known address values =
    any
      (λ (v : String × Json).
        not (any (λ k. k == v.0) known) && (String.◌++◌ address (String.◌++◌ "." v.0) == f))
      values

any-unrecognized_in :
    (f : String) (known : List String) (address : String) (values : Map Json) (found : List String)
    → any (λ l. l == f) (unrecognized_in known address values found)
      ≡ (any (λ l. l == f) found || unrecognized_as f known address values)
unfolding unrecognized_in
any-unrecognized_in f known address [] found = same_or _
any-unrecognized_in f known address ((attr, _) ∷ rest) found =
    elim (Bool-cases (any (λ k. k == attr) known)) [
      | inl e ↦ rw e (any-unrecognized_in f known address rest found)
      | inr e ↦ rw e (
          ground (
            arith,
            any-unrecognized_in f known address rest
                (include (String.◌++◌ address (String.◌++◌ "." attr)) found),
            any-include (String.◌++◌ address (String.◌++◌ "." attr)) f found,
          ))
    ]

-- What a known resource with its provenance adds; one of another type adds nothing.
abbrev pub by_type :
    (KnownType → PlanResource → Option (Map Provenance) → Bool)
    → PlanResource
    → Option (Map Provenance)
    → Option KnownType
    → Bool
by_type with_type r prov none = false
by_type with_type r prov (some t) = with_type t r prov

-- The resource is of a type without a normalizer, `u`.
abbrev pub unknown_as : String → PlanResource → Option KnownType → Bool
unknown_as u r none = r.type == u
unknown_as u r (some t) = false

-- The resource is of a known type and has an attribute that is reported as `f`.
abbrev pub unrecognized_of : String → PlanResource → Option KnownType → Bool
unrecognized_of f r none = false
unrecognized_of f r (some t) = unrecognized_as f (known_attributes t) r.address r.values

module _ (int_of : String → ℤ) (decode : Decode) (idx : ConfigIndex) where
  -- What the resource in its place adds.
  abbrev pub adds : (KnownType → PlanResource → Option (Map Provenance) → Bool) → Place → Bool
  adds with_type (path, r) =
      by_type with_type r (provenance_for decode idx path r) (known_type r.type)

  module _ (path : String) (r : PlanResource) (w : Walk) where
    pub visit-grants :
        (p : Grant → Bool)
        → any p (visit int_of decode idx path r w).graph.grants
          ≡ (any p w.graph.grants || adds (grant_with p) (path, r))
    unfolding visit
    visit-grants p = elim (Option-cases (known_type r.type)) [
      | inl n ↦ rw (n, visit) (same_or _)
      | inr (t, k) ↦
          rw (k, visit) (add-grants int_of r (provenance_for decode idx path r) w.graph p t)
    ]

    pub visit-rules :
        (p : NetworkRule → Bool)
        → any p (visit int_of decode idx path r w).graph.network_rules
          ≡ (any p w.graph.network_rules || adds (rule_with p) (path, r))
    unfolding visit
    visit-rules p = elim (Option-cases (known_type r.type)) [
      | inl n ↦ rw (n, visit) (same_or _)
      | inr (t, k) ↦
          rw (k, visit) (add-rules int_of r (provenance_for decode idx path r) w.graph p t)
    ]

    pub visit-resources :
        (p : Resource → Bool)
        → any p (visit int_of decode idx path r w).graph.resources
          ≡ (any p w.graph.resources || adds (resource_with int_of p) (path, r))
    unfolding visit
    visit-resources p = elim (Option-cases (known_type r.type)) [
      | inl n ↦ rw (n, visit) (same_or _)
      | inr (t, k) ↦
          rw (k, visit) (add-resources int_of r (provenance_for decode idx path r) w.graph p t)
    ]

    pub visit-unknown_types :
        (u : String)
        → any (λ t. t == u) (visit int_of decode idx path r w).unknown_types
          ≡ (any (λ t. t == u) w.unknown_types || unknown_as u r (known_type r.type))
    unfolding visit
    visit-unknown_types u = elim (Option-cases (known_type r.type)) [
      | inl n ↦ rw (n, visit) (any-include r.type u w.unknown_types)
      | inr (t, k) ↦ rw (k, visit) (same_or _)
    ]

    pub visit-unrecognized :
        (f : String)
        → any (λ l. l == f) (visit int_of decode idx path r w).unrecognized
          ≡ (any (λ l. l == f) w.unrecognized || unrecognized_of f r (known_type r.type))
    unfolding visit
    visit-unrecognized f = elim (Option-cases (known_type r.type)) [
      | inl n ↦ rw (n, visit) (same_or _)
      | inr (t, k) ↦
          rw (k, visit)
            (any-unrecognized_in f (known_attributes t) r.address r.values w.unrecognized)
    ]
