-- ===== src/Graph/Manifests/Documents.antt =====
-- What one document of a manifest set adds to the graph and to the reports: the switch of
-- `FromManifests` of internal/graph/manifests.go.
use Prim.Native.String
use planless.Prelude.{
  ℤ, String, Bool, true, false, not, ◌&&◌, ◌||◌, ◌≡◌, inl, inr, Option, none, some, List, [], ◌∷◌,
  ◌==◌, any, arith, Bool-cases,
}
use planless.Prelude.Text.{has_prefix}
use planless.Json.{Fields}
use planless.Graph.{Map, Resource, Grant, NetworkRule, Graph}
use planless.Graph.Plan.{include}
use planless.Graph.Plan.Visits.{any-last, same_or, any-include}
use planless.Graph.Documents.{
  KnownKind, service, deployment, network_policy, annotation, annotation_prefix, known_annotations,
}
use planless.Graph.Manifests.{
  service_resource, service_grant, policy_rule, deployment_resource, add_kind, add_service,
  add_deployment, add_network_policy, unrecognized_annotations,
}

-- A document says something of a kind only if it is of that kind.
abbrev pub of_kind : Option KnownKind → (KnownKind → Bool) → Bool
of_kind none says = false
of_kind (some k) says = says k

abbrev pub is_known : Option KnownKind → Bool
is_known none = false
is_known (some _) = true

module _ (doc base : Fields) (name : String) (notes : Map String) where
  -- The document declares a grant that passes the test: it publishes a bucket.
  abbrev pub grants_with : (Grant → Bool) → KnownKind → Bool
  grants_with p service =
      not (annotation "bucket" notes == "") && p (service_grant doc base name notes)
  grants_with p _ = false

  -- The document declares a network rule that passes the test, for a port of a workload.
  abbrev pub rules_with : (NetworkRule → Bool) → KnownKind → Bool
  rules_with p network_policy =
      not (annotation "workload" notes == "" || annotation "port" notes == "")
      && p (policy_rule doc base name notes)
  rules_with p _ = false

  -- The document declares a bucket or a workload that passes the test.
  abbrev pub resources_with : (String → ℤ) → (Resource → Bool) → KnownKind → Bool
  resources_with int_of p service =
      not (annotation "bucket" notes == "") && p (service_resource doc base name notes)
  resources_with int_of p deployment =
      not (annotation "workload" notes == "") && p (deployment_resource int_of doc base name notes)
  resources_with int_of p network_policy = false

  module _ (int_of : String → ℤ) (g : Graph) where
    pub add_kind-grants :
        (p : Grant → Bool) (k : KnownKind)
        → any p (add_kind int_of doc base name notes k g).grants
          ≡ (any p g.grants || grants_with p k)
    unfolding add_kind add_service add_deployment add_network_policy
    add_kind-grants p service = elim (Bool-cases (annotation "bucket" notes == "")) [
      | inl e ↦ rw e (same_or _)
      | inr e ↦ rw e (any-last p g.grants (service_grant doc base name notes))
    ]
    add_kind-grants p deployment = elim (Bool-cases (annotation "workload" notes == "")) [
      | inl e ↦ rw e (same_or _)
      | inr e ↦ rw e (same_or _)
    ]
    add_kind-grants p network_policy =
        elim (Bool-cases (annotation "workload" notes == "" || annotation "port" notes == "")) [
          | inl e ↦ rw e (same_or _)
          | inr e ↦ rw e (same_or _)
        ]

    pub add_kind-rules :
        (p : NetworkRule → Bool) (k : KnownKind)
        → any p (add_kind int_of doc base name notes k g).network_rules
          ≡ (any p g.network_rules || rules_with p k)
    unfolding add_kind add_service add_deployment add_network_policy
    add_kind-rules p service = elim (Bool-cases (annotation "bucket" notes == "")) [
      | inl e ↦ rw e (same_or _)
      | inr e ↦ rw e (same_or _)
    ]
    add_kind-rules p deployment = elim (Bool-cases (annotation "workload" notes == "")) [
      | inl e ↦ rw e (same_or _)
      | inr e ↦ rw e (same_or _)
    ]
    add_kind-rules p network_policy =
        elim (Bool-cases (annotation "workload" notes == "" || annotation "port" notes == "")) [
          | inl e ↦ rw e (same_or _)
          | inr e ↦ rw e (any-last p g.network_rules (policy_rule doc base name notes))
        ]

    pub add_kind-resources :
        (p : Resource → Bool) (k : KnownKind)
        → any p (add_kind int_of doc base name notes k g).resources
          ≡ (any p g.resources || resources_with int_of p k)
    unfolding add_kind add_service add_deployment add_network_policy
    add_kind-resources p service = elim (Bool-cases (annotation "bucket" notes == "")) [
      | inl e ↦ rw e (same_or _)
      | inr e ↦ rw e (any-last p g.resources (service_resource doc base name notes))
    ]
    add_kind-resources p deployment = elim (Bool-cases (annotation "workload" notes == "")) [
      | inl e ↦ rw e (same_or _)
      | inr e ↦ rw e (any-last p g.resources (deployment_resource int_of doc base name notes))
    ]
    add_kind-resources p network_policy =
        elim (Bool-cases (annotation "workload" notes == "" || annotation "port" notes == "")) [
          | inl e ↦ rw e (same_or _)
          | inr e ↦ rw e (same_or _)
        ]

-- An annotation under the prefix that is none of the known ones, with `f` as the name to report it by.
abbrev pub unknown_note : String → String → Map String → Bool
unknown_note f identity notes =
    any
      (λ (v : String × String).
        (has_prefix v.0 annotation_prefix && not (any (λ k. k == v.0) known_annotations))
        && (String.◌++◌ identity (String.◌++◌ "." v.0) == f))
      notes

pub any-unrecognized :
    (f identity : String) (notes : Map String) (found : List String)
    → any (λ l. l == f) (unrecognized_annotations identity notes found)
      ≡ (any (λ l. l == f) found || unknown_note f identity notes)
unfolding unrecognized_annotations
any-unrecognized f identity [] found = same_or _
any-unrecognized f identity ((key, _) ∷ rest) found =
    elim (Bool-cases
      (has_prefix key annotation_prefix && not (any (λ k. k == key) known_annotations))) [
        | inl e ↦ rw e (
            ground (
              arith,
              any-unrecognized f identity rest
                  (include (String.◌++◌ identity (String.◌++◌ "." key)) found),
              any-include (String.◌++◌ identity (String.◌++◌ "." key)) f found,
            ))
        | inr e ↦ rw e (any-unrecognized f identity rest found)
      ]
