-- ===== src/Graph/Plan/Complete.antt =====
-- `FromPlan` of internal/graph/normalize.go drops nothing: the graph has an entry for each planned
-- resource of a known type and for no other, and names the other types and the attributes it does not know.
use planless.Prelude.{
  [], ℕ, String, Bool, ◌||◌, ◌≡◌, ◌≢◌, some, List, any, refl, ◌∙◌, ◌==◌, text_ne,
}
use planless.Prelude.Text.{text_ltb}
use planless.Ordered.Membership.{any-sort}
use planless.Graph.{Resource, Grant, NetworkRule, Segment, Graph}
use planless.Graph.Sorted.{sort_all}
use planless.Graph.Origins.{PlanResource}
use planless.Graph.Plan.{
  Walk, known_type, PlanDocument, visit, empty_graph, walked, reported, Reader, from_plan,
}
use planless.Graph.Plan.Planned.{Place, planned, walk-any}
use planless.Graph.Plan.Visits.{
  grant_with, rule_with, resource_with, adds, unknown_as, unrecognized_of, visit-grants,
  visit-rules, visit-resources, visit-unknown_types, visit-unrecognized,
}

-- The entries of the graph are those of the planned resources of a known type.
abbrev pub IsCarried : Reader → PlanDocument → Graph → Type 0
IsCarried reader doc g =
    ((p : Resource → Bool)
      → any p g.resources
        ≡ any (adds reader.int_of reader.decode doc.index (resource_with reader.int_of p))
            (planned "" doc.root_module))
    × ((p : Grant → Bool)
        → any p g.grants
          ≡ any (adds reader.int_of reader.decode doc.index (grant_with p))
              (planned "" doc.root_module))
    × ((p : NetworkRule → Bool)
        → any p g.network_rules
          ≡ any (adds reader.int_of reader.decode doc.index (rule_with p))
              (planned "" doc.root_module))

-- The reports of the graph are the unknown types and the unknown attributes of the plan.
abbrev pub IsReported : PlanDocument → Graph → Type 0
IsReported doc g =
    ((u : String)
      → any (λ t. t == u) g.unknown_resource_types
        ≡ any (λ (x : Place). unknown_as u x.1 (known_type x.1.type)) (planned "" doc.root_module))
    × ((f : String)
        → any (λ l. l == f) g.unrecognized_fields
          ≡ any (λ (x : Place). unrecognized_of f x.1 (known_type x.1.type))
              (planned "" doc.root_module))

module _ (reader : Reader) (segments : List Segment) (doc : PlanDocument) where
  result : Graph
  result = reported (walked reader.int_of reader.decode segments doc)

  from_plan-reported :
      (raw : List ℕ)
      → reader.plan raw ≡ some doc
      → doc.format_version ≢ ""
      → from_plan reader raw segments ≡ some result
  unfolding from_plan result
  from_plan-reported raw read versioned = rw (read, from_plan) (rw (text_ne versioned) refl)

  -- `walk-any` from the empty graph on.
  walked-any :
      (test : Walk → Bool) (found : Place → Bool)
      → ((path : String) (r : PlanResource) (w : Walk)
          → test (visit reader.int_of reader.decode doc.index path r w)
            ≡ (test w || found (path, r)))
      → test (walked reader.int_of reader.decode segments doc) ≡ (
          test (record {
            graph = empty_graph "iac-plan" segments;
            unknown_types = [];
            unrecognized = [];
          })
          || any found (planned "" doc.root_module))
  walked-any test found by_visit =
      walk-any reader.int_of reader.decode doc.index test found by_visit "" doc.root_module _

  result-IsCarried : IsCarried reader doc result
  unfolding sort_all result
  result-IsCarried = (
    λ p.
        any-sort p _ _
        ∙ walked-any (λ w. any p w.graph.resources) _
            (λ path r w. visit-resources reader.int_of reader.decode doc.index path r w p),
    λ p.
        any-sort p _ _
        ∙ walked-any (λ w. any p w.graph.grants) _
            (λ path r w. visit-grants reader.int_of reader.decode doc.index path r w p),
    λ p.
        any-sort p _ _
        ∙ walked-any (λ w. any p w.graph.network_rules) _
            (λ path r w. visit-rules reader.int_of reader.decode doc.index path r w p),
  )

  result-IsReported : IsReported doc result
  unfolding sort_all result
  result-IsReported = (
    λ u.
        any-sort (λ t. t == u) text_ltb _
        ∙ walked-any (λ w. any (λ t. t == u) w.unknown_types) _
            (λ path r w. visit-unknown_types reader.int_of reader.decode doc.index path r w u),
    λ f.
        any-sort (λ l. l == f) text_ltb _
        ∙ walked-any (λ w. any (λ l. l == f) w.unrecognized) _
            (λ path r w. visit-unrecognized reader.int_of reader.decode doc.index path r w f),
  )

  -- A plan that can be read and has a format version becomes a graph whose resources, grants and
  -- network rules pass any test exactly when one of those made from a planned resource of a known
  -- type does, in every module of the plan.
  pub from_plan-IsCarried :
      (raw : List ℕ)
      → reader.plan raw ≡ some doc
      → doc.format_version ≢ ""
      → (g : Graph) × (from_plan reader raw segments ≡ some g) × IsCarried reader doc g
  from_plan-IsCarried raw read versioned =
      (result, from_plan-reported raw read versioned, result-IsCarried)

  -- A plan that can be read and has a format version becomes a graph that reports exactly the
  -- resource types that the normalizer does not know, and exactly the attributes it does not know
  -- of the resources it does, in every module of the plan.
  pub from_plan-IsReported :
      (raw : List ℕ)
      → reader.plan raw ≡ some doc
      → doc.format_version ≢ ""
      → (g : Graph) × (from_plan reader raw segments ≡ some g) × IsReported doc g
  from_plan-IsReported raw read versioned =
      (result, from_plan-reported raw read versioned, result-IsReported)
