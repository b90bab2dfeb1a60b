-- ===== src/Graph/Sorted.antt =====
-- `sortAll` of internal/graph/normalize.go, with which every normalizer ends.
use planless.Prelude.Text.{text_ltb}
use planless.Ordered.{sort}
use planless.Graph.{Resource, Grant, NetworkRule, Segment, Graph}

unfoldable pub sort_all : Graph → Graph
unfolding sort text_ltb
sort_all g = record g {
  resources = sort (λ (a b : Resource). text_ltb a.address b.address) g.resources;
  grants = sort (λ (a b : Grant). text_ltb a.id b.id) g.grants;
  network_rules = sort (λ (a b : NetworkRule). text_ltb a.id b.id) g.network_rules;
  segments = sort (λ (a b : Segment). text_ltb a.name b.name) g.segments;
}
