-- ===== src/Graph/Manifests/Complete.antt =====
-- The graph of a manifest set says what the set says: `FromManifests` of internal/graph/manifests.go.
use planless.Prelude.{
  ℤ, String, Bool, not, ◌&&◌, ◌||◌, ◌≡◌, ◌⊎◌, inl, inr, ◌∙◌, refl, none, some, List, [], ◌∷◌, ◌==◌,
  any, arith, Option-cases,
}
use planless.Json.{Fields}
use planless.Ordered.Membership.{any-sort}
use planless.Graph.{Map, Resource, Grant, NetworkRule, Segment, Graph}
use planless.Graph.Sorted.{sort_all}
use planless.Graph.Plan.{Walk, empty_graph, reported}
use planless.Graph.Plan.Visits.{same_or, any-include}
use planless.Graph.Manifests.Documents.{
  of_kind, is_known, grants_with, rules_with, resources_with, unknown_note, add_kind-grants,
  add_kind-rules, add_kind-resources, any-unrecognized,
}
use planless.Graph.Documents.{
  known_kind, kind_of, name_of, annotations_of, identity_of, document_at, index_by_identity,
}
use planless.Graph.Manifests.{add_document, add_documents, from_manifests}

module _ (int_of : String → ℤ) (index : Map Fields) where
  -- What a document of the set declares, the base document with its identity beside it.
  abbrev pub declares_grant : (Grant → Bool) → Fields → Bool
  declares_grant p doc =
      of_kind (known_kind (kind_of doc))
        (grants_with doc (document_at (identity_of doc) index) (name_of doc) (annotations_of doc) p)

  abbrev pub declares_rule : (NetworkRule → Bool) → Fields → Bool
  declares_rule p doc =
      of_kind (known_kind (kind_of doc))
        (rules_with doc (document_at (identity_of doc) index) (name_of doc) (annotations_of doc) p)

  abbrev pub declares_resource : (Resource → Bool) → Fields → Bool
  declares_resource p doc = of_kind (known_kind (kind_of doc)) (
      resources_with doc (document_at (identity_of doc) index) (name_of doc) (annotations_of doc)
        int_of p)

  abbrev pub unknown_kind : String → Fields → Bool
  unknown_kind t doc = not (is_known (known_kind (kind_of doc))) && kind_of doc == t

  abbrev pub unknown_note_in : String → Fields → Bool
  unknown_note_in f doc =
      of_kind (known_kind (kind_of doc))
        (λ _. unknown_note f (identity_of doc) (annotations_of doc))

  -- The entries of the graph are those of the documents, and its reports are what is not known of them.
  pub record Normalized (docs : List Fields) (g : Graph) : Type 0 where
    pub grants : (p : Grant → Bool) → any p g.grants ≡ any (declares_grant p) docs
    pub rules : (p : NetworkRule → Bool) → any p g.network_rules ≡ any (declares_rule p) docs
    pub resources : (p : Resource → Bool) → any p g.resources ≡ any (declares_resource p) docs
    pub kinds :
        (t : String) → any (λ l. l == t) g.unknown_resource_types ≡ any (unknown_kind t) docs
    pub notes :
        (f : String) → any (λ l. l == f) g.unrecognized_fields ≡ any (unknown_note_in f) docs

  -- One turn adds to a test of the walk what the document says.
  Adds : (Walk → Bool) → (Fields → Bool) → Type 0
  Adds said says =
      (doc : Fields) (w : Walk) → said (add_document int_of index doc w) ≡ (said w || says doc)

  every_turn :
      (said : Walk → Bool) (says : Fields → Bool)
      → Adds said says
      → (docs : List Fields) (w : Walk)
      → said (add_documents int_of index docs w) ≡ (said w || any says docs)
  unfolding add_documents Adds
  every_turn said says one [] w = same_or _
  every_turn said says one (doc ∷ docs) w =
      ground (arith, every_turn said says one docs (add_document int_of index doc w), one doc w)

  turn_grants : (p : Grant → Bool) → Adds (λ w. any p w.graph.grants) (declares_grant p)
  unfolding Adds add_document
  turn_grants p doc w = elim (Option-cases (known_kind (kind_of doc))) [
    | inl n ↦ rw (n, add_document) (same_or _)
    | inr (k, e) ↦
        rw (e, add_document)
          (add_kind-grants doc (document_at (identity_of doc) index) (name_of doc)
            (annotations_of doc) int_of w.graph p k)
  ]

  turn_rules : (p : NetworkRule → Bool) → Adds (λ w. any p w.graph.network_rules) (declares_rule p)
  unfolding Adds add_document
  turn_rules p doc w = elim (Option-cases (known_kind (kind_of doc))) [
    | inl n ↦ rw (n, add_document) (same_or _)
    | inr (k, e) ↦
        rw (e, add_document)
          (add_kind-rules doc (document_at (identity_of doc) index) (name_of doc)
            (annotations_of doc) int_of w.graph p k)
  ]

  turn_resources : (p : Resource → Bool) → Adds (λ w. any p w.graph.resources) (declares_resource p)
  unfolding Adds add_document
  turn_resources p doc w = elim (Option-cases (known_kind (kind_of doc))) [
    | inl n ↦ rw (n, add_document) (same_or _)
    | inr (k, e) ↦
        rw (e, add_document)
          (add_kind-resources doc (document_at (identity_of doc) index) (name_of doc)
            (annotations_of doc) int_of w.graph p k)
  ]

  turn_kinds : (t : String) → Adds (λ w. any (λ l. l == t) w.unknown_types) (unknown_kind t)
  unfolding Adds add_document
  turn_kinds p doc w = elim (Option-cases (known_kind (kind_of doc))) [
    | inl n ↦ rw (n, add_document) (any-include (kind_of doc) p w.unknown_types)
    | inr (k, e) ↦ rw (e, add_document) (same_or _)
  ]

  turn_notes : (f : String) → Adds (λ w. any (λ l. l == f) w.unrecognized) (unknown_note_in f)
  unfolding Adds add_document
  turn_notes p doc w = elim (Option-cases (known_kind (kind_of doc))) [
    | inl n ↦ rw (n, add_document) (same_or _)
    | inr (k, e) ↦
        rw (e, add_document)
          (any-unrecognized p (identity_of doc) (annotations_of doc) w.unrecognized)
  ]

  module _ (docs : List Fields) (segments : List Segment) where
    first_walk : Walk
    first_walk = record {
      graph = empty_graph "manifest-set" segments;
      unknown_types = [];
      unrecognized = [];
    }

    reported-Normalized : Normalized docs (reported (add_documents int_of index docs first_walk))
    unfolding sort_all first_walk
    reported-Normalized = record {
      grants = λ p. any-sort p _ _ ∙ every_turn _ _ (turn_grants p) docs first_walk;
      rules = λ p. any-sort p _ _ ∙ every_turn _ _ (turn_rules p) docs first_walk;
      resources = λ p. any-sort p _ _ ∙ every_turn _ _ (turn_resources p) docs first_walk;
      kinds = λ t. any-sort (λ l. l == t) _ _ ∙ every_turn _ _ (turn_kinds t) docs first_walk;
      notes = λ f. any-sort (λ l. l == f) _ _ ∙ every_turn _ _ (turn_notes f) docs first_walk;
    }

module _ (int_of : String → ℤ) (rendered base : List Fields) (segments : List Segment) where
  -- An empty manifest set is an error, and any other becomes a graph whose grants, network rules
  -- and resources pass any test exactly when one that a document of the set declares does, and
  -- which reports exactly the kinds that the normalizer does not know, and exactly the annotations
  -- under the demonstration's prefix that it does not know on a document of a known kind.
  pub from_manifests-Normalized :
      ((rendered ≡ []) × (from_manifests int_of rendered base segments ≡ none))
      ⊎ ((g : Graph) × (from_manifests int_of rendered base segments ≡ some g)
          × Normalized int_of (index_by_identity base) rendered g)
  unfolding from_manifests first_walk
  from_manifests-Normalized = by_documents rendered
    where
      by_documents :
          (docs : List Fields)
          → ((docs ≡ []) × (from_manifests int_of docs base segments ≡ none))
            ⊎ ((g : Graph) × (from_manifests int_of docs base segments ≡ some g)
                × Normalized int_of (index_by_identity base) docs g)
      by_documents [] = inl (refl, refl)
      by_documents (doc ∷ rest) =
          inr (_, refl, reported-Normalized int_of (index_by_identity base) (doc ∷ rest) segments)
