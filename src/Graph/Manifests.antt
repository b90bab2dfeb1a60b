-- ===== src/Graph/Manifests.antt =====
-- internal/graph/manifests.go: a rendered manifest set becomes the input of the policy. A document is a
-- decoded tree, and Go's conversion of a JSON number to an int64 is a parameter.
mod Documents
pub mod Complete
use Prim.Native.String
use planless.Prelude.{
  ℤ, String, Bool, true, false, not, ◌&&◌, ◌||◌, Option, none, some, List, [], ◌∷◌, ◌++◌,
  if◌then◌else◌, ◌==◌, any,
}
use planless.Prelude.Text.{has_prefix}
use planless.Prelude.Words.{trim_space, split_text, join_texts}
use planless.Json.{
  Json, null, text, array, object, Items, nil, cons, Fields, end, field, get, items,
}
use planless.Graph.{
  Map, assign, at, Origin, base_manifest, overlay, Provenance, Port, Resource, Grant, NetworkRule,
  Segment, Graph,
}
use planless.Graph.Origins.{bare, bind_field}
use planless.Graph.Plan.{string_of, number_of, include, Walk, empty_graph, reported}
use planless.Graph.Documents.{
  annotation_prefix, known_annotations, KnownKind, known_kind, map_of, list_of, string_map, text_at,
  annotation, kind_of, name_of, annotations_of, identity_of, index_from, index_by_identity,
  document_at, compare, manifest_origin, list_parts, split_list, blocks_from, ingress_blocks,
  ip_blocks, binds_of, or_null, pod_spec_of, service, deployment, network_policy,
}

-- The loop over the annotations of a document with the identity `identity`.
unfoldable pub unrecognized_annotations : String → Map String → List String → List String
unfolding has_prefix include
unrecognized_annotations identity [] found = found
unrecognized_annotations identity ((key, _) ∷ rest) found = unrecognized_annotations identity rest (
    if has_prefix key annotation_prefix && not (any (λ k. k == key) known_annotations)
    then include (String.◌++◌ identity (String.◌++◌ "." key)) found
    else found)

module _ (doc base : Fields) (name : String) (annotations : Map String) where
  -- What `addService` appends for a bucket.
  abbrev pub service_resource : Resource
  service_resource = record {
    kind = "bucket";
    name = annotation "bucket" annotations;
    address = String.◌++◌ "manifest/Service/" name;
    ports = [];
    attributes = some (
        ("name", text (annotation "bucket" annotations))
        ∷ ("type", text (string_of (get "type" (map_of (get "spec" doc)))))
        ∷ []);
    provenance = none;
  }

  abbrev pub service_grant : Grant
  service_grant = record {
    id = annotation "grant" annotations;
    resource_kind = "bucket";
    resource_name = annotation "bucket" annotations;
    principals = split_list (annotation "readers" annotations);
    actions = "read" ∷ [];
    source_ranges = split_list (annotation "reader-sources" annotations);
    address = String.◌++◌ "manifest/Service/" name;
    provenance = some (
        ("principals", manifest_origin "readers" annotations (annotations_of base))
        ∷ ("source_ranges", manifest_origin "reader-sources" annotations (annotations_of base))
        ∷ []);
  }

  -- `addService`.
  unfoldable pub add_service : Graph → Graph
  add_service g = if annotation "bucket" annotations == "" then g else record g {
    resources = g.resources ++ (service_resource ∷ []);
    grants = g.grants ++ (service_grant ∷ []);
  }

  -- What `addNetworkPolicy` appends for a port of a workload.
  abbrev pub policy_rule : NetworkRule
  policy_rule = record {
    id = annotation "rule" annotations;
    workload = annotation "workload" annotations;
    port = annotation "port" annotations;
    source_ranges = ip_blocks doc;
    address = String.◌++◌ "manifest/NetworkPolicy/" name;
    provenance = some (
        (
          "source_ranges",
          compare (join_texts "," (ip_blocks doc)) (join_texts "," (ip_blocks base)),
        )
        ∷ []);
  }

  -- `addNetworkPolicy`.
  unfoldable pub add_network_policy : Graph → Graph
  add_network_policy g =
      if annotation "workload" annotations == "" || annotation "port" annotations == ""
      then g
      else record g { network_rules = g.network_rules ++ (policy_rule ∷ []) }

module _ (int_of : String → ℤ) where
  -- The loop over the ports of a container, with what it appends to `ports` and sets in `prov`.
  abbrev pub container_ports :
      Map String → List Json → List Port × Map Provenance → List Port × Map Provenance
  container_ports base_binds [] found = found
  container_ports base_binds (raw ∷ rest) (ports, prov) =
      let p = map_of (some raw) in
      let port_name = string_of (get "name" p) in
      let bind = string_of (get "hostIP" p) in
      container_ports base_binds rest (
        ports
            ++ (record {
              name = port_name;
              number = number_of int_of (get "containerPort" p);
              bind = bind;
            }
                ∷ []),
        assign (bind_field port_name) (compare bind (text_at port_name base_binds)) prov,
      )

  -- The loop over the containers; `base` are those of the base from the same index on.
  abbrev pub containers_ports :
      (containers base : List Json) → List Port × Map Provenance → List Port × Map Provenance
  containers_ports [] base found = found
  containers_ports (raw ∷ rest) [] found =
      containers_ports rest []
        (container_ports (binds_of [] []) (list_of (get "ports" (map_of (some raw)))) found)
  containers_ports (raw ∷ rest) (base ∷ more) found = containers_ports rest more (
      container_ports (binds_of [] (list_of (get "ports" (map_of (some base)))))
        (list_of (get "ports" (map_of (some raw)))) found)

  module _ (doc base : Fields) (name : String) (annotations : Map String) where
    abbrev pub deployment_ports : List Port × Map Provenance
    deployment_ports =
        containers_ports (list_of (get "containers" (pod_spec_of doc)))
          (list_of (get "containers" (pod_spec_of base))) ([], [])

    -- What `addDeployment` appends for a workload.
    abbrev pub deployment_resource : Resource
    deployment_resource = record {
      kind = "workload";
      name = annotation "workload" annotations;
      address = String.◌++◌ "manifest/Deployment/" name;
      ports = deployment_ports.0;
      attributes = some (
          ("name", text (annotation "workload" annotations))
          ∷ ("hostNetwork", or_null (get "hostNetwork" (pod_spec_of doc)))
          ∷ []);
      provenance = some deployment_ports.1;
    }

    -- `addDeployment`.
    unfoldable pub add_deployment : Graph → Graph
    add_deployment g =
        if annotation "workload" annotations == ""
        then g
        else record g { resources = g.resources ++ (deployment_resource ∷ []) }

    -- The switch of `FromManifests`.
    unfoldable pub add_kind : KnownKind → Graph → Graph
    unfolding add_service add_deployment add_network_policy
    add_kind service g = add_service doc base name annotations g
    add_kind deployment g = add_deployment g
    add_kind network_policy g = add_network_policy doc base name annotations g

  module _ (base_index : Map Fields) where
    -- One turn of the loop of `FromManifests`.
    unfoldable pub add_document : Fields → Walk → Walk
    unfolding add_kind unrecognized_annotations include
    add_document doc w = elim (known_kind (kind_of doc)) [
      | none ↦ record w { unknown_types = include (kind_of doc) w.unknown_types }
      | some k ↦ record w {
        graph =
            add_kind doc (document_at (identity_of doc) base_index) (name_of doc)
              (annotations_of doc) k w.graph;
        unrecognized =
            unrecognized_annotations (identity_of doc) (annotations_of doc) w.unrecognized;
      }
    ]

    unfoldable pub add_documents : List Fields → Walk → Walk
    unfolding add_document
    add_documents [] w = w
    add_documents (doc ∷ rest) w = add_documents rest (add_document doc w)

  -- `FromManifests`; `none` is the error.
  unfoldable pub from_manifests : (rendered base : List Fields) → List Segment → Option Graph
  unfolding add_documents
  from_manifests [] base segments = none
  from_manifests (doc ∷ rest) base segments = some (
      reported (
        add_documents (index_by_identity base) (doc ∷ rest) (record {
          graph = empty_graph "manifest-set" segments;
          unknown_types = [];
          unrecognized = [];
        })))
