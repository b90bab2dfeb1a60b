-- ===== src/Examples/Manifests.antt =====
-- Instances of the theorems on the manifest surface.
use planless.Prelude.{ℤ, String, ◌≡◌, ◌⊎◌, refl, some, none, List, [], ◌∷◌}
use planless.Prelude.Text.{has_prefix, strip_prefix, text_ltb}
use planless.Ordered.{sort, insert}
use planless.Json.{Json, text, object, Fields, end, field}
use planless.Graph.{Graph, overlay, base_manifest}
use planless.Graph.Origins.{bare}
use planless.Graph.Sorted.{sort_all}
use planless.Graph.Plan.{include}
use planless.Graph.Documents.{index_by_identity}
use planless.Graph.Manifests.{
  add_kind, add_service, add_deployment, add_network_policy, unrecognized_annotations, add_document,
  add_documents, from_manifests,
}
use planless.Graph.Manifests.Complete.{Normalized, from_manifests-Normalized}

abbrev int_of : String → ℤ
int_of _ = ℤ.pos 8080

abbrev metadata : String → Fields → Json
metadata name annotations =
    object (field "name" (text name) (field "annotations" (object annotations) end))

-- A published bucket, with the ranges from which it may be read.
abbrev bucket_service : String → Fields
bucket_service ranges = field "kind" (text "Service") (
    field "metadata"
      (metadata "reports" (
        field "democloud.example/bucket" (text "reports") (
          field "democloud.example/grant" (text "g1") (
            field "democloud.example/readers" (text "analyst, auditor") (
              field "democloud.example/reader-sources" (text ranges)
                (field "democloud.example/owner" (text "team") end))))))
      end)

abbrev config_map : Fields
config_map = field "kind" (text "ConfigMap") end

abbrev rendered : List Fields
rendered = bucket_service "0.0.0.0/0" ∷ config_map ∷ []

abbrev base : List Fields
base = bucket_service "10.20.0.0/16" ∷ []

from_manifests-Normalized_example :
    ((rendered ≡ []) × (from_manifests int_of rendered base [] ≡ none))
    ⊎ ((g : Graph) × (from_manifests int_of rendered base [] ≡ some g)
        × Normalized int_of (index_by_identity base) rendered g)
from_manifests-Normalized_example = from_manifests-Normalized int_of rendered base []

-- The overlay widened the sources; the kind and the annotation that are not known are reported.
from_manifests-rendered :
    from_manifests int_of rendered base []
    ≡ some (record {
      contract_version = "1";
      surface = "manifest-set";
      segments = [];
      resources =
          record {
            kind = "bucket";
            name = "reports";
            address = "manifest/Service/reports";
            ports = [];
            attributes = some (("name", text "reports") ∷ ("type", text "") ∷ []);
            provenance = none;
          }
          ∷ [];
      grants =
          record {
            id = "g1";
            resource_kind = "bucket";
            resource_name = "reports";
            principals = "analyst" ∷ "auditor" ∷ [];
            actions = "read" ∷ [];
            source_ranges = "0.0.0.0/0" ∷ [];
            address = "manifest/Service/reports";
            provenance =
                some (("principals", bare base_manifest) ∷ ("source_ranges", bare overlay) ∷ []);
          }
          ∷ [];
      network_rules = [];
      unknown_resource_types = "ConfigMap" ∷ [];
      unrecognized_fields = "Service/reports.democloud.example/owner" ∷ [];
    })
unfolding from_manifests add_documents add_document add_kind add_service add_deployment
    add_network_policy unrecognized_annotations include sort_all sort insert text_ltb has_prefix
    strip_prefix
from_manifests-rendered = refl
