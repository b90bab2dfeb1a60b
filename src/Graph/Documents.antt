-- ===== src/Graph/Documents.antt =====
-- How internal/graph/manifests.go reads a document: kinds, annotations, identities, origins and lists.
-- A document is a decoded tree.
use Prim.Native.String
use planless.Prelude.{
  String, not, ◌&&◌, Option, none, some, List, [], ◌∷◌, ◌++◌, if◌then◌else◌, ◌==◌,
}
use planless.Prelude.Words.{trim_space, split_text}
use planless.Json.{Json, null, array, object, Fields, end, field, get, items}
use planless.Graph.{Map, assign, at, base_manifest, overlay, Provenance}
use planless.Graph.Origins.{bare}
use planless.Graph.Plan.{string_of}

abbrev pub annotation_prefix : String
annotation_prefix = "democloud.example/"

-- The keys of `knownAnnotations`.
abbrev pub known_annotations : List String
known_annotations =
    "democloud.example/bucket" ∷ "democloud.example/grant" ∷ "democloud.example/readers"
    ∷ "democloud.example/reader-sources" ∷ "democloud.example/workload"
    ∷ "democloud.example/address" ∷ "democloud.example/port" ∷ "democloud.example/rule" ∷ []

-- The keys of `knownKinds`, which are also the cases of the switch.
pub data KnownKind : Type 0 where
  service deployment network_policy : KnownKind

abbrev pub known_kind : String → Option KnownKind
known_kind k =
    if k == "Service"
    then some service
    else if k == "Deployment"
    then some deployment
    else if k == "NetworkPolicy"
    then some network_policy
    else none

-- `mapOf`: a value that is not an object is the empty map.
abbrev pub map_of : Option Json → Fields
map_of (some (object m)) = m
map_of _ = end

-- `listOf`.
abbrev pub list_of : Option Json → List Json
list_of (some (array vs)) = items vs
list_of _ = []

-- `stringMap`.
abbrev pub string_map : Fields → Map String
string_map end = []
string_map (field k v rest) = (k, string_of (some v)) ∷ string_map rest

-- `m[k]` of a map to texts.
abbrev pub text_at : String → Map String → String
text_at k m = elim (at k m) [ none ↦ "" | some v ↦ v ]

abbrev pub annotation : String → Map String → String
annotation key annotations = text_at (String.◌++◌ annotation_prefix key) annotations

abbrev pub kind_of : Fields → String
kind_of doc = string_of (get "kind" doc)

abbrev pub name_of : Fields → String
name_of doc = string_of (get "name" (map_of (get "metadata" doc)))

abbrev pub annotations_of : Fields → Map String
annotations_of doc = string_map (map_of (get "annotations" (map_of (get "metadata" doc))))

abbrev pub identity_of : Fields → String
identity_of doc = String.◌++◌ (kind_of doc) (String.◌++◌ "/" (name_of doc))

-- `indexByIdentity`, from the entries that are there.
abbrev pub index_from : Map Fields → List Fields → Map Fields
index_from index [] = index
index_from index (doc ∷ rest) = index_from (assign (identity_of doc) doc index) rest

abbrev pub index_by_identity : List Fields → Map Fields
index_by_identity docs = index_from [] docs

-- A missing document reads like an empty one.
abbrev pub document_at : String → Map Fields → Fields
document_at key index = elim (at key index) [ none ↦ end | some doc ↦ doc ]

-- `compare`.
abbrev pub compare : (rendered base : String) → Provenance
compare rendered base =
    if not (base == "") && rendered == base then bare base_manifest else bare overlay

-- `manifestOrigin`.
abbrev pub manifest_origin : String → (rendered base : Map String) → Provenance
manifest_origin key rendered base = compare (annotation key rendered) (annotation key base)

-- `splitList`.
abbrev pub list_parts : List String → List String
list_parts [] = []
list_parts (part ∷ rest) =
    let more = list_parts rest in if trim_space part == "" then more else trim_space part ∷ more

abbrev pub split_list : String → List String
split_list v = list_parts (split_text b',' v)

-- `ipBlocks`.
abbrev pub blocks_from : List Json → List String
blocks_from [] = []
blocks_from (from ∷ rest) =
    let cidr = string_of (get "cidr" (map_of (get "ipBlock" (map_of (some from))))) in
    let more = blocks_from rest in if cidr == "" then more else cidr ∷ more

abbrev pub ingress_blocks : List Json → List String
ingress_blocks [] = []
ingress_blocks (rule ∷ rest) =
    blocks_from (list_of (get "from" (map_of (some rule)))) ++ ingress_blocks rest

abbrev pub ip_blocks : Fields → List String
ip_blocks doc = ingress_blocks (list_of (get "ingress" (map_of (get "spec" doc))))

-- The loop over the ports of the container in the base.
abbrev pub binds_of : Map String → List Json → Map String
binds_of binds [] = binds
binds_of binds (port ∷ rest) =
    let p = map_of (some port) in
    binds_of (assign (string_of (get "name" p)) (string_of (get "hostIP" p)) binds) rest

abbrev pub or_null : Option Json → Json
or_null none = null
or_null (some v) = v

abbrev pub pod_spec_of : Fields → Fields
pod_spec_of doc = map_of (get "spec" (map_of (get "template" (map_of (get "spec" doc)))))
